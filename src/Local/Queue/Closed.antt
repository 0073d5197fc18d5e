-- ===== src/Local/Queue/Closed.antt =====
-- What a drain of the local queue's workers does, and that it is final.
use queue.Prelude.{
  ℕ, zero, suc, ◌<◌, ◌≡◌, ◌≢◌, refl, Bool, true, false, String, List, [], ◌∷◌, none, arith,
}
use queue.Prelude.Int.{ℤ}
use queue.Local.Queue.{
  LocalQueue, reserve_worker_queue, reserve_open, start_memory_workers_locked, finish_queued_work,
  reserve_sync_work, finish_sync_work, close_worker_queue_when_idle, shut_down, start_workers,
  set_workers, pause, resume,
}
use queue.Local.Queue.Drain.{Reaches, DrainInv, Reaches-DrainInv}

-- The calls that can come after a drain.
pub data QueueCall : Type 0 where
  reserves : Bool → QueueCall
  finishes : QueueCall
  reserves_sync : Bool → QueueCall
  finishes_sync : QueueCall
  tries_close : QueueCall
  shuts_down : QueueCall
  starts : QueueCall
  configures : ℤ → QueueCall
  pauses : String → QueueCall
  resumes : String → QueueCall

unfoldable pub call_queue : LocalQueue → QueueCall → LocalQueue
unfolding reserve_worker_queue finish_queued_work reserve_sync_work finish_sync_work
    close_worker_queue_when_idle shut_down start_workers set_workers pause resume
call_queue d (reserves owned) = (reserve_worker_queue d owned).1
call_queue d finishes = finish_queued_work d
call_queue d (reserves_sync owned) = (reserve_sync_work d owned).1
call_queue d finishes_sync = finish_sync_work d
call_queue d tries_close = (close_worker_queue_when_idle d).1
call_queue d shuts_down = shut_down d
call_queue d starts = start_workers d
call_queue d (configures count) = set_workers d count
call_queue d (pauses name) = pause d name
call_queue d (resumes name) = resume d name

unfoldable pub call_all : LocalQueue → List QueueCall → LocalQueue
call_all d [] = d
call_all d (c ∷ cs) = call_all (call_queue d c) cs

-- The queue is shut down, and its work channel is closed.
pub record IsClosed (d : LocalQueue) : Type 0 where
  down : d.shutting_down ≡ true
  closed : d.work_open ≡ false

call_queue-IsClosed : (d : LocalQueue) (c : QueueCall) → IsClosed d → IsClosed (call_queue d c)
unfolding call_queue reserve_worker_queue reserve_open start_memory_workers_locked
    finish_queued_work reserve_sync_work finish_sync_work close_worker_queue_when_idle shut_down
    start_workers set_workers pause resume
call_queue-IsClosed d c h = record { down = keeps_down c; closed = keeps_closed c }
  where
    keeps_down : (call : QueueCall) → (call_queue d call).shutting_down ≡ true
    keeps_down (reserves owned) = ground (arith, h.down, h.closed)
    keeps_down finishes = h.down
    keeps_down (reserves_sync owned) = ground (arith, h.down, h.closed)
    keeps_down finishes_sync = h.down
    keeps_down tries_close = ground (arith, h.down, h.closed)
    keeps_down shuts_down = refl
    keeps_down starts = ground (arith, h.down, h.closed)
    keeps_down (configures count) = ground (arith, h.down, h.closed)
    keeps_down (pauses name) = h.down
    keeps_down (resumes name) = h.down

    keeps_closed : (call : QueueCall) → (call_queue d call).work_open ≡ false
    keeps_closed (reserves owned) = ground (arith, h.down, h.closed)
    keeps_closed finishes = h.closed
    keeps_closed (reserves_sync owned) = ground (arith, h.down, h.closed)
    keeps_closed finishes_sync = h.closed
    keeps_closed tries_close = ground (arith, h.down, h.closed)
    keeps_closed shuts_down = h.closed
    keeps_closed starts = ground (arith, h.down, h.closed)
    keeps_closed (configures count) = ground (arith, h.down, h.closed)
    keeps_closed (pauses name) = h.closed
    keeps_closed (resumes name) = h.closed

call_all-IsClosed : (d : LocalQueue) (cs : List QueueCall) → IsClosed d → IsClosed (call_all d cs)
unfolding call_all
call_all-IsClosed d [] h = h
call_all-IsClosed d (c ∷ cs) h = call_all-IsClosed (call_queue d c) cs (call_queue-IsClosed d c h)

closed-refuses :
    (d : LocalQueue) (owned : Bool) → IsClosed d → (reserve_worker_queue d owned).0 ≢ none
unfolding reserve_worker_queue
closed-refuses d owned h given = ground (arith, h.down, h.closed, given)

-- What a drain that follows a shutdown does: with a reservation left it waits, and leaves the queue and
-- its open channel as they are; with none it closes the channel, and after whatever calls the channel is
-- closed and refuses a reservation.
pub data Drains (w : ℕ) (d : LocalQueue) (answer : Bool × LocalQueue) : Type 0 where
  drain_waits : 0 < w → answer ≡ (false, d) → d.work_open ≡ true → Drains w d answer
  drain_closes :
      w ≡ 0
      → answer.0 ≡ true
      → ((cs : List QueueCall) (owned : Bool)
          → ((call_all answer.1 cs).work_open ≡ false)
            × ((reserve_worker_queue (call_all answer.1 cs) owned).0 ≢ none))
      → Drains w d answer

drained-IsClosed :
    (w s : ℕ) (d : LocalQueue)
    → DrainInv w s d
    → w ≡ 0
    → IsClosed (close_worker_queue_when_idle (shut_down d)).1
unfolding close_worker_queue_when_idle shut_down
drained-IsClosed w s d inv rests = record {
  down = ground (arith, inv.work_pending, rests);
  closed = ground (arith, inv.work_pending, rests);
}

-- On a local queue that calls can reach, the drain that follows a shutdown waits while a worker
-- reservation is left, and leaves the queue and its open channel as they are; where none is left it
-- closes the channel for good: whatever calls follow, the channel stays closed and no worker work is
-- reserved, not even for a handler that still runs.
pub close_worker_queue_when_idle-exact :
    (w s : ℕ) (d : LocalQueue)
    → Reaches w s d
    → Drains w (shut_down d) (close_worker_queue_when_idle (shut_down d))
unfolding close_worker_queue_when_idle shut_down
close_worker_queue_when_idle-exact zero s d r =
    let inv = Reaches-DrainInv zero s d r in
    let closed = drained-IsClosed zero s d inv refl in
    drain_closes refl (ground (arith, inv.work_pending)) (λ cs owned.
      let later = call_all-IsClosed (close_worker_queue_when_idle (shut_down d)).1 cs closed in
      (later.closed, closed-refuses _ owned later))
close_worker_queue_when_idle-exact (suc w) s d r =
    let inv = Reaches-DrainInv (suc w) s d r in
    drain_waits (omega arith) (ground (arith, inv.work_pending)) (inv.work_open (omega arith))
