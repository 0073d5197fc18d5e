-- ===== src/Local/Queue/Drain.antt =====
-- Reservations of the local queue: what a drain waits for.
use queue.Prelude.{
  ◌⊎◌, subst, sym, ◌∙◌, ap, ℕ, zero, suc, ◌<◌, ◌≡◌, refl, Bool, true, false, ◌&&◌, ◌||◌, not, none,
  some, arith, inl, inr, Bool-cases,
}
use queue.Prelude.Int.{leb_ℤ, ℤ, pos}
use queue.Local.Queue.{
  Driver, driver_sync, driver_workerpool, Error, queuer_shutting_down,
  workerpool_queue_not_initialized, LocalQueue, new_local_queue, reserve_worker_queue, reserve_open,
  start_memory_workers_locked, finish_queued_work, reserve_sync_work, finish_sync_work,
  close_worker_queue_when_idle, shut_down, start_workers, set_workers,
}

-- The queues that calls can reach, with the numbers of worker and sync reservations that are not
-- finished. Only the holder of a reservation finishes it.
pub data Reaches : ℕ → ℕ → LocalQueue → Type 0 where
  created :
      (driver : Driver) (workers capacity : ℤ) (resize : Bool)
      → Reaches 0 0 (new_local_queue driver workers capacity resize)
  work_reserved :
      {w s : ℕ} {d : LocalQueue}
      → Reaches w s d
      → (owned : Bool) → (reserve_worker_queue d owned).0 ≡ none
      → Reaches (suc w) s (reserve_worker_queue d owned).1
  work_refused :
      {w s : ℕ} {d : LocalQueue}
      → Reaches w s d
      → (owned : Bool) (e : Error) → (reserve_worker_queue d owned).0 ≡ some e
      → Reaches w s (reserve_worker_queue d owned).1
  work_finished :
      {w s : ℕ} {d : LocalQueue} → Reaches (suc w) s d → Reaches w s (finish_queued_work d)
  sync_reserved :
      {w s : ℕ} {d : LocalQueue}
      → Reaches w s d
      → (owned : Bool) → (reserve_sync_work d owned).0 ≡ none
      → Reaches w (suc s) (reserve_sync_work d owned).1
  sync_refused :
      {w s : ℕ} {d : LocalQueue}
      → Reaches w s d
      → (owned : Bool) (e : Error) → (reserve_sync_work d owned).0 ≡ some e
      → Reaches w s (reserve_sync_work d owned).1
  sync_finished :
      {w s : ℕ} {d : LocalQueue} → Reaches w (suc s) d → Reaches w s (finish_sync_work d)
  close_tried :
      {w s : ℕ} {d : LocalQueue} → Reaches w s d → Reaches w s (close_worker_queue_when_idle d).1
  shutdown_begun : {w s : ℕ} {d : LocalQueue} → Reaches w s d → Reaches w s (shut_down d)
  started : {w s : ℕ} {d : LocalQueue} → Reaches w s d → Reaches w s (start_workers d)
  configured :
      {w s : ℕ} {d : LocalQueue} → Reaches w s d → (count : ℤ) → Reaches w s (set_workers d count)

-- The counters are the reservations, a reservation keeps the channel open, and whoever waits while
-- there are reservations waits on a channel that the last of them closes.
pub record DrainInv (w s : ℕ) (d : LocalQueue) : Type 0 where
  pub work_pending : d.work_pending ≡ pos w
  sync_pending : d.sync_work_pending ≡ pos s
  pub work_open : 0 < w → d.work_open ≡ true
  work_idle : 0 < w → d.work_idle ≡ some false
  work_rests : w ≡ 0 → d.work_idle ≡ none
  sync_idle : 0 < s → d.sync_work_idle ≡ some false

start-DrainInv :
    (w s : ℕ) (d : LocalQueue) → DrainInv w s d → DrainInv w s (start_memory_workers_locked d)
unfolding start_memory_workers_locked
start-DrainInv w s d inv = elim (Bool-cases (d.work_open || d.shutting_down)) [
  | inl stays ↦ rw stays inv
  | inr starts ↦ rw starts (record {
    work_pending = inv.work_pending;
    sync_pending = inv.sync_pending;
    work_open = λ h. refl;
    work_idle = inv.work_idle;
    work_rests = inv.work_rests;
    sync_idle = inv.sync_idle;
  })
]

-- A reservation of worker work that is given.
reserve_open-idle :
    (w s : ℕ) (d : LocalQueue)
    → DrainInv w s d
    → d.work_open ≡ true
    → (reserve_open d).1.work_idle ≡ some false
unfolding reserve_open
reserve_open-idle zero s d inv opened = ground (arith, opened, inv.work_pending)
reserve_open-idle (suc w) s d inv opened =
    ground (arith, opened, inv.work_pending, inv.work_idle (omega arith))

reserve_open-DrainInv :
    (w s : ℕ) (d : LocalQueue)
    → DrainInv w s d
    → (reserve_open d).0 ≡ none
    → DrainInv (suc w) s (reserve_open d).1
unfolding reserve_open
reserve_open-DrainInv w s d inv h = elim (Bool-cases d.work_open) [
  | inr closed ↦ absurd (ground (arith, closed, h))
  | inl opened ↦ record {
    work_pending = ground (arith, opened, inv.work_pending);
    sync_pending = ground (arith, opened, inv.sync_pending);
    work_open = λ p. ground (arith, opened);
    work_idle = λ p. reserve_open-idle w s d inv opened;
    work_rests = λ p. absurd (omega (arith, p));
    sync_idle = λ p. ground (arith, opened, inv.sync_idle p);
  }
]

-- A call of `reserveWorkerQueue` that fails leaves the queue, and any other is a reservation of the
-- queue with its workers started.
reserve_cases :
    (d : LocalQueue) (owned : Bool)
    → ((e : Error) × (reserve_worker_queue d owned ≡ (some e, d)))
      ⊎ (reserve_worker_queue d owned ≡ reserve_open (start_memory_workers_locked d))
unfolding reserve_worker_queue start_memory_workers_locked
reserve_cases d owned = elim (Bool-cases d.shutting_down) [
  | inr up ↦ elim (Bool-cases d.work_open) [
    | inl opened ↦ inr (ground (arith, up, opened))
    | inr closed ↦ inr (ground (arith, up, closed))
  ]
  | inl down ↦ elim (Bool-cases owned) [
    | inr outside ↦ inl (queuer_shutting_down, ground (arith, down, outside))
    | inl inside ↦ elim (Bool-cases d.work_open) [
      | inl opened ↦ inr (ground (arith, down, inside, opened))
      | inr closed ↦ inl (workerpool_queue_not_initialized, ground (arith, down, inside, closed))
    ]
  ]
]

refused_open : (d : LocalQueue) (e : Error) → (reserve_open d).0 ≡ some e → (reserve_open d).1 ≡ d
unfolding reserve_open
refused_open d e h = elim (Bool-cases d.work_open) [
  | inl opened ↦ absurd (ground (arith, opened, h))
  | inr closed ↦ ground (arith, closed)
]

at_queue : (w s : ℕ) (d e : LocalQueue) → d ≡ e → DrainInv w s e → DrainInv w s d
at_queue w s d e same inv = subst (DrainInv w s) (sym same) inv

reserve_worker_queue-DrainInv :
    (w s : ℕ) (d : LocalQueue) (owned : Bool)
    → DrainInv w s d
    → (reserve_worker_queue d owned).0 ≡ none
    → DrainInv (suc w) s (reserve_worker_queue d owned).1
reserve_worker_queue-DrainInv w s d owned inv h = elim (reserve_cases d owned) [
  | inl (e, fails) ↦ absurd (ground (arith, fails, h))
  | inr same ↦ at_queue (suc w) s _ _ (ap (λ r. r.1) same) (
      reserve_open-DrainInv w s (start_memory_workers_locked d) (start-DrainInv w s d inv)
        (sym (ap (λ r. r.0) same) ∙ h))
]

refused-DrainInv :
    (w s : ℕ) (d : LocalQueue) (owned : Bool) (e : Error)
    → DrainInv w s d
    → (reserve_worker_queue d owned).0 ≡ some e
    → DrainInv w s (reserve_worker_queue d owned).1
refused-DrainInv w s d owned e inv h = elim (reserve_cases d owned) [
  | inl (e', fails) ↦ at_queue w s _ _ (ap (λ r. r.1) fails) inv
  | inr same ↦
      at_queue w s _ _
        (ap (λ r. r.1) same
          ∙ refused_open (start_memory_workers_locked d) e (sym (ap (λ r. r.0) same) ∙ h))
        (start-DrainInv w s d inv)
]

finish-DrainInv :
    (w s : ℕ) (d : LocalQueue) → DrainInv (suc w) s d → DrainInv w s (finish_queued_work d)
unfolding finish_queued_work
finish-DrainInv zero s d inv = record {
  work_pending = ground (arith, inv.work_pending);
  sync_pending = inv.sync_pending;
  work_open = λ p. absurd (omega (arith, p));
  work_idle = λ p. absurd (omega (arith, p));
  work_rests = λ p. ground (arith, inv.work_pending);
  sync_idle = inv.sync_idle;
}
finish-DrainInv (suc w) s d inv = record {
  work_pending = ground (arith, inv.work_pending);
  sync_pending = inv.sync_pending;
  work_open = λ p. inv.work_open (omega arith);
  work_idle = λ p. ground (arith, inv.work_pending, inv.work_idle (omega arith));
  work_rests = λ p. absurd (omega (arith, p));
  sync_idle = inv.sync_idle;
}

sync_reserve_idle :
    (w s : ℕ) (d : LocalQueue) (owned : Bool)
    → DrainInv w s d
    → (reserve_sync_work d owned).0 ≡ none
    → (reserve_sync_work d owned).1.sync_work_idle ≡ some false
unfolding reserve_sync_work
sync_reserve_idle w zero d owned inv h = elim (Bool-cases (d.shutting_down && not owned)) [
  | inl refused ↦ absurd (ground (arith, refused, h))
  | inr given ↦ ground (arith, given, inv.sync_pending)
]
sync_reserve_idle w (suc s) d owned inv h = elim (Bool-cases (d.shutting_down && not owned)) [
  | inl refused ↦ absurd (ground (arith, refused, h))
  | inr given ↦ ground (arith, given, inv.sync_pending, inv.sync_idle (omega arith))
]

sync_reserve-DrainInv :
    (w s : ℕ) (d : LocalQueue) (owned : Bool)
    → DrainInv w s d
    → (reserve_sync_work d owned).0 ≡ none
    → DrainInv w (suc s) (reserve_sync_work d owned).1
unfolding reserve_sync_work
sync_reserve-DrainInv w s d owned inv h = elim (Bool-cases (d.shutting_down && not owned)) [
  | inl refused ↦ absurd (ground (arith, refused, h))
  | inr given ↦ record {
    work_pending = ground (arith, given, inv.work_pending);
    sync_pending = ground (arith, given, inv.sync_pending);
    work_open = λ p. ground (arith, given, inv.work_open p);
    work_idle = λ p. ground (arith, given, inv.work_idle p);
    work_rests = λ p. ground (arith, given, inv.work_rests p);
    sync_idle = λ p. sync_reserve_idle w s d owned inv h;
  }
]

sync_refused-DrainInv :
    (w s : ℕ) (d : LocalQueue) (owned : Bool) (e : Error)
    → DrainInv w s d
    → (reserve_sync_work d owned).0 ≡ some e
    → DrainInv w s (reserve_sync_work d owned).1
unfolding reserve_sync_work
sync_refused-DrainInv w s d owned e inv h = elim (Bool-cases (d.shutting_down && not owned)) [
  | inl refused ↦ at_queue w s _ d (ground (arith, refused)) inv
  | inr given ↦ absurd (ground (arith, given, h))
]

sync_finish-DrainInv :
    (w s : ℕ) (d : LocalQueue) → DrainInv w (suc s) d → DrainInv w s (finish_sync_work d)
unfolding finish_sync_work
sync_finish-DrainInv w zero d inv = record {
  work_pending = inv.work_pending;
  sync_pending = ground (arith, inv.sync_pending);
  work_open = inv.work_open;
  work_idle = inv.work_idle;
  work_rests = inv.work_rests;
  sync_idle = λ p. absurd (omega (arith, p));
}
sync_finish-DrainInv w (suc s) d inv = record {
  work_pending = inv.work_pending;
  sync_pending = ground (arith, inv.sync_pending);
  work_open = inv.work_open;
  work_idle = inv.work_idle;
  work_rests = inv.work_rests;
  sync_idle = λ p. ground (arith, inv.sync_pending, inv.sync_idle (omega arith));
}

close-DrainInv :
    (w s : ℕ) (d : LocalQueue) → DrainInv w s d → DrainInv w s (close_worker_queue_when_idle d).1
unfolding close_worker_queue_when_idle
close-DrainInv zero s d inv = record {
  work_pending = ground (arith, inv.work_pending);
  sync_pending = ground (arith, inv.work_pending, inv.sync_pending);
  work_open = λ p. absurd (omega (arith, p));
  work_idle = λ p. absurd (omega (arith, p));
  work_rests = λ p. ground (arith, inv.work_pending, inv.work_rests refl);
  sync_idle = λ p. ground (arith, inv.work_pending, inv.sync_idle p);
}
close-DrainInv (suc w) s d inv = at_queue (suc w) s _ d (ground (arith, inv.work_pending)) inv

set_workers-DrainInv :
    (w s : ℕ) (d : LocalQueue) (count : ℤ) → DrainInv w s d → DrainInv w s (set_workers d count)
unfolding set_workers
set_workers-DrainInv w s d count inv = elim (Bool-cases (leb_ℤ count (pos 0))) [
  | inl bad ↦ at_queue w s _ d (ground (arith, bad)) inv
  | inr good ↦ elim (Bool-cases (d.work_open || d.shutting_down)) [
    | inl late ↦ at_queue w s _ d (ground (arith, good, late)) inv
    | inr early ↦ record {
      work_pending = ground (arith, good, early, inv.work_pending);
      sync_pending = ground (arith, good, early, inv.sync_pending);
      work_open = λ p. ground (arith, good, early, inv.work_open p);
      work_idle = λ p. ground (arith, good, early, inv.work_idle p);
      work_rests = λ p. ground (arith, good, early, inv.work_rests p);
      sync_idle = λ p. ground (arith, good, early, inv.sync_idle p);
    }
  ]
]

start_workers-DrainInv :
    (w s : ℕ) (d : LocalQueue) (driver : Driver)
    → d.driver ≡ driver
    → DrainInv w s d
    → DrainInv w s (start_workers d)
unfolding start_workers
start_workers-DrainInv w s d driver_sync is inv = at_queue w s _ d (ground (arith, is)) inv
start_workers-DrainInv w s d driver_workerpool is inv =
    at_queue w s _ (start_memory_workers_locked d) (ground (arith, is)) (start-DrainInv w s d inv)

-- On every queue that calls can reach, the two counters are the numbers of reservations that are not
-- finished; while a worker reservation is not finished the work channel stays open; and a channel of
-- idleness is there and open exactly as long as worker reservations are not finished, and is open as
-- long as sync reservations are not finished.
pub Reaches-DrainInv : (w s : ℕ) (d : LocalQueue) → Reaches w s d → DrainInv w s d
unfolding shut_down
Reaches-DrainInv w s d (created driver workers capacity resize) = record {
  work_pending = refl;
  sync_pending = refl;
  work_open = λ p. absurd (omega (arith, p));
  work_idle = λ p. absurd (omega (arith, p));
  work_rests = λ p. refl;
  sync_idle = λ p. absurd (omega (arith, p));
}
Reaches-DrainInv _ s _ (work_reserved {w = w} {d = d} r owned h) =
    reserve_worker_queue-DrainInv w s d owned (Reaches-DrainInv w s d r) h
Reaches-DrainInv w s _ (work_refused {d = d} r owned e h) =
    refused-DrainInv w s d owned e (Reaches-DrainInv w s d r) h
Reaches-DrainInv w s _ (work_finished {d = d} r) =
    finish-DrainInv w s d (Reaches-DrainInv (suc w) s d r)
Reaches-DrainInv w _ _ (sync_reserved {s = s} {d = d} r owned h) =
    sync_reserve-DrainInv w s d owned (Reaches-DrainInv w s d r) h
Reaches-DrainInv w s _ (sync_refused {d = d} r owned e h) =
    sync_refused-DrainInv w s d owned e (Reaches-DrainInv w s d r) h
Reaches-DrainInv w s _ (sync_finished {d = d} r) =
    sync_finish-DrainInv w s d (Reaches-DrainInv w (suc s) d r)
Reaches-DrainInv w s _ (close_tried {d = d} r) = close-DrainInv w s d (Reaches-DrainInv w s d r)
Reaches-DrainInv w s _ (shutdown_begun {d = d} r) =
    let inv = Reaches-DrainInv w s d r in
    record {
      work_pending = inv.work_pending;
      sync_pending = inv.sync_pending;
      work_open = inv.work_open;
      work_idle = inv.work_idle;
      work_rests = inv.work_rests;
      sync_idle = inv.sync_idle;
    }
Reaches-DrainInv w s _ (started {d = d} r) =
    start_workers-DrainInv w s d d.driver refl (Reaches-DrainInv w s d r)
Reaches-DrainInv w s _ (configured {d = d} r count) =
    set_workers-DrainInv w s d count (Reaches-DrainInv w s d r)
