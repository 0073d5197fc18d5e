-- ===== src/Local/Queue.antt =====
-- The state of `localQueue` in queue_local.go, less its goroutines: registration, pausing, the counters
-- of each queue, and the reservations that a shutdown waits for. A context counts as owned or not
-- (busruntime's `Owns`). `work_open` says that the work channel exists, and a channel of idleness is a
-- generation with a flag that it is closed.
pub mod Drain
pub mod Closed
use queue.Prelude.{
  ℕ, zero, suc, ◌+◌, ◌-◌, Bool, true, false, ◌&&◌, ◌||◌, not, String, Option, none, some, ◌==◌,
  Result, ok, err, if◌then◌else◌, eqb, ltb,
}
use queue.Prelude.Int.{ℤ, pos, leb_ℤ, eqb_ℤ, ltb_ℤ, suc_ℤ, pred_ℤ}
use queue.Prelude.Table.{Table, empty, update, remove}
use queue.Prelude.Equality.{string_eq}

pub data Driver : Type 0 where
  driver_sync : Driver
  driver_workerpool : Driver

pub data Error : Type 0 where
  queuer_shutting_down : Error
  workerpool_queue_not_initialized : Error
  queue_paused : Error
  no_handler : String → Error

pub record LocalQueueMetrics : Type 0 where
  pub pending : ℤ
  pub active : ℤ
  pub processed : ℤ
  pub failed : ℤ
  pub delayed : ℤ

-- The sync and the worker fields of `localQueue` that its mutexes guard.
pub record LocalQueue : Type 0 where
  pub driver : Driver
  pub workers : ℤ
  pub queue_capacity : ℤ
  pub resize_buffer : Bool
  pub handlers : Table String ℕ
  pub metrics : Table String LocalQueueMetrics
  pub paused_queues : Table String Bool
  pub work_open : Bool
  pub work_pending : ℤ
  pub work_idle : Option Bool
  pub sync_work_pending : ℤ
  pub sync_work_idle : Option Bool
  pub shutting_down : Bool

unfoldable pub normalize_queue_name : String → String
normalize_queue_name name = if name == "" then "default" else name

-- `Register`; a nil handler is `none`.
unfoldable pub register : LocalQueue → String → Option ℕ → LocalQueue
register d job_type none = d
register d job_type (some handler) =
    if job_type == "" then d else record d { handlers = update d.handlers job_type handler }

unfoldable pub pause : LocalQueue → String → LocalQueue
unfolding normalize_queue_name
pause d name = record d { paused_queues = update d.paused_queues (normalize_queue_name name) true }

unfoldable pub resume : LocalQueue → String → LocalQueue
unfolding normalize_queue_name
resume d name = record d { paused_queues = remove d.paused_queues (normalize_queue_name name) }

unfoldable pub is_paused : LocalQueue → String → Bool
unfolding normalize_queue_name
is_paused d name = elim (d.paused_queues (normalize_queue_name name)) [
  | none ↦ false
  | some paused ↦ paused
]

-- `validateEnqueue`
unfoldable pub validate_enqueue : LocalQueue → String → String → Option Error
unfolding is_paused
validate_enqueue d job_type queue_name =
    if is_paused d queue_name
    then some queue_paused
    else elim (d.handlers job_type) [ none ↦ some (no_handler job_type) | some handler ↦ none ]

-- `startMemoryWorkersLocked`
unfoldable pub start_memory_workers_locked : LocalQueue → LocalQueue
start_memory_workers_locked d =
    if d.work_open || d.shutting_down then d else record d { work_open = true }

unfoldable pub start_workers : LocalQueue → LocalQueue
unfolding start_memory_workers_locked
start_workers d = elim d.driver [
  | driver_sync ↦ d
  | driver_workerpool ↦ start_memory_workers_locked d
]

unfoldable pub set_workers : LocalQueue → ℤ → LocalQueue
set_workers d count =
    if leb_ℤ count (pos 0) then d else if d.work_open || d.shutting_down then d else record d {
      workers = count;
      queue_capacity = if d.resize_buffer then count else d.queue_capacity;
    }

unfoldable pub reserve_open : LocalQueue → Option Error × LocalQueue
reserve_open d = if not d.work_open then (some workerpool_queue_not_initialized, d) else (
  none,
  record d {
    work_pending = suc_ℤ d.work_pending;
    work_idle = if eqb_ℤ d.work_pending (pos 0) then some false else d.work_idle;
  },
)

-- `reserveWorkerQueue`
unfoldable pub reserve_worker_queue : LocalQueue → Bool → Option Error × LocalQueue
unfolding start_memory_workers_locked reserve_open
reserve_worker_queue d owned =
    if d.shutting_down && not owned
    then (some queuer_shutting_down, d)
    else if not d.work_open
    then (if d.shutting_down
        then (some workerpool_queue_not_initialized, d)
        else reserve_open (start_memory_workers_locked d))
    else reserve_open d

-- `finishQueuedWork`; closing the channel is told to its waiters, and the field is nil afterwards.
unfoldable pub finish_queued_work : LocalQueue → LocalQueue
finish_queued_work d =
    let pending = pred_ℤ d.work_pending in
    record d {
      work_pending = pending;
      work_idle = if eqb_ℤ pending (pos 0) then none else d.work_idle;
    }

-- `reserveSyncWork`
unfoldable pub reserve_sync_work : LocalQueue → Bool → Option Error × LocalQueue
reserve_sync_work d owned =
    if d.shutting_down && not owned then (some queuer_shutting_down, d) else (
      none,
      record d {
        sync_work_pending = suc_ℤ d.sync_work_pending;
        sync_work_idle = if eqb_ℤ d.sync_work_pending (pos 0) then some false else d.sync_work_idle;
      },
    )

-- `finishSyncWork` closes the channel and keeps it.
unfoldable pub finish_sync_work : LocalQueue → LocalQueue
finish_sync_work d =
    let pending = pred_ℤ d.sync_work_pending in
    record d {
      sync_work_pending = pending;
      sync_work_idle =
          if eqb_ℤ pending (pos 0)
          then elim d.sync_work_idle [ none ↦ none | some closed ↦ some true ]
          else d.sync_work_idle;
    }

-- One pass of the loop of `closeWorkerQueueWhenIdle`: true where it returns nil.
unfoldable pub close_worker_queue_when_idle : LocalQueue → Bool × LocalQueue
close_worker_queue_when_idle d =
    if eqb_ℤ d.work_pending (pos 0) then (true, record d { work_open = false }) else (false, d)

-- What `shutdownOnce` does.
unfoldable pub shut_down : LocalQueue → LocalQueue
shut_down d = record d { shutting_down = true }

-- `newLocalQueueWithConfig` for a normalized configuration.
abbrev pub new_local_queue : Driver → ℤ → ℤ → Bool → LocalQueue
new_local_queue driver workers capacity resize = record {
  driver = driver;
  workers = workers;
  queue_capacity = capacity;
  resize_buffer = resize;
  handlers = empty;
  metrics = empty;
  paused_queues = empty;
  work_open = false;
  work_pending = pos 0;
  work_idle = none;
  sync_work_pending = pos 0;
  sync_work_idle = none;
  shutting_down = false;
}
