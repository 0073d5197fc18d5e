-- ===== src/History.antt =====
-- `historyTimeline` of history_timeline.go. The retention is taken from the present by adding it to
-- the point's time instead, so that no time is below zero.
pub mod Bounds
mod Tests
use queue.Prelude.{
  ℕ, zero, suc, ◌+◌, ◌-◌, ◌*◌, Bool, true, false, ◌&&◌, ◌||◌, String, List, [], ◌∷◌, ◌++◌, Option,
  none, some, ◌==◌, eqb, ltb, length, if◌then◌else◌,
}
use queue.Prelude.Int.{ℤ, eqb_ℤ}
use queue.Prelude.Table.{Table, empty}

pub record QueueHistoryPoint : Type 0 where
  pub at : ℕ
  pub processed : ℤ
  pub failed : ℤ

pub record QueueCounters : Type 0 where
  pub pending : ℤ
  pub active : ℤ
  pub scheduled : ℤ
  pub retry : ℤ
  pub archived : ℤ
  pub processed : ℤ
  pub failed : ℤ
  pub paused : ℤ
  pub avg_wait : ℤ
  pub avg_run : ℤ

-- The three windows by their durations in nanoseconds; any other text counts as an hour.
pub data QueueHistoryWindow : Type 0 where
  queue_history_hour : QueueHistoryWindow
  queue_history_day : QueueHistoryWindow
  queue_history_week : QueueHistoryWindow
  other : String → QueueHistoryWindow

abbrev pub second : ℕ
second = 1_000_000_000

abbrev pub history_timeline_retention : ℕ
history_timeline_retention = 691_200 * second

abbrev pub history_timeline_max_points : ℕ
history_timeline_max_points = 30_000

abbrev pub history_timeline_min_interval : ℕ
history_timeline_min_interval = 30 * second

unfoldable pub timeline_duration : QueueHistoryWindow → ℕ
timeline_duration queue_history_week = 604_800 * second
timeline_duration queue_history_day = 86_400 * second
timeline_duration queue_history_hour = 3_600 * second
timeline_duration (other text) = 3_600 * second

-- `at.Before(now.Add(-age))`
unfoldable pub is_older : ℕ → ℕ → QueueHistoryPoint → Bool
is_older now age point = ltb (point.at + age) now

-- The last element of a slice, if it has one.
unfoldable pub last_point : List QueueHistoryPoint → Option QueueHistoryPoint
last_point [] = none
last_point (p ∷ []) = some p
last_point (p ∷ q ∷ ps) = last_point (q ∷ ps)

-- The loop that moves `start`, and the slice from there.
unfoldable pub drop_older : ℕ → List QueueHistoryPoint → List QueueHistoryPoint
unfolding is_older
drop_older now [] = []
drop_older now (p ∷ ps) =
    let rest = drop_older now ps in
    if is_older now history_timeline_retention p then rest else p ∷ ps

-- `points[n:]`
unfoldable pub drop : ℕ → List QueueHistoryPoint → List QueueHistoryPoint
drop zero ps = ps
drop (suc n) [] = []
drop (suc n) (p ∷ ps) = drop n ps

unfoldable pub cap_points : List QueueHistoryPoint → List QueueHistoryPoint
unfolding drop
cap_points ps =
    if ltb history_timeline_max_points (length ps)
    then drop (length ps - history_timeline_max_points) ps
    else ps

unfoldable pub entry_of : ℕ → QueueCounters → QueueHistoryPoint
entry_of now counters = record {
  at = now;
  processed = counters.processed;
  failed = counters.failed;
}

-- The test of an entry that repeats the last point too soon; `now.Sub(last.At)` can be negative.
unfoldable pub repeats : ℕ → QueueCounters → List QueueHistoryPoint → Bool
unfolding last_point
repeats now counters points = elim (last_point points) [
  | none ↦ false
  | some last ↦
      eqb_ℤ last.processed counters.processed
      && eqb_ℤ last.failed counters.failed
      && ltb now (last.at + history_timeline_min_interval)
]

-- A queue's points with one more: those that are too old go, then those beyond the cap.
unfoldable pub record_points : ℕ → QueueCounters → List QueueHistoryPoint → List QueueHistoryPoint
unfolding entry_of drop_older cap_points
record_points now counters points =
    cap_points (drop_older now (points ++ entry_of now counters ∷ []))

-- `byQueue`; an absent entry reads as no points.
unfoldable pub points_of : Table String (List QueueHistoryPoint) → String → List QueueHistoryPoint
points_of by_queue name = elim (by_queue name) [ none ↦ [] | some points ↦ points ]

-- The loop over the snapshot visits each queue once.
unfoldable pub record_snapshot :
    Table String QueueCounters
    → ℕ
    → Table String (List QueueHistoryPoint)
    → Table String (List QueueHistoryPoint)
unfolding record_points repeats points_of
record_snapshot snapshot now by_queue name = elim (snapshot name) [
  | none ↦ by_queue name
  | some counters ↦
      if name == "" || repeats now counters (points_of by_queue name)
      then by_queue name
      else some (record_points now counters (points_of by_queue name))
]

-- The points that are not before the window's cutoff.
unfoldable pub in_window : ℕ → ℕ → List QueueHistoryPoint → List QueueHistoryPoint
unfolding is_older
in_window now age [] = []
in_window now age (p ∷ ps) =
    let rest = in_window now age ps in if is_older now age p then rest else p ∷ rest

-- `recordAndRead` on a timeline that is not nil, for a present that is not the zero time.
unfoldable pub record_and_read :
    Table String (List QueueHistoryPoint)
    → Table String QueueCounters
    → String
    → QueueHistoryWindow
    → ℕ
    → List QueueHistoryPoint × Table String (List QueueHistoryPoint)
unfolding record_snapshot points_of in_window timeline_duration
record_and_read by_queue snapshot queue_name window now =
    let recorded = record_snapshot snapshot now by_queue in
    (
      if queue_name == ""
          then []
          else in_window now (timeline_duration window) (points_of recorded queue_name),
      recorded,
    )
