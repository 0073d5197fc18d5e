-- ===== src/History/Tests.antt =====
-- Recordings of one queue.
use queue.Prelude.{◌*◌, ℕ, String, List, [], ◌∷◌, none, some, ◌==◌, ◌≡◌, refl, arith, if◌then◌else◌}
use queue.Prelude.Int.{pos}
use queue.Prelude.Table.{Table, empty}
use queue.History.{
  QueueCounters, second, record_points, points_of, record_and_read, queue_history_hour,
}
use queue.History.Bounds.{
  IsTimeline, AreRecent, Recording, record_all, IsAscending, latest, record_all-empty-IsTimeline,
  record_points-AreRecent,
}

abbrev counted : ℕ → QueueCounters
counted n = record {
  pending = pos 0;
  active = pos 0;
  scheduled = pos 0;
  retry = pos 0;
  archived = pos 0;
  processed = pos n;
  failed = pos 0;
  paused = pos 0;
  avg_wait = pos 0;
  avg_run = pos 0;
}

abbrev snapshot_of : ℕ → Table String QueueCounters
snapshot_of n name = if name == "default" then some (counted n) else none

-- The second recording repeats the first too soon.
abbrev recordings : List Recording
recordings =
    record { now = 100 * second; snapshot = snapshot_of 5 }
    ∷ record { now = 110 * second; snapshot = snapshot_of 5 }
    ∷ record { now = 120 * second; snapshot = snapshot_of 6 }
    ∷ []

recordings_ascend : IsAscending 0 recordings
unfolding IsAscending
recordings_ascend = (omega arith, (omega arith, (omega arith, tt)))

record_all-empty-IsTimeline_example :
    IsTimeline (latest 0 recordings) (points_of (record_all empty recordings) "default")
record_all-empty-IsTimeline_example =
    record_all-empty-IsTimeline recordings "default" recordings_ascend

end_of_history : latest 0 recordings ≡ 120 * second
unfolding latest
end_of_history = refl

record_points-AreRecent_example : AreRecent (700_000 * second) (
    record_points
      (700_000 * second)
      (counted 7)
      (points_of (record_all empty recordings) "default"))
record_points-AreRecent_example =
    record_points-AreRecent recordings "default" (700_000 * second) (counted 7) recordings_ascend
      (omega (arith, end_of_history))

recordings_read :
    (record_and_read
      (record_all empty recordings)
      (snapshot_of 6)
      "default"
      queue_history_hour
      (121 * second)).0
    ≡ record { at = 100 * second; processed = pos 5; failed = pos 0 }
      ∷ record { at = 120 * second; processed = pos 6; failed = pos 0 }
      ∷ []
unfolding record_and_read record_all
recordings_read = refl
