-- ===== src/History/Bounds.antt =====
-- The points that a timeline keeps: their order, their age and their number.
use queue.Prelude.{
  sym, subst, ◌⊎◌, ℕ, zero, suc, ◌+◌, ◌-◌, ◌≤◌, ◌≡◌, refl, false, ◌||◌, String, List, [], ◌∷◌, ◌++◌,
  ◌==◌, ltb, length, All, arith, inl, inr, Bool-cases, Option-cases,
}
use queue.Prelude.Table.{Table, empty}
use queue.History.{
  QueueHistoryPoint, QueueCounters, history_timeline_retention, history_timeline_max_points,
  is_older, drop_older, drop, cap_points, entry_of, repeats, record_points, points_of,
  record_snapshot,
}

-- The points' times do not decrease, from a first time on.
IsOrdered : ℕ → List QueueHistoryPoint → Type 0
IsOrdered low [] = Unit
IsOrdered low (p ∷ ps) = (low ≤ p.at) × IsOrdered p.at ps

-- What a timeline holds for a queue after a record at `now`.
pub record IsTimeline (now : ℕ) (ps : List QueueHistoryPoint) : Type 0 where
  ordered : IsOrdered 0 ps
  present : All (λ p. p.at ≤ now) ps
  capped : length ps ≤ history_timeline_max_points

pub AreRecent : ℕ → List QueueHistoryPoint → Type 0
AreRecent now = All (λ p. is_older now history_timeline_retention p ≡ false)

IsOrdered-below :
    (low high : ℕ) (ps : List QueueHistoryPoint) → low ≤ high → IsOrdered high ps → IsOrdered low ps
unfolding IsOrdered
IsOrdered-below low high [] le h = h
IsOrdered-below low high (p ∷ ps) le (first, rest) = (omega arith, rest)

IsOrdered-append :
    (low now : ℕ) (ps : List QueueHistoryPoint) (e : QueueHistoryPoint)
    → low ≤ now
    → e.at ≡ now
    → All (λ p. p.at ≤ now) ps
    → IsOrdered low ps
    → IsOrdered low (ps ++ e ∷ [])
unfolding IsOrdered
IsOrdered-append low now [] e le same old h = (omega arith, tt)
IsOrdered-append low now (p ∷ ps) e le same (old, older) (first, rest) =
    (first, IsOrdered-append p.at now ps e old same older rest)

IsOrdered-drop_older :
    (low now : ℕ) (ps : List QueueHistoryPoint)
    → IsOrdered low ps
    → IsOrdered low (drop_older now ps)
unfolding IsOrdered drop_older
IsOrdered-drop_older low now [] h = h
IsOrdered-drop_older low now (p ∷ ps) (first, rest) =
    elim (Bool-cases (is_older now history_timeline_retention p)) [
      | inl old ↦ rw old (IsOrdered-below low p.at _ first (IsOrdered-drop_older p.at now ps rest))
      | inr new ↦ rw new (first, rest)
    ]

IsOrdered-drop :
    (n low : ℕ) (ps : List QueueHistoryPoint) → IsOrdered low ps → IsOrdered low (drop n ps)
unfolding IsOrdered drop
IsOrdered-drop zero low ps h = h
IsOrdered-drop (suc n) low [] h = h
IsOrdered-drop (suc n) low (p ∷ ps) (first, rest) =
    IsOrdered-below low p.at _ first (IsOrdered-drop n p.at ps rest)

module _ (P : QueueHistoryPoint → Type 0) where
  All-drop_older : (now : ℕ) (ps : List QueueHistoryPoint) → All P ps → All P (drop_older now ps)
  unfolding drop_older
  All-drop_older now [] h = h
  All-drop_older now (p ∷ ps) (first, rest) =
      elim (Bool-cases (is_older now history_timeline_retention p)) [
        | inl old ↦ rw old (All-drop_older now ps rest)
        | inr new ↦ rw new (first, rest)
      ]

  All-drop : (n : ℕ) (ps : List QueueHistoryPoint) → All P ps → All P (drop n ps)
  unfolding drop
  All-drop zero ps h = h
  All-drop (suc n) [] h = h
  All-drop (suc n) (p ∷ ps) (first, rest) = All-drop n ps rest

  All-append :
      (ps : List QueueHistoryPoint) (e : QueueHistoryPoint) → All P ps → P e → All P (ps ++ e ∷ [])
  All-append [] e h last = (last, tt)
  All-append (p ∷ ps) e (first, rest) last = (first, All-append ps e rest last)

All-before :
    (before now : ℕ) (ps : List QueueHistoryPoint)
    → before ≤ now
    → All (λ p. p.at ≤ before) ps
    → All (λ p. p.at ≤ now) ps
All-before before now [] le h = tt
All-before before now (p ∷ ps) le (first, rest) = (omega arith, All-before before now ps le rest)

-- After a point that is recent, all are.
AreRecent-from :
    (now low : ℕ) (ps : List QueueHistoryPoint)
    → now ≤ low + history_timeline_retention
    → IsOrdered low ps
    → AreRecent now ps
unfolding IsOrdered AreRecent is_older
AreRecent-from now low [] le h = tt
AreRecent-from now low (p ∷ ps) le (first, rest) =
    (ground (arith, le, first), AreRecent-from now p.at ps (omega (arith, le, first)) rest)

drop_older-AreRecent :
    (now low : ℕ) (ps : List QueueHistoryPoint)
    → IsOrdered low ps
    → AreRecent now (drop_older now ps)
unfolding IsOrdered AreRecent drop_older is_older
drop_older-AreRecent now low [] h = tt
drop_older-AreRecent now low (p ∷ ps) (first, rest) =
    elim (Bool-cases (ltb (p.at + history_timeline_retention) now)) [
      | inl old ↦ rw old (drop_older-AreRecent now p.at ps rest)
      | inr new ↦ rw new (new, AreRecent-from now p.at ps (ground (arith, new)) rest)
    ]

length-drop : (n : ℕ) (ps : List QueueHistoryPoint) → length (drop n ps) ≡ length ps - n
unfolding drop
length-drop zero ps = omega arith
length-drop (suc n) [] = omega arith
length-drop (suc n) (p ∷ ps) = omega (arith, length-drop n ps)

length-cap_points :
    (ps : List QueueHistoryPoint) → length (cap_points ps) ≤ history_timeline_max_points
unfolding cap_points
length-cap_points ps = elim (Bool-cases (ltb history_timeline_max_points (length ps))) [
  | inl over ↦
      rw over (ground (arith, over, length-drop (length ps - history_timeline_max_points) ps))
  | inr under ↦ ground (arith, under)
]

IsOrdered-cap_points :
    (low : ℕ) (ps : List QueueHistoryPoint) → IsOrdered low ps → IsOrdered low (cap_points ps)
unfolding cap_points
IsOrdered-cap_points low ps h = elim (Bool-cases (ltb history_timeline_max_points (length ps))) [
  | inl over ↦ rw over (IsOrdered-drop (length ps - history_timeline_max_points) low ps h)
  | inr under ↦ rw under h
]

All-cap_points :
    (P : QueueHistoryPoint → Type 0) (ps : List QueueHistoryPoint)
    → All P ps
    → All P (cap_points ps)
unfolding cap_points
All-cap_points P ps h = elim (Bool-cases (ltb history_timeline_max_points (length ps))) [
  | inl over ↦ rw over (All-drop P (length ps - history_timeline_max_points) ps h)
  | inr under ↦ rw under h
]

record_points-IsTimeline :
    (before now : ℕ) (counters : QueueCounters) (ps : List QueueHistoryPoint)
    → before ≤ now
    → IsTimeline before ps
    → IsTimeline now (record_points now counters ps) × AreRecent now (record_points now counters ps)
unfolding record_points entry_of AreRecent
record_points-IsTimeline before now counters ps le inv =
    let e = entry_of now counters in
    let old = All-before before now ps le inv.present in
    let ordered = IsOrdered-append 0 now ps e (omega arith) refl old inv.ordered in
    let kept = drop_older now (ps ++ e ∷ []) in
    (
      record {
        ordered = IsOrdered-cap_points 0 kept (IsOrdered-drop_older 0 now (ps ++ e ∷ []) ordered);
        present =
            All-cap_points _ kept
              (All-drop_older _ now (ps ++ e ∷ []) (All-append _ ps e old (omega arith)));
        capped = length-cap_points kept;
      },
      All-cap_points _ kept (drop_older-AreRecent now 0 (ps ++ e ∷ []) ordered),
    )

IsTimeline-later :
    (before now : ℕ) (ps : List QueueHistoryPoint)
    → before ≤ now
    → IsTimeline before ps
    → IsTimeline now ps
IsTimeline-later before now ps le inv = record {
  ordered = inv.ordered;
  present = All-before before now ps le inv.present;
  capped = inv.capped;
}

at_points :
    (now : ℕ) (ps qs : List QueueHistoryPoint) → ps ≡ qs → IsTimeline now qs → IsTimeline now ps
at_points now ps qs same inv = subst (IsTimeline now) (sym same) inv

-- What a record does to the points of one queue.
points_of-record_snapshot :
    (snapshot : Table String QueueCounters) (now : ℕ)
    (by_queue : Table String (List QueueHistoryPoint)) (name : String)
    → (points_of (record_snapshot snapshot now by_queue) name ≡ points_of by_queue name)
      ⊎ ((counters : QueueCounters) × (points_of (record_snapshot snapshot now by_queue) name
            ≡ record_points now counters (points_of by_queue name)))
unfolding points_of record_snapshot
points_of-record_snapshot snapshot now by_queue name = elim (Option-cases (snapshot name)) [
  | inl absent ↦ inl (ground (arith, absent))
  | inr (counters, there) ↦
      elim (Bool-cases (name == "" || repeats now counters (points_of by_queue name))) [
        | inl skipped ↦ inl (ground (arith, there, skipped))
        | inr taken ↦ inr (counters, ground (arith, there, taken))
      ]
]

record_snapshot-IsTimeline :
    (before now : ℕ) (snapshot : Table String QueueCounters)
    (by_queue : Table String (List QueueHistoryPoint)) (name : String)
    → before ≤ now
    → IsTimeline before (points_of by_queue name)
    → IsTimeline now (points_of (record_snapshot snapshot now by_queue) name)
record_snapshot-IsTimeline before now snapshot by_queue name le inv =
    elim (points_of-record_snapshot snapshot now by_queue name) [
      | inl same ↦ at_points now _ _ same (IsTimeline-later before now _ le inv)
      | inr (counters, new) ↦
          at_points now _ _ new (record_points-IsTimeline before now counters _ le inv).0
    ]

-- A call of `recordAndRead` as far as it records.
pub record Recording : Type 0 where
  pub now : ℕ
  pub snapshot : Table String QueueCounters

unfoldable pub record_all :
    Table String (List QueueHistoryPoint) → List Recording → Table String (List QueueHistoryPoint)
unfolding record_snapshot
record_all by_queue [] = by_queue
record_all by_queue (r ∷ rs) = record_all (record_snapshot r.snapshot r.now by_queue) rs

-- The clock does not go back between the recordings.
unfoldable pub IsAscending : ℕ → List Recording → Type 0
IsAscending low [] = Unit
IsAscending low (r ∷ rs) = (low ≤ r.now) × IsAscending r.now rs

unfoldable pub latest : ℕ → List Recording → ℕ
latest low [] = low
latest low (r ∷ rs) = latest r.now rs

record_all-IsTimeline :
    (rs : List Recording) (low : ℕ) (by_queue : Table String (List QueueHistoryPoint))
    (name : String)
    → IsAscending low rs
    → IsTimeline low (points_of by_queue name)
    → IsTimeline (latest low rs) (points_of (record_all by_queue rs) name)
unfolding record_all IsAscending latest
record_all-IsTimeline [] low by_queue name ascending inv = inv
record_all-IsTimeline (r ∷ rs) low by_queue name (le, ascending) inv =
    record_all-IsTimeline rs r.now (record_snapshot r.snapshot r.now by_queue) name ascending
      (record_snapshot-IsTimeline low r.now r.snapshot by_queue name le inv)

-- After any recordings on an empty timeline whose clock does not go back, the points of every queue
-- stand in the order of their times, none of them after the last recording, and are at most 30,000.
pub record_all-empty-IsTimeline :
    (rs : List Recording) (name : String)
    → IsAscending 0 rs
    → IsTimeline (latest 0 rs) (points_of (record_all empty rs) name)
unfolding points_of IsOrdered
record_all-empty-IsTimeline rs name ascending =
    record_all-IsTimeline rs 0 empty name ascending
      (record { ordered = tt; present = tt; capped = omega arith })

-- One more recording, not before the last, that adds a point to a queue, leaves the queue only points
-- within the retention.
pub record_points-AreRecent :
    (rs : List Recording) (name : String) (now : ℕ) (counters : QueueCounters)
    → IsAscending 0 rs
    → latest 0 rs ≤ now
    → AreRecent now (record_points now counters (points_of (record_all empty rs) name))
record_points-AreRecent rs name now counters ascending le =
    (record_points-IsTimeline (latest 0 rs) now counters _ le
      (record_all-empty-IsTimeline rs name ascending)).1
