-- ===== src/Timeline/Retained.antt =====
-- How many events the ring holds, by the calls that led to it.
use dui.Base.{
  length-set, ℕ, ◌+◌, ◌-◌, ◌<◌, min, ◌≡◌, ◌∙◌, inl, inr, List, arith, ltb, Bool-cases, u64_max,
  length, length-replicate,
}
use dui.Timeline.{
  blank, TimelineEvent, TimelineOutcome, Recorder, capacity, finish, begin, next_frame_id,
  next_flow_id, clear,
}
use dui.Timeline.Held.{Holds}
use dui.Timeline.Ring.{finish_room, finish_full}
use dui.Timeline.Records.{Records, starts, begins, frames, flows, finishes, clears, Records-Holds}

-- The size that the recorder was made with.
abbrev pub size : (s : Recorder) (log : List TimelineEvent) → Records s log → ℕ
size _ _ (starts n token pos) = n
size _ _ (begins s log lane phase parent frame_id flow_id pass work_count now r) = size s log r
size _ _ (frames s log r) = size s log r
size _ _ (flows s log r) = size s log r
size _ _ (finishes s log event outcome now r below) = size s log r
size _ _ (clears s log r) = size s log r

-- How many events finished since the last clear.
abbrev pub recent : (s : Recorder) (log : List TimelineEvent) → Records s log → ℕ
recent _ _ (starts n token pos) = 0
recent _ _ (begins s log lane phase parent frame_id flow_id pass work_count now r) = recent s log r
recent _ _ (frames s log r) = recent s log r
recent _ _ (flows s log r) = recent s log r
recent _ _ (finishes s log event outcome now r below) = recent s log r + 1
recent _ _ (clears s log r) = 0

-- The position of the oldest event that a ring of the size holds, without those before a clear.
abbrev pub first_held : (s : Recorder) (log : List TimelineEvent) → Records s log → ℕ
first_held s log r = length log + 1 - min (size s log r) (recent s log r)

-- What a ring of `n` holds when `k` events finished since it was last empty.
abbrev IsFilled : Recorder → ℕ → ℕ → Type 0
IsFilled s n k = (capacity s ≡ n) × (s.event_count ≡ min n k)

finish-IsFilled :
    (event : TimelineEvent) (outcome : TimelineOutcome) (now : ℕ) (s : Recorder)
    (log : List TimelineEvent) (n k : ℕ)
    → Holds s log
    → s.next_completion_position < u64_max
    → IsFilled s n k
    → IsFilled (finish event outcome now s) n (k + 1)
finish-IsFilled event outcome now s log n k h below f =
    elim (Bool-cases (ltb s.event_count (capacity s))) [
      | inl room ↦
          let lt : s.event_count < capacity s = ground (arith, room) in
          rw (finish_room event outcome now s below lt)
            (length-set s.events _ _ ∙ f.0, omega (arith, lt, f))
      | inr none_left ↦
          let full : s.event_count ≡ capacity s = ground (arith, none_left, h.bounded) in
          rw (finish_full event outcome now s below full h.floors)
            (length-set s.events _ _ ∙ f.0, omega (arith, full, f))
    ]

Records-IsFilled :
    (s : Recorder) (log : List TimelineEvent) (r : Records s log)
    → IsFilled s (size s log r) (recent s log r)
unfolding begin next_frame_id next_flow_id clear
Records-IsFilled _ _ (starts n token pos) = (length-replicate n blank, omega arith)
Records-IsFilled _ _ (begins s log lane phase parent frame_id flow_id pass work_count now r) =
    Records-IsFilled s log r
Records-IsFilled _ _ (frames s log r) = Records-IsFilled s log r
Records-IsFilled _ _ (flows s log r) = Records-IsFilled s log r
Records-IsFilled _ _ (finishes s log event outcome now r below) =
    finish-IsFilled event outcome now s log _ _ (Records-Holds s log r) below
      (Records-IsFilled s log r)
Records-IsFilled _ _ (clears s log r) = ((Records-IsFilled s log r).0, omega arith)

-- The recorder's own floor is there.
pub floor_lem :
    (s : Recorder) (log : List TimelineEvent) (r : Records s log)
    → s.retention_floor ≡ first_held s log r
floor_lem s log r =
    let h = Records-Holds s log r in omega (arith, (Records-IsFilled s log r).1, h.floors, h.logged)
