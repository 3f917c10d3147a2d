-- ===== src/Timeline/Records.antt =====
-- The states of a recorder that its calls lead to.
use dui.Base.{ℕ, ◌<◌, ◌≡◌, refl, sym, subst, List, [], ◌∷◌, ◌++◌, u64_max}
use dui.Timeline.{
  TimelineLane, TimelinePhase, TimelineOutcome, TimelineEvent, Recorder, empty_recorder, begin,
  next_frame_id, next_flow_id, ended, finish, clear,
}
use dui.Timeline.Held.{Holds}
use dui.Timeline.Ring.{finish-Holds, clear-Holds, empty-Holds}

-- The states that the calls of one recorder lead to, each with the log of the events that finished.
-- Fewer than 2^64 - 1 of them did.
pub data Records : Recorder → List TimelineEvent → Type 0 where
  starts : (n token : ℕ) → 0 < n → Records (empty_recorder n token) []
  begins :
      (s : Recorder) (log : List TimelineEvent) (lane : TimelineLane) (phase : TimelinePhase)
      (parent frame_id flow_id pass work_count now : ℕ)
      → Records s log
      → Records (begin lane phase parent frame_id flow_id pass work_count now s).1 log
  frames :
      (s : Recorder) (log : List TimelineEvent) → Records s log → Records (next_frame_id s).1 log
  flows : (s : Recorder) (log : List TimelineEvent) → Records s log → Records (next_flow_id s).1 log
  finishes :
      (s : Recorder) (log : List TimelineEvent) (event : TimelineEvent) (outcome : TimelineOutcome)
      (now : ℕ)
      → Records s log
      → s.next_completion_position < u64_max
      → Records (finish event outcome now s) (log ++ ended event outcome now ∷ [])
  clears : (s : Recorder) (log : List TimelineEvent) → Records s log → Records (clear s) log

-- A change of the other counters.
Holds-counters :
    (s t : Recorder) (log : List TimelineEvent)
    → Holds s log
    → t ≡ record s {
      next_sequence = t.next_sequence;
      next_span_id = t.next_span_id;
      next_frame_id = t.next_frame_id;
      next_flow_id = t.next_flow_id;
    }
    → Holds t log
Holds-counters s t log h e =
    subst (λ u. Holds u log) (sym e)
      (record {
        sizes = h.sizes;
        room = h.room;
        bounded = h.bounded;
        floors = h.floors;
        positive = h.positive;
        logged = h.logged;
        word = h.word;
        going = h.going;
        kept = h.kept;
      })

pub Records-Holds : (s : Recorder) (log : List TimelineEvent) → Records s log → Holds s log
unfolding begin next_frame_id next_flow_id
Records-Holds _ _ (starts n token pos) = empty-Holds n token pos
Records-Holds _ _ (begins s log lane phase parent frame_id flow_id pass work_count now r) =
    Holds-counters s (begin lane phase parent frame_id flow_id pass work_count now s).1 log
      (Records-Holds s log r) refl
Records-Holds _ _ (frames s log r) =
    Holds-counters s (next_frame_id s).1 log (Records-Holds s log r) refl
Records-Holds _ _ (flows s log r) =
    Holds-counters s (next_flow_id s).1 log (Records-Holds s log r) refl
Records-Holds _ _ (finishes s log event outcome now r below) =
    finish-Holds event outcome now s log (Records-Holds s log r) below
Records-Holds _ _ (clears s log r) = clear-Holds s log (Records-Holds s log r)
