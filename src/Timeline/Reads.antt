-- ===== src/Timeline/Reads.antt =====
-- What a reader with a cursor gets of a recorder, after any calls.
use dui.Timeline.Records.{Records, Records-Holds}
use dui.Timeline.Retained.{first_held, floor_lem}
use dui.Timeline.Slices.{scan-Adds, slice}
use dui.Base.{
  ℕ, ◌+◌, ◌-◌, ◌≤◌, ◌<◌, max, ◌≡◌, refl, sym, ap, subst, ◌∙◌, Bool, true, false, ◌&&◌, ◌||◌, not,
  some, List, [], arith, ltb, ◌==◌, if◌then◌else◌, length,
}
use dui.Base.Outcome.{ok}
use dui.Timeline.{TimelineEvent, Recorder}
use dui.Timeline.Cursor.{
  TimelineCursor, TimelineBatch, CompletedRead, scan, read_from, read_completed, is_token,
}
use dui.Timeline.Held.{Holds}

-- What a read gives of a log, from a position on.
abbrev pub batch : ℕ → ℕ → ℕ → Recorder → List TimelineEvent → TimelineBatch
batch max_events from available s log = record {
  events = slice max_events available log;
  next_cursor = record {
    recorder_token = some s.flow_token;
    next_completion_position = available + length (slice max_events available log);
  };
  missed_event_count = available - from;
}

abbrev pub from_position : TimelineCursor → ℕ
from_position cursor = max 1 cursor.next_completion_position

-- A cursor that a recorder takes: one that is new, or that it gave.
abbrev pub is_taken : Recorder → TimelineCursor → Bool
is_taken s cursor =
    cursor.next_completion_position == 0 || is_token s.flow_token cursor.recorder_token

from_is : (c : ℕ) → (if c == 0 then 1 else c) ≡ max 1 c
from_is c = ground arith

module _ (s : Recorder) (log : List TimelineEvent) (h : Holds s log) (max_events from : ℕ) where
  abbrev at_start : CompletedRead
  at_start = record {
    events = [];
    next_position = max from s.retention_floor;
    missed_event_count = max from s.retention_floor - from;
  }

  abbrev at_end : CompletedRead
  at_end = record {
    events = slice max_events (max from s.retention_floor) log;
    next_position =
        max from s.retention_floor + length (slice max_events (max from s.retention_floor) log);
    missed_event_count = max from s.retention_floor - from;
  }

  scan_whole :
      from ≤ s.next_completion_position
      → scan s max_events (max from s.retention_floor) s.event_count 0 at_start ≡ at_end
  scan_whole le =
      let position : max (max from s.retention_floor) (s.retention_floor + 0)
          ≡ max from s.retention_floor =
        omega arith in
      let limit : max_events - 0 ≡ max_events = omega arith in
      subst
        (λ (p : ℕ).
          scan s max_events (max from s.retention_floor) s.event_count 0 at_start
          ≡ record at_start {
            events = slice p (max from s.retention_floor) log;
            next_position =
                max from s.retention_floor + length (slice p (max from s.retention_floor) log);
          })
        limit
        (subst
          (λ (p : ℕ).
            scan s max_events (max from s.retention_floor) s.event_count 0 at_start
            ≡ record at_start {
              events = slice (max_events - 0) p log;
              next_position = p + length (slice (max_events - 0) p log);
            })
          position
          (scan-Adds s log h max_events (max from s.retention_floor) s.event_count 0 at_start
            (omega arith) (omega (arith, le, h.floors)) (omega arith)))

  read_from_lem :
      (c : ℕ)
      → from ≡ max 1 c
      → 0 < max_events
      → from ≤ s.next_completion_position
      → read_from max_events c s ≡ ok at_end
  unfolding read_from
  read_from_lem c e pos le =
      let limited : (max_events == 0) ≡ false = ground (arith, pos) in
      let behind : ltb s.next_completion_position from ≡ false = ground (arith, le) in
      let same : (if c == 0 then 1 else c) ≡ from = from_is c ∙ sym e in
      rw (same, limited, h.going, behind) (ap (λ (o : CompletedRead). ok o) (scan_whole le))

-- Whatever was recorded and cleared before, with fewer than 2^64 - 1 events finished: a read with a
-- limit that is not 0 and a cursor that is new or of this recorder, and not ahead of it, gives the
-- events that finished from its position on, in that order, up to the limit. Those of them are left
-- out, and counted, that finished before the last clear or are not among the last to finish, as
-- many as the size that the recorder was made with. The next cursor is behind the last event given.
pub read_in_order :
    (s : Recorder) (log : List TimelineEvent) (max_events : ℕ) (cursor : TimelineCursor)
    (r : Records s log)
    → 0 < max_events
    → is_taken s cursor ≡ true
    → from_position cursor ≤ length log + 1
    → read_completed max_events cursor s
      ≡ ok (
          batch max_events
            (from_position cursor)
            (max (from_position cursor) (first_held s log r))
            s
            log)
unfolding read_completed
read_in_order s log max_events cursor r pos taken ahead =
    let h = Records-Holds s log r in
    let read =
      read_from_lem s log h max_events (from_position cursor) cursor.next_completion_position refl
        pos (omega (arith, ahead, h.logged)) in
    let passes : (not (cursor.next_completion_position == 0)
          && not (is_token s.flow_token cursor.recorder_token))
        ≡ false =
      ground (arith, taken) in
    let floor = floor_lem s log r in
    rw (passes, read)
      (ap
        (λ (p : ℕ).
          ok (batch max_events (from_position cursor) (max (from_position cursor) p) s log))
        floor)
