-- ===== src/Timeline/Cursor.antt =====
-- Reads with a cursor: TimelineCursor, TimelineBatch and read_completed.
use dui.Timeline.{TimelineEvent, Recorder, capacity, blank}
use dui.Base.{
  ℕ, zero, suc, ◌+◌, ◌-◌, ◌%◌, max, Bool, false, ◌&&◌, not, Option, none, some, List, [], ◌∷◌, ◌++◌,
  ltb, ◌==◌, if◌then◌else◌, u64, length, get_or,
}
use dui.Base.Outcome.{Result, ok, throw, invalid_argument, overflow_error}

-- Impl::CompletedRead.
pub record CompletedRead : Type 0 where
  pub events : List TimelineEvent
  pub next_position : ℕ
  pub missed_event_count : ℕ

-- The loop of Impl::read_completed, for as many rounds as are left, from an index on.
unfoldable pub scan : Recorder → ℕ → ℕ → ℕ → ℕ → CompletedRead → CompletedRead
scan s max_events available zero index result = result
scan s max_events available (suc rounds) index result =
    let slot = (s.first_event + index) % capacity s in
    let position = get_or s.completion_positions slot 0 in
    let kept = record result {
      events = result.events ++ get_or s.events slot blank ∷ [];
      next_position = u64 (position + 1);
    } in
    let rest =
      scan s max_events available rounds (index + 1)
        (if ltb position available then result else kept) in
    if ltb (length result.events) max_events then rest else result

-- Impl::read_completed.
unfoldable pub read_from : ℕ → ℕ → Recorder → Result CompletedRead
unfolding scan
read_from max_events requested s =
    let from = if requested == 0 then 1 else requested in
    let available = max from s.retention_floor in
    if max_events == 0
    then throw invalid_argument
    else if s.completion_positions_exhausted
    then throw overflow_error
    else if ltb s.next_completion_position from
    then throw invalid_argument
    else ok (
        scan s max_events available s.event_count 0 (record {
          events = [];
          next_position = available;
          missed_event_count = available - from;
        }))

-- TimelineCursor: the token of its recorder, none in a new one.
pub record TimelineCursor : Type 0 where
  pub recorder_token : Option ℕ
  pub next_completion_position : ℕ

pub record TimelineBatch : Type 0 where
  pub events : List TimelineEvent
  pub next_cursor : TimelineCursor
  pub missed_event_count : ℕ

abbrev pub is_token : ℕ → Option ℕ → Bool
is_token token none = false
is_token token (some t) = t == token

-- TimelineRecorder::read_completed.
unfoldable pub read_completed : ℕ → TimelineCursor → Recorder → Result TimelineBatch
unfolding read_from
read_completed max_events cursor s =
    if not (cursor.next_completion_position == 0)
      && not (is_token s.flow_token cursor.recorder_token)
    then throw invalid_argument
    else elim (read_from max_events cursor.next_completion_position s) [
      | throw e ↦ throw e
      | ok r ↦ ok (record {
        events = r.events;
        next_cursor = record {
          recorder_token = some s.flow_token;
          next_completion_position = r.next_position;
        };
        missed_event_count = r.missed_event_count;
      })
    ]
