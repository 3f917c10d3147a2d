-- ===== src/Timeline.antt =====
-- TimelineRecorder: spans that begin and finish, kept in a ring of a fixed size in the order in which
-- they finished, and read from a cursor on. Times are nanoseconds since the clock's epoch, not
-- before it; what the clock gives is an argument.
pub mod Cursor
pub mod Sorted
pub mod Slots
pub mod Held
pub mod Ring
pub mod Records
pub mod Slices
pub mod Retained
pub mod Reads
pub mod Snapshot
mod Tests
use dui.Base.{
  ℕ, ◌+◌, ◌-◌, ◌%◌, ◌^◌, Bool, true, false, not, List, ltb, leb, ◌==◌, if◌then◌else◌, u64_max, u64,
  length, set, replicate,
}
use dui.Base.Outcome.{Result, ok, throw, invalid_argument}

pub data TimelineLane : Type 0 where
  ui raster : TimelineLane

pub data TimelinePhase : Type 0 where
  reconcile build frame synchronize_render_tree layout lazy_realization composite : TimelinePhase
  raster_frame surface_acquire rasterize surface_present : TimelinePhase

pub data TimelineOutcome : Type 0 where
  completed unavailable out_of_date lost failed : TimelineOutcome

pub record TimelineEvent : Type 0 where
  pub sequence : ℕ
  pub span_id : ℕ
  pub parent_span_id : ℕ
  pub frame_id : ℕ
  pub lane : TimelineLane
  pub phase : TimelinePhase
  pub outcome : TimelineOutcome
  pub start : ℕ
  pub duration : ℕ
  pub pass : ℕ
  pub work_count : ℕ
  pub flow_id : ℕ

-- A value-initialized TimelineEvent.
abbrev pub blank : TimelineEvent
blank = record {
  sequence = 0;
  span_id = 0;
  parent_span_id = 0;
  frame_id = 0;
  lane = ui;
  phase = reconcile;
  outcome = completed;
  start = 0;
  duration = 0;
  pass = 0;
  work_count = 0;
  flow_id = 0;
}

-- TimelineRecorder::Impl, without the clock and the mutexes. The flow token is a number that tells
-- recorders apart.
pub record Recorder : Type 0 where
  pub events : List TimelineEvent
  pub completion_positions : List ℕ
  pub flow_token : ℕ
  pub first_event : ℕ
  pub event_count : ℕ
  pub dropped_event_count : ℕ
  pub next_sequence : ℕ
  pub next_span_id : ℕ
  pub next_frame_id : ℕ
  pub next_flow_id : ℕ
  pub next_completion_position : ℕ
  pub retention_floor : ℕ
  pub completion_positions_exhausted : Bool

abbrev pub empty_recorder : ℕ → ℕ → Recorder
empty_recorder capacity token = record {
  events = replicate capacity blank;
  completion_positions = replicate capacity 0;
  flow_token = token;
  first_event = 0;
  event_count = 0;
  dropped_event_count = 0;
  next_sequence = 1;
  next_span_id = 1;
  next_frame_id = 1;
  next_flow_id = 1;
  next_completion_position = 1;
  retention_floor = 1;
  completion_positions_exhausted = false;
}

-- Impl::Impl, for a clock that is there or not.
unfoldable pub make : ℕ → Bool → ℕ → Result Recorder
make capacity has_clock token =
    if capacity == 0
    then throw invalid_argument
    else if not has_clock
    then throw invalid_argument
    else ok (empty_recorder capacity token)

-- Impl::next_nonzero: the id, and the value that it leaves.
unfoldable pub next_nonzero : ℕ → ℕ × ℕ
next_nonzero value =
    if value == 0 then (u64 (value + 1), u64 (u64 (value + 1) + 1)) else (value, u64 (value + 1))

-- Impl::begin, at the time `now`.
unfoldable pub begin :
    TimelineLane → TimelinePhase → ℕ → ℕ → ℕ → ℕ → ℕ → ℕ → Recorder → TimelineEvent × Recorder
unfolding next_nonzero
begin lane phase parent_span_id frame_id flow_id pass work_count now s = (
  record {
    sequence = (next_nonzero s.next_sequence).0;
    span_id = (next_nonzero s.next_span_id).0;
    parent_span_id = parent_span_id;
    frame_id = frame_id;
    lane = lane;
    phase = phase;
    outcome = completed;
    start = now;
    duration = 0;
    pass = pass;
    work_count = work_count;
    flow_id = flow_id;
  },
  record s {
    next_sequence = (next_nonzero s.next_sequence).1;
    next_span_id = (next_nonzero s.next_span_id).1;
  },
)

-- Impl::next_frame_id and Impl::next_flow_id.
unfoldable pub next_frame_id : Recorder → ℕ × Recorder
unfolding next_nonzero
next_frame_id s = (
  (next_nonzero s.next_frame_id).0,
  record s { next_frame_id = (next_nonzero s.next_frame_id).1 },
)

unfoldable pub next_flow_id : Recorder → ℕ × Recorder
unfolding next_nonzero
next_flow_id s =
    ((next_nonzero s.next_flow_id).0, record s { next_flow_id = (next_nonzero s.next_flow_id).1 })

-- The event as `finish` records it, at the time `now`.
abbrev pub ended : TimelineEvent → TimelineOutcome → ℕ → TimelineEvent
ended event outcome now = record event {
  outcome = outcome;
  duration = if leb event.start now then now - event.start else 0;
}

abbrev pub capacity : Recorder → ℕ
capacity s = length s.events

-- The next completion position is taken, unless it is the last one.
unfoldable pub take_position : Recorder → Recorder
take_position s =
    if s.next_completion_position == u64_max
    then record s { completion_positions_exhausted = true }
    else record s { next_completion_position = s.next_completion_position + 1 }

-- The event is put after the others, or in the place of the oldest if the ring is full.
unfoldable pub put : ℕ → TimelineEvent → Recorder → Recorder
put position event s =
    let insertion = (s.first_event + s.event_count) % capacity s in
    if ltb s.event_count (capacity s)
    then record s {
      events = set s.events insertion event;
      completion_positions = set s.completion_positions insertion position;
      event_count = s.event_count + 1;
    }
    else record s {
      events = set s.events s.first_event event;
      completion_positions = set s.completion_positions s.first_event position;
      first_event = (s.first_event + 1) % capacity s;
      retention_floor = u64 (u64 (position + (2 ^ 64 - s.event_count)) + 1);
      dropped_event_count = u64 (s.dropped_event_count + 1);
    }

-- Impl::finish.
unfoldable pub finish : TimelineEvent → TimelineOutcome → ℕ → Recorder → Recorder
unfolding take_position put
finish event outcome now s =
    put s.next_completion_position (ended event outcome now) (take_position s)

-- Impl::clear.
unfoldable pub clear : Recorder → Recorder
clear s = record s {
  first_event = 0;
  event_count = 0;
  dropped_event_count = 0;
  retention_floor = s.next_completion_position;
}
