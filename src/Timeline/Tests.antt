-- ===== src/Timeline/Tests.antt =====
-- A ring of two; of three spans the last one to begin ends first.
use dui.Base.{ℕ, ◌≡◌, refl, none, some, List, [], ◌∷◌, ◌++◌, arith}
use dui.Base.Outcome.{ok}
use dui.Timeline.{
  ui, build, completed, TimelineEvent, Recorder, empty_recorder, begin, next_nonzero, finish,
  take_position, put,
}
use dui.Timeline.Cursor.{TimelineCursor, scan, read_from, read_completed}
use dui.Timeline.Records.{starts, begins, finishes, Records}
use dui.Timeline.Reads.{batch, read_in_order}

abbrev empty : Recorder
empty = empty_recorder 2 9

abbrev opens : ℕ → Recorder → TimelineEvent × Recorder
opens now s = begin ui build 0 1 0 0 0 now s

abbrev first : TimelineEvent × Recorder
first = opens 10 empty

abbrev second : TimelineEvent × Recorder
second = opens 20 first.1

abbrev third : TimelineEvent × Recorder
third = opens 30 second.1

abbrev ends : TimelineEvent → ℕ → Recorder → Recorder
ends e now s = finish e completed now s

abbrev last : Recorder
last = ends first.0 60 (ends second.0 50 (ends third.0 40 third.1))

abbrev log : List TimelineEvent
log =
    (([] ++ record third.0 { duration = 10 } ∷ []) ++ record second.0 { duration = 30 } ∷ [])
    ++ record first.0 { duration = 50 } ∷ []

last-Records : Records last log
unfolding begin next_nonzero finish take_position put
last-Records =
    finishes (ends second.0 50 (ends third.0 40 third.1))
      (([] ++ record third.0 { duration = 10 } ∷ []) ++ record second.0 { duration = 30 } ∷ [])
      first.0 completed 60
      (finishes (ends third.0 40 third.1) ([] ++ record third.0 { duration = 10 } ∷ []) second.0
        completed 50
        (finishes third.1 [] third.0 completed 40
          (begins second.1 [] ui build 0 1 0 0 0 30 (
            begins first.1 [] ui build 0 1 0 0 0 20
              (begins empty [] ui build 0 1 0 0 0 10 (starts 2 9 (omega arith)))))
          (omega arith))
        (omega arith))
      (omega arith)

abbrev cursor : TimelineCursor
cursor = record { recorder_token = none; next_completion_position = 0 }

-- The first of the three is gone, and the one that ended second is given.
reads :
    read_completed 1 cursor last
    ≡ ok (record {
      events = record second.0 { duration = 30 } ∷ [];
      next_cursor = record { recorder_token = some 9; next_completion_position = 3 };
      missed_event_count = 1;
    })
unfolding begin next_nonzero finish take_position put read_completed read_from scan
reads = refl

-- Three events finished, and a ring of two holds those from position 2 on.
read_in_order_example : read_completed 1 cursor last ≡ ok (batch 1 1 2 last log)
unfolding last-Records
read_in_order_example =
    read_in_order last log 1 cursor last-Records (omega arith) refl (omega arith)
