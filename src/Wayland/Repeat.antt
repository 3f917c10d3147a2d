-- ===== src/Wayland/Repeat.antt =====
-- WaylandRepeatState: the key that repeats, the compositor's rate and delay, and the generation that
-- tells a timer of now from one of before. Times are in nanoseconds; those kept are not negative.
pub mod Generation
pub mod Schedule
mod Tests
use dui.Base.Int.{ℤ, pos, negsuc, is_negative, magnitude}
use dui.Base.{
  ℕ, ◌+◌, ◌-◌, ◌*◌, ◌/◌, min, max, Bool, false, ◌&&◌, ◌||◌, not, Option, none, some, ltb, ◌==◌,
  if◌then◌else◌, is_some, u64_max,
}
use dui.Base.Outcome.{M, Result, ok, throw, invalid_argument, overflow_error, ◌>>◌, modify}

pub record RepeatSchedule : Type 0 where
  pub key : ℕ
  pub delay : ℕ
  pub interval : ℕ
  pub generation : ℕ

pub record Repeat : Type 0 where
  pub candidate : Option ℕ
  pub key_down_time : ℕ
  pub delay : ℕ
  pub interval : ℕ
  pub generation : ℕ

abbrev pub maximum_events_per_dispatch : ℕ
maximum_events_per_dispatch = 16

pub init : Repeat
init = record { candidate = none; key_down_time = 0; delay = 0; interval = 0; generation = 1 }

unfoldable pub advance_generation : M Repeat (Unit {0})
advance_generation s =
    if s.generation == u64_max
    then (throw overflow_error, s)
    else (ok tt, record s { generation = s.generation + 1 })

-- Whether a time argument is refused: negative, or before the key that repeats went down.
pub bad_time : ℤ → Repeat → Bool
bad_time now s = is_negative now || (is_some s.candidate && ltb (magnitude now) s.key_down_time)

abbrev pub nanoseconds_per_second : ℕ
nanoseconds_per_second = 1_000_000_000

unfoldable pub configure : ℤ → ℤ → ℤ → M Repeat (Unit {0})
unfolding bad_time advance_generation
configure rate delay_milliseconds now s =
    if is_negative rate || is_negative delay_milliseconds || bad_time now s
    then (throw invalid_argument, s)
    else let count = nanoseconds_per_second / magnitude rate in
      if not (magnitude rate == 0) && count == 0
      then (throw invalid_argument, s)
      else let interval = if magnitude rate == 0 then 0 else count in
        let delay = magnitude delay_milliseconds * 1_000_000 in
        if s.interval == interval && s.delay == delay
        then (ok tt, s)
        else (advance_generation >> modify (λ t. record t { interval = interval; delay = delay })) s

unfoldable pub key_down : ℕ → Bool → ℤ → M Repeat (Unit {0})
unfolding advance_generation
key_down key repeatable now s =
    if is_negative now
    then (throw invalid_argument, s)
    else if not repeatable
    then (ok tt, s)
    else (advance_generation
          >> modify (λ t. record t { candidate = some key; key_down_time = magnitude now }))
        s

abbrev pub is_candidate : Option ℕ → ℕ → Bool
is_candidate none key = false
is_candidate (some k) key = k == key

unfoldable pub key_up : ℕ → M Repeat (Unit {0})
unfolding advance_generation
key_up key s =
    if not (is_candidate s.candidate key)
    then (ok tt, s)
    else (advance_generation >> modify (λ t. record t { candidate = none })) s

unfoldable pub cancel : M Repeat (Unit {0})
unfolding advance_generation
cancel s =
    if not (is_some s.candidate)
    then (ok tt, s)
    else (advance_generation >> modify (λ t. record t { candidate = none })) s

unfoldable pub schedule : ℤ → Repeat → Result (Option RepeatSchedule)
unfolding bad_time
schedule now s = if bad_time now s then throw invalid_argument else elim s.candidate [
  | none ↦ ok none
  | some key ↦
      if s.interval == 0
      then ok none
      else let elapsed = magnitude now - s.key_down_time in
        let remaining = if ltb elapsed s.delay then s.delay - elapsed else 1 in
        ok (
          some (record {
            key = key;
            delay = max remaining 1;
            interval = s.interval;
            generation = s.generation;
          }))
]

unfoldable pub delivery_count : ℕ → ℕ → Repeat → ℕ
delivery_count expirations generation s =
    if not (is_some s.candidate) || s.interval == 0 || not (generation == s.generation)
    then 0
    else min expirations maximum_events_per_dispatch
