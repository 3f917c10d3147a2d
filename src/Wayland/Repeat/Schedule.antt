-- ===== src/Wayland/Repeat/Schedule.antt =====
-- What a schedule says: the time to the first repeat, and how many are delivered.
use dui.Wayland.Repeat.{Repeat, RepeatSchedule, key_down, schedule, delivery_count}
use dui.Base.Int.{pos}
use dui.Base.{ℕ, ◌+◌, ◌-◌, ◌≤◌, ◌<◌, max, ◌≡◌, ◌≢◌, ◌↔◌, ◌⊎◌, true, none, some, arith, u64_max}
use dui.Base.Outcome.{ok}

-- The first repeat is due `delay` after the key went down, at once (in one tick) if that is past.
pub schedule_due :
    (now : ℕ) (s : Repeat) {r : RepeatSchedule}
    → schedule (pos now) s ≡ ok (some r)
    → (s.candidate ≡ some r.key)
      × (now + r.delay ≡ max (s.key_down_time + s.delay) (now + 1))
      × (0 < r.interval)
      × (r.interval ≡ s.interval)
      × (r.generation ≡ s.generation)
unfolding schedule
schedule_due now s h = ground arith

-- A key repeats exactly while there is a candidate and a rate.
pub schedule_iff :
    (now : ℕ) (s : Repeat)
    → s.key_down_time ≤ now
    → (schedule (pos now) s ≡ ok none) ↔ ((s.candidate ≡ none) ⊎ (s.interval ≡ 0))
unfolding schedule
schedule_iff now s h = ground arith

-- Pressing a key, then asking later: the key repeats after the configured delay at the rate.
pub key_down-schedule :
    (key down now : ℕ) (s : Repeat)
    → s.generation < u64_max
    → 0 < s.interval
    → down ≤ now
    → schedule (pos now) (key_down key true (pos down) s).1
      ≡ ok (
          some (record {
            key = key;
            delay = max (down + s.delay - now) 1;
            interval = s.interval;
            generation = s.generation + 1;
          }))
unfolding schedule key_down
key_down-schedule key down now s g i h = ground arith

-- A dispatch delivers at most 16 events, no more than expired, and for the present schedule only.
pub delivery_bounded :
    (n g : ℕ) (s : Repeat)
    → (delivery_count n g s ≤ 16)
      × (delivery_count n g s ≤ n)
      × (0 < delivery_count n g s → (s.generation ≡ g) × (0 < s.interval) × (s.candidate ≢ none))
unfolding delivery_count
delivery_bounded n g s = ground arith
