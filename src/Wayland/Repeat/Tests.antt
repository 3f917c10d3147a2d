-- ===== src/Wayland/Repeat/Tests.antt =====
-- A key that repeats 25 times a second after 600 ms.
use dui.Wayland.Repeat.{key_up, Repeat, RepeatSchedule, init, configure, key_down, delivery_count}
use dui.Wayland.Repeat.Generation.{configures, downs, ups, perform, run, delivery_fresh}
use dui.Wayland.Repeat.Schedule.{delivery_bounded}
use dui.Base.Int.{pos}
use dui.Base.{◌≢◌, none, ◌<◌, ◌≤◌, ◌≡◌, refl, true, some, [], ◌∷◌, arith}

abbrev repeating : Repeat
repeating = record {
  candidate = some 30;
  key_down_time = 1000;
  delay = 600000000;
  interval = 40000000;
  generation = 3;
}

reached :
    run init (configures (pos 25) (pos 600) (pos 0) ∷ downs 30 true (pos 1000) ∷ []) ≡ repeating
unfolding run init perform configure key_down
reached = refl

delivery_fresh_example : run repeating (ups 29 ∷ []) ≡ repeating
unfolding delivery_count run perform key_up
delivery_fresh_example = delivery_fresh repeating (ups 29 ∷ []) 2 (omega arith)

abbrev due : RepeatSchedule
due = record { key = 30; delay = 599999000; interval = 40000000; generation = 3 }

delivery_bounded_example :
    (delivery_count 40 3 repeating ≤ 16)
    × (delivery_count 40 3 repeating ≤ 40)
    × (0 < delivery_count 40 3 repeating
        → (repeating.generation ≡ 3) × (0 < repeating.interval) × (repeating.candidate ≢ none))
delivery_bounded_example = delivery_bounded 40 3 repeating
