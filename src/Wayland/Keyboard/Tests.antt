-- ===== src/Wayland/Keyboard/Tests.antt =====
-- The key 30 is pressed and released as "a".
use dui.Wayland.Keyboard.{
  repeat, key_repeat, down, init, up, Modifiers, Keyboard, find, key_down, key_up,
}
use dui.Wayland.Keyboard.Trace.{gains, presses, releases, run, Typed, run-Typed, press_release}
use dui.Input.Utf8.{is_valid_utf8}
use dui.Base.{ℕ, ◌≡◌, refl, true, false, none, some, [], ◌∷◌}
use dui.Base.Outcome.{ok}

abbrev plain : Modifiers
plain = record { shift = false; control = false; alt = false; meta = false }

abbrev focused : Keyboard
focused = record { pressed = []; focused = true }

run-Typed_example :
    Typed (λ k. none) (run init (gains ∷ presses 30 (0x61 ∷ []) plain ∷ releases 30 plain ∷ []))
run-Typed_example = run-Typed (gains ∷ presses 30 (0x61 ∷ []) plain ∷ releases 30 plain ∷ [])

press_release_example :
    let pressed = (key_down 30 (0x61 ∷ []) plain focused).1 in
    (key_down 30 (0x61 ∷ []) plain focused
      ≡ (ok (some (record { logical_key = 0x61 ∷ []; phase = down; modifiers = plain })), pressed))
    × (key_repeat 30 plain pressed ≡ (
      ok (some (record { logical_key = 0x61 ∷ []; phase = repeat; modifiers = plain })),
      pressed,
    ))
    × ((key_up 30 plain pressed).0
        ≡ ok (some (record { logical_key = 0x61 ∷ []; phase = up; modifiers = plain })))
    × ((k : ℕ) → find k (key_up 30 plain pressed).1.pressed ≡ find k focused.pressed)
unfolding find is_valid_utf8
press_release_example =
    press_release 30 (0x61 ∷ []) plain plain plain focused refl refl (λ e. cc) refl
