-- ===== src/Wayland/Pointer/Tests.antt =====
-- A press, a move and a loss of the pointer, at whole coordinates.
use dui.Wayland.Pointer.{Offset, Pointer, make}
use dui.Wayland.Pointer.Trace.{Call, enters, moves, leaves, buttons, run, Gestures, run-Gestures}
use dui.Base.Int.{pos}
use dui.Base.{ℕ, refl, Bool, true, false, List, [], ◌∷◌, ltb}

abbrev origin : Offset ℕ
origin = record { x = 0; y = 0 }

abbrev new_pointer : Pointer ℕ
new_pointer = record { pointer = pos 1; position = origin; focused = false; active = false }

abbrev finite : ℕ → Bool
finite x = ltb x 1000

abbrev history : List (Call ℕ)
history = enters 1 2 ∷ buttons true ∷ moves 3 4 ∷ moves 1000 4 ∷ leaves ∷ buttons false ∷ []

run-Gestures_example : Gestures (pos 1) origin false (run finite new_pointer history)
unfolding make
run-Gestures_example = run-Gestures finite origin (pos 1) history refl
