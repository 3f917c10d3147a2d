-- ===== src/Wayland/Pointer.antt =====
-- WaylandPointerState, with PointerEvent and PointerPhase of include/dui/input.hpp. Coordinates are
-- of an abstract type, of which the code asks only whether they are finite.
pub mod Trace
mod Tests
use dui.Base.Int.{ℤ, pos, negsuc}
use dui.Base.{Bool, true, false, ◌||◌, not, Option, none, some, ◌==◌, if◌then◌else◌}
use dui.Base.Outcome.{
  ◌>>=◌, ◌>>◌, M, Result, ok, throw, invalid_argument, logic_error, pure, get, modify,
}

pub data PointerPhase : Type 0 where
  down move up cancel : PointerPhase

pub record Offset (D : Type 0) : Type 0 where
  pub x : D
  pub y : D

pub record PointerEvent (D : Type 0) : Type 0 where
  pub pointer : ℤ
  pub phase : PointerPhase
  pub position : Offset D

pub record Pointer (D : Type 0) : Type 0 where
  pub pointer : ℤ
  pub position : Offset D
  pub focused : Bool
  pub active : Bool

abbrev is_zero : ℤ → Bool
is_zero (pos n) = n == 0
is_zero (negsuc n) = false

module _ {D : Type 0} where
  -- The constructor; `origin` is the value-initialised Offset.
  pub make : Offset D → ℤ → Result (Pointer D)
  make origin pointer =
      if is_zero pointer
      then throw invalid_argument
      else ok (record { pointer = pointer; position = origin; focused = false; active = false })

  event : Pointer D → PointerPhase → PointerEvent D
  event s phase = record { pointer = s.pointer; phase = phase; position = s.position }

  unfoldable pub leave : M (Pointer D) (Option (PointerEvent D))
  unfolding event
  leave s =
      let t = record s { focused = false } in
      if not s.active
      then (ok none, t)
      else (ok (some (event s cancel)), record t { active = false })

  unfoldable pub primary_button : Bool → M (Pointer D) (Option (PointerEvent D))
  unfolding event
  primary_button pressed s =
      if pressed
      then if not s.focused
        then (ok none, s)
        else if s.active
        then (throw logic_error, s)
        else (ok (some (event s down)), record s { active = true })
      else if not s.active
      then (ok none, s)
      else (ok (some (event s up)), record s { active = false })

  unfoldable pub capability_lost : M (Pointer D) (Option (PointerEvent D))
  unfolding event
  capability_lost s =
      let t = record s { focused = false } in
      if not s.active
      then (ok none, t)
      else (ok (some (event s cancel)), record t { active = false })

module _ {D : Type 0} (is_finite : D → Bool) where
  set_position : D → D → M (Pointer D) (Unit {0})
  set_position x y s =
      if not (is_finite x) || not (is_finite y)
      then (throw invalid_argument, s)
      else (ok tt, record s { position = record { x = x; y = y } })

  unfoldable pub enter : D → D → M (Pointer D) (Unit {0})
  unfolding set_position
  enter x y = do set_position x y; modify (λ s. record s { focused = true })

  unfoldable pub motion : D → D → M (Pointer D) (Option (PointerEvent D))
  unfolding set_position event
  motion x y = do
    set_position x y
    s ← get
    pure (if not s.focused || not s.active then none else some (event s move))
