-- ===== src/Wayland/Keyboard.antt =====
-- WaylandKeyboardState, with KeyEvent and KeyPhase of include/dui/input.hpp: the pressed keys, each
-- with the logical key that it went down as.
pub mod Trace
mod Tests
use dui.Input.Utf8.{is_valid_utf8}
use dui.Base.{
  ℕ, Bool, true, false, ◌||◌, not, Option, none, some, List, [], ◌∷◌, ◌==◌, if◌then◌else◌,
}
use dui.Base.Outcome.{M, ok, throw, invalid_argument, logic_error}

pub data KeyPhase : Type 0 where
  down repeat up : KeyPhase

pub record Modifiers : Type 0 where
  pub shift : Bool
  pub control : Bool
  pub alt : Bool
  pub meta : Bool

-- The logical key is a text: the list of its bytes.
pub record KeyEvent : Type 0 where
  pub logical_key : List ℕ
  pub phase : KeyPhase
  pub modifiers : Modifiers

-- std::unordered_map<std::uint32_t, std::string>.
abbrev pub Pressed : Type 0
Pressed = List (ℕ × List ℕ)

pub find : ℕ → Pressed → Option (List ℕ)
find key [] = none
find key ((k, text) ∷ rest) = if k == key then some text else find key rest

pub erase : ℕ → Pressed → Pressed
erase key [] = []
erase key ((k, text) ∷ rest) = if k == key then erase key rest else (k, text) ∷ erase key rest

pub record Keyboard : Type 0 where
  pub pressed : Pressed
  pub focused : Bool

pub init : Keyboard
init = record { pressed = []; focused = false }

unfoldable pub focus_gained : Keyboard → Keyboard
focus_gained s = record s { focused = true }

unfoldable pub focus_lost : Keyboard → Keyboard
focus_lost s = record s { focused = false; pressed = [] }

unfoldable pub clear_pressed : Keyboard → Keyboard
clear_pressed s = record s { pressed = [] }

-- WaylandKeyboardState::event.
event : List ℕ → KeyPhase → Modifiers → KeyEvent
event logical_key phase modifiers = record {
  logical_key = logical_key;
  phase = phase;
  modifiers = modifiers;
}

abbrev is_empty : List ℕ → Bool
is_empty [] = true
is_empty (b ∷ bs) = false

unfoldable pub key_down : ℕ → List ℕ → Modifiers → M Keyboard (Option KeyEvent)
unfolding event
key_down key logical_key modifiers s =
    if not s.focused
    then (ok none, s)
    else if is_empty logical_key || not (is_valid_utf8 logical_key)
    then (throw invalid_argument, s)
    else elim (find key s.pressed) [
      | some text ↦ (throw logic_error, s)
      | none ↦ (
        ok (some (event logical_key down modifiers)),
        record s { pressed = (key, logical_key) ∷ s.pressed },
      )
    ]

unfoldable pub key_repeat : ℕ → Modifiers → M Keyboard (Option KeyEvent)
unfolding event
key_repeat key modifiers s = if not s.focused then (ok none, s) else elim (find key s.pressed) [
  | none ↦ (ok none, s)
  | some text ↦ (ok (some (event text repeat modifiers)), s)
]

unfoldable pub key_up : ℕ → Modifiers → M Keyboard (Option KeyEvent)
unfolding event
key_up key modifiers s = if not s.focused then (ok none, s) else elim (find key s.pressed) [
  | none ↦ (ok none, s)
  | some text ↦ (ok (some (event text up modifiers)), record s { pressed = erase key s.pressed })
]
