-- ===== src/Wayland/Keyboard/Trace.antt =====
-- The events of a keyboard in order: each key goes down, repeats and comes up as one logical key.
use dui.Wayland.Keyboard.{
  down, repeat, up, Modifiers, KeyEvent, Pressed, find, erase, Keyboard, init, focus_gained,
  focus_lost, clear_pressed, key_down, key_repeat, key_up,
}
use dui.Input.Utf8.{is_valid_utf8}
use dui.Base.{
  ℕ, ◌≡◌, refl, subst, fun_ext, ◌≢◌, ◌⊎◌, inl, inr, Bool, true, false, Option, none, some, List, [],
  ◌∷◌, ◌++◌, arith, ◌==◌, if◌then◌else◌,
}
use dui.Base.Outcome.{M, Result, ok, throw, ◌>>=◌, pure}

pub data Call : Type 0 where
  gains loses clears : Call
  presses : ℕ → List ℕ → Modifiers → Call
  repeats releases : ℕ → Modifiers → Call

-- An event of a physical key, or the loss of all that are down.
pub data Item : Type 0 where
  sent : ℕ → KeyEvent → Item
  forgot : Item

abbrev pub report : ℕ → Option KeyEvent → List Item
report key none = []
report key (some e) = sent key e ∷ []

unfoldable pub perform : Call → M Keyboard (List Item)
perform gains = λ s. (ok [], focus_gained s)
perform loses = λ s. (ok (forgot ∷ []), focus_lost s)
perform clears = λ s. (ok (forgot ∷ []), clear_pressed s)
perform (presses key text m) = do e ← key_down key text m; pure (report key e)
perform (repeats key m) = do e ← key_repeat key m; pure (report key e)
perform (releases key m) = do e ← key_up key m; pure (report key e)

abbrev pub items : Result (List Item) → List Item
items (ok is) = is
items (throw e) = []

unfoldable pub run : Keyboard → List Call → List Item
run s [] = []
run s (c ∷ cs) = items (perform c s).0 ++ run (perform c s).1 cs

-- The specification: what each key is down as.
abbrev pub Held : Type 0
Held = ℕ → Option (List ℕ)

abbrev pub update : Held → ℕ → Option (List ℕ) → Held
update held key o k = if k == key then o else held k

-- A key goes down once, as a text that is valid and not empty; it repeats and comes up as that text
-- while it is down, and not otherwise.
abbrev pub Typed : Held → List Item → Type 0
Typed held [] = Unit
Typed held (forgot ∷ is) = Typed (λ k. none) is
Typed held (sent key e ∷ is) = elim e.phase [
  | down ↦
      (held key ≡ none)
      × (e.logical_key ≢ [])
      × (is_valid_utf8 e.logical_key ≡ true)
      × Typed (update held key (some e.logical_key)) is
  | repeat ↦ (held key ≡ some e.logical_key) × Typed held is
  | up ↦ (held key ≡ some e.logical_key) × Typed (update held key none) is
]

abbrev held_of : Keyboard → Held
held_of s k = find k s.pressed

find-erase :
    (key k : ℕ) (p : Pressed) → find k (erase key p) ≡ (if k == key then none else find k p)
unfolding find erase
find-erase key k [] = ground arith
find-erase key k ((j, text) ∷ p) = ground (arith, find-erase key k p)

find-cons :
    (key k : ℕ) (text : List ℕ) (p : Pressed)
    → find k ((key, text) ∷ p) ≡ (if k == key then some text else find k p)
unfolding find
find-cons key k text p = ground arith

find-empty : (k : ℕ) → find k [] ≡ none
unfolding find
find-empty k = refl

-- The map of the pressed keys is the specification's.
down_lem :
    (key : ℕ) (text : List ℕ) (s : Keyboard)
    → held_of (record s { pressed = (key, text) ∷ s.pressed }) ≡ update (held_of s) key (some text)
down_lem key text s = fun_ext λ k. find-cons key k text s.pressed

up_lem :
    (key : ℕ) (s : Keyboard)
    → held_of (record s { pressed = erase key s.pressed }) ≡ update (held_of s) key none
up_lem key s = fun_ext λ k. find-erase key k s.pressed

forgot_lem : (f : Bool) → held_of (record { pressed = []; focused = f }) ≡ (λ k. none)
forgot_lem f = fun_ext λ k. find-empty k

key_down_cases :
    (key : ℕ) (text : List ℕ) (m : Modifiers) (s : Keyboard)
    → (items (perform (presses key text m) s).0 ≡ []) × ((perform (presses key text m) s).1 ≡ s)
      ⊎ ((find key s.pressed ≡ none)
          × (text ≢ [])
          × (is_valid_utf8 text ≡ true)
          × (perform (presses key text m) s ≡ (
            ok (sent key (record { logical_key = text; phase = down; modifiers = m }) ∷ []),
            record s { pressed = (key, text) ∷ s.pressed },
          )))
unfolding perform key_down
key_down_cases key text m s = ground arith

key_up_cases :
    (key : ℕ) (m : Modifiers) (s : Keyboard)
    → (items (perform (releases key m) s).0 ≡ []) × ((perform (releases key m) s).1 ≡ s)
      ⊎ ((text : List ℕ) × (find key s.pressed ≡ some text)
          × (perform (releases key m) s ≡ (
            ok (sent key (record { logical_key = text; phase = up; modifiers = m }) ∷ []),
            record s { pressed = erase key s.pressed },
          )))
unfolding perform key_up
key_up_cases key m s = ground arith

-- A call's items lead from the map before it to the map after it.
perform-Typed :
    (c : Call) (s : Keyboard) (is : List Item)
    → Typed (held_of (perform c s).1) is
    → Typed (held_of s) (items (perform c s).0 ++ is)
perform-Typed gains s is h = unfold perform focus_gained in h
perform-Typed loses s is h =
    unfold perform focus_lost in subst (λ m. Typed m is) (forgot_lem false) h
perform-Typed clears s is h =
    unfold perform clear_pressed in subst (λ m. Typed m is) (forgot_lem s.focused) h
perform-Typed (presses key text m) s is h = elim (key_down_cases key text m s) [
  | inl (quiet, same) ↦ rw quiet (subst (λ t. Typed (held_of t) is) same h)
  | inr (free, full, valid, e) ↦ rw e (
    free,
    full,
    valid,
    subst (λ m. Typed m is) (down_lem key text s) (subst (λ r. Typed (held_of r.1) is) e h),
  )
]
perform-Typed (repeats key m) s is h = unfold perform key_repeat in ground arith
perform-Typed (releases key m) s is h = elim (key_up_cases key m s) [
  | inl (quiet, same) ↦ rw quiet (subst (λ t. Typed (held_of t) is) same h)
  | inr (text, held, e) ↦
      rw e (held, subst (λ m. Typed m is) (up_lem key s) (subst (λ r. Typed (held_of r.1) is) e h))
]

run-Typed_from : (s : Keyboard) (cs : List Call) → Typed (held_of s) (run s cs)
unfolding run
run-Typed_from s [] = tt
run-Typed_from s (c ∷ cs) =
    perform-Typed c s (run (perform c s).1 cs) (run-Typed_from (perform c s).1 cs)

-- Whatever the calls and their order, the events of a new keyboard follow the specification.
pub run-Typed : (cs : List Call) → Typed (λ k. none) (run init cs)
unfolding init
run-Typed cs = subst (λ m. Typed m (run init cs)) (forgot_lem false) (run-Typed_from init cs)

key_down_sends :
    (key : ℕ) (text : List ℕ) (m : Modifiers) (s : Keyboard)
    → s.focused ≡ true
    → find key s.pressed ≡ none
    → text ≢ []
    → is_valid_utf8 text ≡ true
    → key_down key text m s ≡ (
      ok (some (record { logical_key = text; phase = down; modifiers = m })),
      record s { pressed = (key, text) ∷ s.pressed },
    )
unfolding key_down
key_down_sends key [] m s f free full valid = absurd (full refl)
key_down_sends key (b ∷ text) m s f free full valid = ground arith

-- A key pressed on a focused keyboard that does not hold it goes down, repeats and comes up as the
-- same text, and then the keyboard holds what it held before.
pub press_release :
    (key : ℕ) (text : List ℕ) (m n o : Modifiers) (s : Keyboard)
    → s.focused ≡ true
    → find key s.pressed ≡ none
    → text ≢ []
    → is_valid_utf8 text ≡ true
    → let pressed = (key_down key text m s).1 in
      (key_down key text m s
        ≡ (ok (some (record { logical_key = text; phase = down; modifiers = m })), pressed))
      × (key_repeat key n pressed
          ≡ (ok (some (record { logical_key = text; phase = repeat; modifiers = n })), pressed))
      × ((key_up key o pressed).0
          ≡ ok (some (record { logical_key = text; phase = up; modifiers = o })))
      × ((k : ℕ) → find k (key_up key o pressed).1.pressed ≡ find k s.pressed)
press_release key text m n o s f free full valid =
    rw (key_down_sends key text m s f free full valid) (
      refl,
      unfold key_repeat in ground (arith, find-cons key key text s.pressed),
      unfold key_up in ground (arith, find-cons key key text s.pressed),
      λ k.
          unfold key_up in
          ground (
            arith,
            free,
            find-cons key key text s.pressed,
            find-erase key k ((key, text) ∷ s.pressed),
            find-cons key k text s.pressed,
          ),
    )
