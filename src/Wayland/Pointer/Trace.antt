-- ===== src/Wayland/Pointer/Trace.antt =====
-- The events of a pointer in order: a press, moves, and a release or a cancellation, again and again.
use dui.Wayland.Pointer.{
  down, move, up, cancel, Offset, PointerEvent, Pointer, make, leave, enter, motion, primary_button,
  capability_lost,
}
use dui.Base.Int.{ℤ}
use dui.Base.{◌≡◌, Bool, true, false, Option, none, some, List, [], ◌∷◌, ◌++◌, arith}
use dui.Base.Outcome.{Result, ok, throw}

pub data Call (D : Type 0) : Type 0 where
  enters moves : D → D → Call D
  leaves loses : Call D
  buttons : Bool → Call D

-- The positions that the compositor reports come with the events.
pub data Item (D : Type 0) : Type 0 where
  at : Offset D → Item D
  sent : PointerEvent D → Item D

abbrev pub report : {D : Type 0} → Option (PointerEvent D) → List (Item D)
report none = []
report (some e) = sent e ∷ []

module _ {D : Type 0} where
  -- Every event names the pointer and the last position; a press opens a gesture, moves stay in it,
  -- and a release or a cancellation ends it.
  abbrev pub Gestures : ℤ → Offset D → Bool → List (Item D) → Type 0
  Gestures id position active [] = Unit
  Gestures id position active (at q ∷ is) = Gestures id q active is
  Gestures id position active (sent e ∷ is) =
      (e.pointer ≡ id) × (e.position ≡ position) × elim e.phase [
        | down ↦ (active ≡ false) × Gestures id position true is
        | move ↦ (active ≡ true) × Gestures id position true is
        | up ↦ (active ≡ true) × Gestures id position false is
        | cancel ↦ (active ≡ true) × Gestures id position false is
      ]

abbrev pub when_ok : {D A : Type 0} → Result A → (A → List (Item D)) → List (Item D)
when_ok (ok a) f = f a
when_ok (throw e) f = []

module _ {D : Type 0} (is_finite : D → Bool) where
  -- A call, with what it adds to the sequence.
  pub perform : Call D → Pointer D → List (Item D) × Pointer D
  perform (enters x y) s =
      let r = enter is_finite x y s in (when_ok r.0 (λ _. at (record { x = x; y = y }) ∷ []), r.1)
  perform (moves x y) s =
      let r = motion is_finite x y s in
      (when_ok r.0 (λ e. at (record { x = x; y = y }) ∷ report e), r.1)
  perform leaves s = let r = leave s in (when_ok r.0 report, r.1)
  perform loses s = let r = capability_lost s in (when_ok r.0 report, r.1)
  perform (buttons pressed) s = let r = primary_button pressed s in (when_ok r.0 report, r.1)

  pub run : Pointer D → List (Call D) → List (Item D)
  run s [] = []
  run s (c ∷ cs) = (perform c s).0 ++ run (perform c s).1 cs

  -- A gesture is open only while the pointer is over the surface.
  abbrev pub Inv : Pointer D → Type 0
  Inv s = s.active ≡ true → s.focused ≡ true

  perform-Inv : (c : Call D) (s : Pointer D) → Inv s → Inv (perform c s).1
  unfolding perform enter motion leave capability_lost primary_button
  perform-Inv (enters x y) s v = ground arith
  perform-Inv (moves x y) s v = ground arith
  perform-Inv leaves s v = ground arith
  perform-Inv loses s v = ground arith
  perform-Inv (buttons pressed) s v = ground arith

  perform-Gestures :
      (c : Call D) (s : Pointer D) (is : List (Item D))
      → (let t = (perform c s).1 in Gestures t.pointer t.position t.active is)
      → Gestures s.pointer s.position s.active ((perform c s).0 ++ is)
  unfolding perform enter motion leave capability_lost primary_button
  perform-Gestures (enters x y) s is h = ground arith
  perform-Gestures (moves x y) s is h = ground arith
  perform-Gestures leaves s is h = ground arith
  perform-Gestures loses s is h = ground arith
  perform-Gestures (buttons pressed) s is h = ground arith

  run-Gestures_from :
      (s : Pointer D) (cs : List (Call D)) → Gestures s.pointer s.position s.active (run s cs)
  unfolding run
  run-Gestures_from s [] = tt
  run-Gestures_from s (c ∷ cs) =
      perform-Gestures c s (run (perform c s).1 cs) (run-Gestures_from (perform c s).1 cs)

  -- Whatever the calls and their order, the events of a new pointer make up whole gestures, the last
  -- of which may still be open.
  pub run-Gestures :
      (origin : Offset D) (id : ℤ) {s : Pointer D} (cs : List (Call D))
      → make origin id ≡ ok s
      → Gestures id origin false (run s cs)
  unfolding make
  run-Gestures origin id {s} cs h = ground (arith, run-Gestures_from s cs)
