-- ===== src/Wayland/Repeat/Generation.antt =====
-- The calls of WaylandRepeatState, and the generation that they advance.
use dui.Wayland.Repeat.{Repeat, configure, key_down, key_up, cancel, delivery_count}
use dui.Base.Int.{ℤ}
use dui.Base.{ℕ, ◌<◌, ◌≡◌, refl, ◌⊎◌, inl, Bool, List, [], ◌∷◌, arith}
use dui.Base.Outcome.{M, throw, Error}

pub data Call : Type 0 where
  configures : ℤ → ℤ → ℤ → Call
  downs : ℕ → Bool → ℤ → Call
  ups : ℕ → Call
  cancels : Call

unfoldable pub perform : Call → M Repeat (Unit {0})
perform (configures rate delay now) = configure rate delay now
perform (downs key repeatable now) = key_down key repeatable now
perform (ups key) = key_up key
perform cancels = cancel

unfoldable pub run : Repeat → List Call → Repeat
run s [] = s
run s (c ∷ cs) = run (perform c s).1 cs

-- A call changes nothing, or takes a new generation.
perform-generation :
    (c : Call) (s : Repeat) → ((perform c s).1 ≡ s) ⊎ (s.generation < (perform c s).1.generation)
unfolding perform configure key_down key_up cancel
perform-generation (configures rate delay now) s = ground arith
perform-generation (downs key repeatable now) s = ground arith
perform-generation (ups key) s = ground arith
perform-generation cancels s = ground arith

run-generation :
    (s : Repeat) (cs : List Call) → (run s cs ≡ s) ⊎ (s.generation < (run s cs).generation)
unfolding run
run-generation s [] = inl refl
run-generation s (c ∷ cs) =
    ground (arith, perform-generation c s, run-generation (perform c s).1 cs)

-- A call that throws changes nothing.
pub perform_throw_keeps :
    (c : Call) (s : Repeat) {e : Error} → (perform c s).0 ≡ throw e → (perform c s).1 ≡ s
unfolding perform configure key_down key_up cancel
perform_throw_keeps (configures rate delay now) s h = ground arith
perform_throw_keeps (downs key repeatable now) s h = ground arith
perform_throw_keeps (ups key) s h = ground arith
perform_throw_keeps cancels s h = ground arith

-- Whatever happens after a timer is armed: if it delivers, the state is the one it was armed in.
pub delivery_fresh :
    (s : Repeat) (cs : List Call) (expirations : ℕ)
    → 0 < delivery_count expirations s.generation (run s cs)
    → run s cs ≡ s
unfolding delivery_count
delivery_fresh s cs n h = ground (arith, run-generation s cs)
