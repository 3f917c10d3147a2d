-- ===== src/Input/Arena/History.antt =====
-- Histories of calls of the arena, and what a member is told over them.
use dui.Base.Assoc.{find, contains, count, find-erase, find-put, find-nil, count-append}
use dui.Input.Arena.{
  ArenaState, Notice, Arena, init, add, close, accept, reject, sweep, cancel, state_or_new,
}
use dui.Input.Arena.Verdicts.{tally, tally-append}
use dui.Input.Arena.Invariant.{Inv, Effect, unchanged, ended, goes_on, MaybeContest, Effect-Inv}
use dui.Input.Arena.Calls.{close-Effect, accept-Effect, reject-Effect, sweep-Effect, cancel-Effect}
use dui.Input.Arena.Additions.{add-AddCases, add-Inv}
use dui.Base.{
  ℕ, ◌+◌, ◌≤◌, ◌≡◌, refl, ◌≢◌, ◌⊎◌, inl, inr, true, false, ◌&&◌, Option, none, some, List, [], ◌∷◌,
  arith, ◌==◌, if◌then◌else◌, Bool-cases,
}
use dui.Base.Outcome.{M, Result, ok, Error}

pub data Call : Type 0 where
  adds : ℕ → Option ℕ → Call
  closes sweeps cancels : ℕ → Call
  accepts rejects : ℕ → ℕ → Call

unfoldable pub perform : (Notice → Option Error) → Call → M Arena (Unit {0})
perform throws (adds p m) = add p m
perform throws (closes p) = close throws p
perform throws (accepts p m) = accept throws p m
perform throws (rejects p m) = reject throws p m
perform throws (sweeps p) = sweep throws p
perform throws (cancels p) = cancel throws p

-- How often the member competes for the pointer.
abbrev pub held_in : ℕ → Option ArenaState → ℕ
held_in m none = 0
held_in m (some a) = count m a.members

abbrev pub held : ℕ → ℕ → Arena → ℕ
held p m s = held_in m (find p s.arenas)

-- Whether the call added the member to the arena of the pointer.
abbrev pub admits : ℕ → ℕ → Call → Result (Unit {0}) → ℕ
admits p m (adds q (some n)) (ok u) = if q == p && n == m then 1 else 0
admits p m c r = 0

unfoldable pub run : (Notice → Option Error) → Arena → List Call → Arena
run throws s [] = s
run throws s (c ∷ cs) = run throws (perform throws c s).1 cs

unfoldable pub admitted : (Notice → Option Error) → ℕ → ℕ → Arena → List Call → ℕ
admitted throws p m s [] = 0
admitted throws p m s (c ∷ cs) =
    admits p m c (perform throws c s).0 + admitted throws p m (perform throws c s).1 cs

Effect-conserves :
    (p : ℕ) (s t : Arena)
    → Effect p s t
    → (q m : ℕ) → tally q m t.notices + held q m t ≡ tally q m s.notices + held q m s
Effect-conserves p s t (unchanged e) q m = rw e refl
Effect-conserves p s t (ended a ns f h e) q m =
    rw (e, find-erase p q s.arenas) (ground (arith, tally-append q m s.notices ns, h q m, f))
Effect-conserves p s t (goes_on a b ns f c h e) q m =
    rw (e, find-put p q b s.arenas) (ground (arith, tally-append q m s.notices ns, h q m, f))

abbrev pub pointer_of : Call → ℕ
pointer_of (adds p m) = p
pointer_of (closes p) = p
pointer_of (accepts p m) = p
pointer_of (rejects p m) = p
pointer_of (sweeps p) = p
pointer_of (cancels p) = p

-- add sends no notices, and a member is there once more exactly if it was admitted.
add_conserves :
    (p n : ℕ) (s : Arena) (q m : ℕ)
    → (tally q m (add p (some n) s).1.notices ≡ tally q m s.notices)
      × (held q m (add p (some n) s).1
          ≡ held q m s + admits q m (adds p (some n)) (add p (some n) s).0)
add_conserves p n s q m = elim (add-AddCases p n s) [
  | inl (e, r) ↦ rw r (refl, omega arith)
  | inr (inl (a, f, r)) ↦ rw (r, find-put p q a s.arenas) (refl, ground arith)
  | inr (inr (e, f, r)) ↦
      rw (r, find-put p q _ s.arenas)
        (refl, ground (arith, count-append m (state_or_new (find p s.arenas)).members (n ∷ [])))
]

init-Inv : Inv init
unfolding init
init-Inv p = rw (find-nil ArenaState p) tt

held_once : (o : Option ArenaState) (m : ℕ) → MaybeContest o → held_in m o ≤ 1
held_once none m c = omega arith
held_once (some a) m c = c.single m

module _ (throws : Notice → Option Error) where
  -- A call on a pointer that is being resolved changes nothing.
  pub resolving_blocks :
      (c : Call) (s : Arena)
      → contains (pointer_of c) s.resolving ≡ true
      → (perform throws c s).1 ≡ s
  unfolding perform add close accept reject sweep cancel
  resolving_blocks (adds p none) s h = refl
  resolving_blocks (adds p (some m)) s h = ground arith
  resolving_blocks (closes p) s h = ground arith
  resolving_blocks (accepts p m) s h = ground arith
  resolving_blocks (rejects p m) s h = ground arith
  resolving_blocks (sweeps p) s h = ground arith
  resolving_blocks (cancels p) s h = ground arith

  pub call-Effect :
      (c : Call) (s : Arena)
      → Inv s
      → Effect (pointer_of c) s (perform throws c s).1 ⊎ ((p : ℕ) × (n : ℕ) × (c ≡ adds p (some n)))
  unfolding perform add
  call-Effect c s v = elim (Bool-cases (contains (pointer_of c) s.resolving)) [
    | inl busy ↦ inl (unchanged (resolving_blocks c s busy))
    | inr free ↦ go c s v free
  ]
    where
      go :
          (c : Call) (s : Arena)
          → Inv s
          → contains (pointer_of c) s.resolving ≡ false
          → Effect (pointer_of c) s (perform throws c s).1
            ⊎ ((p : ℕ) × (n : ℕ) × (c ≡ adds p (some n)))
      go (adds p none) s v free = inl (unchanged refl)
      go (adds p (some n)) s v free = inr (p, n, refl)
      go (closes p) s v free = inl (close-Effect throws p s free v)
      go (accepts p m) s v free = inl (accept-Effect throws p s free m v)
      go (rejects p m) s v free = inl (reject-Effect throws p s free m v)
      go (sweeps p) s v free = inl (sweep-Effect throws p s free v)
      go (cancels p) s v free = inl (cancel-Effect throws p s free)

  not_add :
      (c : Call) (s : Arena) (q m : ℕ)
      → Inv s
      → ((p n : ℕ) → c ≢ adds p (some n))
      → tally q m (perform throws c s).1.notices + held q m (perform throws c s).1
        ≡ tally q m s.notices + held q m s
  not_add c s q m v h = elim (call-Effect c s v) [
    | inl e ↦ Effect-conserves (pointer_of c) s (perform throws c s).1 e q m
    | inr (p, n, e) ↦ absurd (h p n e)
  ]

  -- One call: the members that it admits are told their fate or compete.
  perform_conserves :
      (c : Call) (s : Arena) (q m : ℕ)
      → Inv s
      → tally q m (perform throws c s).1.notices + held q m (perform throws c s).1
        ≡ tally q m s.notices + held q m s + admits q m c (perform throws c s).0
  perform_conserves (adds p none) s q m v = unfold perform add in omega arith
  perform_conserves (adds p (some n)) s q m v =
      unfold perform in omega (arith, add_conserves p n s q m)
  perform_conserves (closes p) s q m v = omega (arith, not_add (closes p) s q m v (λ p n e. cc))
  perform_conserves (accepts p k) s q m v =
      omega (arith, not_add (accepts p k) s q m v (λ p n e. cc))
  perform_conserves (rejects p k) s q m v =
      omega (arith, not_add (rejects p k) s q m v (λ p n e. cc))
  perform_conserves (sweeps p) s q m v = omega (arith, not_add (sweeps p) s q m v (λ p n e. cc))
  perform_conserves (cancels p) s q m v = omega (arith, not_add (cancels p) s q m v (λ p n e. cc))

  pub perform-Inv : (c : Call) (s : Arena) → Inv s → Inv (perform throws c s).1
  perform-Inv c s v = elim (call-Effect c s v) [
    | inl e ↦ Effect-Inv (pointer_of c) s (perform throws c s).1 e v
    | inr (p, n, e) ↦ rw e (unfold perform in add-Inv p n s v)
  ]

  run_conserves_from :
      (s : Arena) (cs : List Call) (q m : ℕ)
      → Inv s
      → tally q m (run throws s cs).notices + held q m (run throws s cs)
        ≡ tally q m s.notices + held q m s + admitted throws q m s cs
  unfolding run admitted
  run_conserves_from s [] q m v = omega arith
  run_conserves_from s (c ∷ cs) q m v = omega (
    arith,
    perform_conserves c s q m v,
    run_conserves_from (perform throws c s).1 cs q m (perform-Inv c s v),
  )

  run-Inv_from : (s : Arena) (cs : List Call) → Inv s → Inv (run throws s cs)
  unfolding run
  run-Inv_from s [] v = v
  run-Inv_from s (c ∷ cs) v = run-Inv_from (perform throws c s).1 cs (perform-Inv c s v)

  -- Whatever the calls, and whichever callbacks throw: each arena has a member, two once it is
  -- closed, no member twice, and an early winner only before it is closed and among its members.
  pub run-Inv : (cs : List Call) → Inv (run throws init cs)
  run-Inv cs = run-Inv_from init cs init-Inv

  -- Whatever the calls, and whichever callbacks throw: a member has been told its fate once for each
  -- time that it was added, but for the one time that it may still compete.
  pub run_conserves :
      (cs : List Call) (p m : ℕ)
      → (tally p m (run throws init cs).notices + held p m (run throws init cs)
          ≡ admitted throws p m init cs)
        × (held p m (run throws init cs) ≤ 1)
  run_conserves cs p m = (
    unfold init in ground (arith, run_conserves_from init cs p m init-Inv, find-nil ArenaState p),
    held_once (find p (run throws init cs).arenas) m (run-Inv cs p),
  )
