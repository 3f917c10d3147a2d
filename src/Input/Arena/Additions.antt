-- ===== src/Input/Arena/Additions.antt =====
-- add: the ways in which it ends, and the arena with one more member.
use dui.Base.Assoc.{find, put, contains, find-put, count-append, contains-count}
use dui.Input.Arena.{ArenaState, Arena, add, state_or_new}
use dui.Input.Arena.Invariant.{Inv, Contest, IsMember, MaybeContest}
use dui.Base.{
  ℕ, ◌≡◌, refl, subst, ◌⊎◌, inl, inr, false, ◌||◌, Option, none, some, List, [], ◌∷◌, ◌++◌, arith,
  Bool-cases, Option-cases, length-append,
}
use dui.Base.Outcome.{Result, ok, throw, Error, logic_error}

-- The arena of a pointer with one more member.
abbrev pub with_member : ArenaState → ℕ → ArenaState
with_member a m = record a { members = a.members ++ m ∷ [] }

-- add refuses, and at most writes back what was there; or the member joins.
abbrev pub AddCases : ℕ → ℕ → Arena → Result (Unit {0}) × Arena → Type 0
AddCases p m s r =
    ((e : Error) × (r ≡ (throw e, s)))
    ⊎ ((a : ArenaState) × (find p s.arenas ≡ some a)
        × (r ≡ (throw logic_error, record s { arenas = put p a s.arenas })))
    ⊎ (((state_or_new (find p s.arenas)).closed ≡ false)
        × (contains m (state_or_new (find p s.arenas)).members ≡ false)
        × (r ≡ (
          ok tt,
          record s { arenas = put p (with_member (state_or_new (find p s.arenas)) m) s.arenas },
        )))

pub add-AddCases : (p m : ℕ) (s : Arena) → AddCases p m s (add p (some m) s)
unfolding add contains
add-AddCases p m s = elim (Bool-cases (contains p s.resolving)) [
  | inl busy ↦ inl (logic_error, ground arith)
  | inr free ↦ elim (Option-cases (find p s.arenas)) [
    | inl f ↦ inr (inr (rw f refl, rw f refl, rw (free, f, add) refl))
    | inr (a, f) ↦ elim (Bool-cases (a.closed || contains m a.members)) [
      | inl taken ↦ inr (inl (a, f, rw (free, f, taken, add) refl))
      | inr fits ↦
          inr (inr (rw f (ground arith), rw f (ground arith), rw (free, f, fits, add) refl))
    ]
  ]
]

IsMember-append : (o : Option ℕ) (m : ℕ) (ms : List ℕ) → IsMember o ms → IsMember o (ms ++ m ∷ [])
IsMember-append none m ms h = tt
IsMember-append (some w) m ms h = omega (arith, count-append w ms (m ∷ []))

with_member-Contest :
    (m : ℕ) (o : Option ArenaState)
    → MaybeContest o
    → (state_or_new o).closed ≡ false
    → contains m (state_or_new o).members ≡ false
    → Contest (with_member (state_or_new o) m)
unfolding contains
with_member-Contest m none c e f = record {
  single = λ k. ground arith;
  eager = tt;
  some_left = omega arith;
  contested = λ shut. absurd (ground arith);
}
with_member-Contest m (some a) c e f = record {
  single = λ k.
      ground (arith, count-append k a.members (m ∷ []), contains-count m a.members, c.single k);
  eager = IsMember-append a.eager_winner m a.members c.eager;
  some_left = omega (arith, length-append a.members (m ∷ []));
  contested = λ shut. absurd (ground arith);
}

pub add-Inv : (p m : ℕ) (s : Arena) → Inv s → Inv (add p (some m) s).1
add-Inv p m s v q = elim (add-AddCases p m s) [
  | inl (e, r) ↦ rw r (v q)
  | inr (inl (a, f, r)) ↦
      rw (r, find-put p q a s.arenas) (ground (arith, v q, subst MaybeContest f (v p)))
  | inr (inr (e, f, r)) ↦
      rw (r, find-put p q _ s.arenas)
        (ground (arith, v q, with_member-Contest m (find p s.arenas) (v p) e f))
]
