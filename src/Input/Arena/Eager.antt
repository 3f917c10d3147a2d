-- ===== src/Input/Arena/Eager.antt =====
-- The member that accepted first, over the calls before its arena closes.
use dui.Base.{
  none, some, ◌≢◌, ℕ, ◌<◌, ◌≡◌, refl, sym, subst, inl, inr, Bool, true, false, ◌&&◌, not, Option,
  some, List, [], ◌∷◌, arith, ◌==◌, Bool-cases,
}
use dui.Base.Outcome.{Error}
use dui.Base.Assoc.{
  find, put, contains, count, erase_first, contains-count, count-erase_first, find-erase, find-put,
}
use dui.Input.Arena.{
  ArenaState, Notice, Arena, accept, reject, reject_members, add, is_winner, state_or_new,
}
use dui.Input.Arena.Verdicts.{resolve_lem}
use dui.Input.Arena.{resolve}
use dui.Input.Arena.Invariant.{IsMember, Inv, Effect, unchanged, ended, goes_on}
use dui.Input.Arena.Calls.{contest}
use dui.Input.Arena.Additions.{add-AddCases, with_member}
use dui.Input.Arena.History.{
  call-Effect, perform-Inv, perform, run, pointer_of, Call, adds, closes, sweeps, cancels, accepts,
  rejects,
}

-- The calls that neither end the arena of the pointer nor withdraw the member from it.
abbrev pub leaves : ℕ → ℕ → Call → Bool
leaves p m (adds q n) = true
leaves p m (accepts q k) = true
leaves p m (rejects q k) = not (q == p && k == m)
leaves p m (closes q) = not (q == p)
leaves p m (sweeps q) = not (q == p)
leaves p m (cancels q) = not (q == p)

abbrev pub all_leave : ℕ → ℕ → List Call → Bool
all_leave p m [] = true
all_leave p m (c ∷ cs) = leaves p m c && all_leave p m cs

-- The member is the early winner of the arena of the pointer, which is open.
abbrev pub IsLed : ℕ → ℕ → Arena → Type 0
IsLed p m s =
    (a : ArenaState) × (find p s.arenas ≡ some a)
    × (a.closed ≡ false)
    × (a.eager_winner ≡ some m)
    × (contains p s.resolving ≡ false)

-- A call on another pointer.
Effect-IsLed :
    (q p m : ℕ) (s t : Arena) → (q == p) ≡ false → Effect q s t → IsLed p m s → IsLed p m t
Effect-IsLed q p m s t ne (unchanged e) l = subst (IsLed p m) (sym e) l
Effect-IsLed q p m s t ne (ended a ns f h e) (b, g, opened, first, free) =
    rw e (b, ground (arith, find-erase q p s.arenas), opened, first, free)
Effect-IsLed q p m s t ne (goes_on a c ns f k h e) (b, g, opened, first, free) =
    rw e (b, ground (arith, find-put q p c s.arenas), opened, first, free)

add-IsLed : (q p m n : ℕ) (s : Arena) → IsLed p m s → IsLed p m (add q (some n) s).1
add-IsLed q p m n s (b, g, opened, first, free) =
    let joined = with_member (state_or_new (find q s.arenas)) n in
    elim (add-AddCases q n s) [
      | inl (e, r) ↦ rw r (b, g, opened, first, free)
      | inr (inl (a, f, r)) ↦ rw r (b, ground (arith, find-put q p a s.arenas), opened, first, free)
      | inr (inr (joins, fits, r)) ↦ elim (Bool-cases (q == p)) [
        | inl same ↦
            rw r
              (with_member b n, ground (arith, find-put q p joined s.arenas), opened, first, free)
        | inr other ↦ rw r (b, ground (arith, find-put q p joined s.arenas), opened, first, free)
      ]
    ]

module _ (throws : Notice → Option Error) (p m : ℕ) (s : Arena) where
  -- Another member that accepts is too late.
  accept-IsLed : (k : ℕ) → IsLed p m s → IsLed p m (accept throws p k s).1
  unfolding accept
  accept-IsLed k (b, g, opened, first, free) =
      let late : (accept throws p k s).1 ≡ s = ground arith in rw late (b, g, opened, first, free)

  -- What reject leaves of the arena of a member that is not the early winner.
  goes_on-IsLed :
      (b : ArenaState) (ns : List Notice)
      → b.closed ≡ false
      → b.eager_winner ≡ some m
      → contains p s.resolving ≡ false
      → IsLed p m (resolve throws p ns (record s { arenas = put p b s.arenas })).1
  goes_on-IsLed b ns opened first free =
      rw (resolve_lem throws p ns (record s { arenas = put p b s.arenas }) free)
        (b, ground (arith, find-put p p b s.arenas), opened, first, free)

  reject_members-IsLed :
      (k : ℕ) (a : ArenaState) (ms : List ℕ)
      → contains p s.resolving ≡ false
      → a.closed ≡ false
      → a.eager_winner ≡ some m
      → (m == k) ≡ false
      → 0 < count m ms
      → IsLed p m (reject_members throws p k a (is_winner a.eager_winner k) ms s).1
  unfolding reject_members
  reject_members-IsLed k a [] free opened first ne here = absurd (omega (arith, here))
  reject_members-IsLed k a (x ∷ []) free opened first ne here =
      rw (opened, first, ne) (goes_on-IsLed _ _ refl refl free)
  reject_members-IsLed k a (x ∷ y ∷ ms) free opened first ne here =
      rw (first, ne) (goes_on-IsLed _ _ opened refl free)

  reject-IsLed :
      (k : ℕ) → Inv s → (m == k) ≡ false → IsLed p m s → IsLed p m (reject throws p k s).1
  unfolding reject
  reject-IsLed k v ne (b, g, opened, first, free) = elim (Bool-cases (contains k b.members)) [
    | inl here ↦
        let there : 0 < count m b.members =
          subst (λ o. IsMember o b.members) first (contest throws p s free b v g).eager in
        rw (free, g, here, reject)
          (reject_members-IsLed k b (erase_first k b.members) free opened first ne
            (ground (arith, count-erase_first k m b.members, contains-count k b.members, there)))
    | inr gone ↦
        let late : (reject throws p k s).1 ≡ s = ground arith in rw late (b, g, opened, first, free)
  ]

module _ (throws : Notice → Option Error) (p m : ℕ) where
  other-IsLed :
      (c : Call) (s : Arena)
      → Inv s
      → (pointer_of c == p) ≡ false
      → ((q n : ℕ) → c ≢ adds q (some n))
      → IsLed p m s
      → IsLed p m (perform throws c s).1
  other-IsLed c s v ne h l = elim (call-Effect throws c s v) [
    | inl e ↦ Effect-IsLed (pointer_of c) p m s (perform throws c s).1 ne e l
    | inr (q, n, e) ↦ absurd (h q n e)
  ]

  on_pointer :
      (q : ℕ) (f : ℕ → Arena)
      → ((q == p) ≡ true → IsLed p m (f p))
      → ((q == p) ≡ false → IsLed p m (f q))
      → IsLed p m (f q)
  on_pointer q f same other = elim (Bool-cases (q == p)) [
    | inl e ↦ subst (λ x. IsLed p m (f x)) (ground (arith, e)) (same e)
    | inr e ↦ other e
  ]

  perform-IsLed :
      (c : Call) (s : Arena)
      → Inv s
      → leaves p m c ≡ true
      → IsLed p m s
      → IsLed p m (perform throws c s).1
  perform-IsLed (adds q none) s v h l = unfold perform add in l
  perform-IsLed (adds q (some n)) s v h l = unfold perform in add-IsLed q p m n s l
  perform-IsLed (accepts q k) s v h l =
      on_pointer q (λ x. (perform throws (accepts x k) s).1)
        (λ same. unfold perform in accept-IsLed throws p m s k l)
        (λ other. other-IsLed (accepts q k) s v other (λ x n e. cc) l)
  perform-IsLed (rejects q k) s v h l =
      on_pointer q (λ x. (perform throws (rejects x k) s).1)
        (λ same. unfold perform in reject-IsLed throws p m s k v (ground (arith, h, same)) l)
        (λ other. other-IsLed (rejects q k) s v other (λ x n e. cc) l)
  perform-IsLed (closes q) s v h l = other-IsLed (closes q) s v (ground (arith, h)) (λ x n e. cc) l
  perform-IsLed (sweeps q) s v h l = other-IsLed (sweeps q) s v (ground (arith, h)) (λ x n e. cc) l
  perform-IsLed (cancels q) s v h l =
      other-IsLed (cancels q) s v (ground (arith, h)) (λ x n e. cc) l

  pub run-IsLed :
      (s : Arena) (cs : List Call)
      → Inv s
      → all_leave p m cs ≡ true
      → IsLed p m s
      → IsLed p m (run throws s cs)
  unfolding run
  run-IsLed s [] v h l = l
  run-IsLed s (c ∷ cs) v h l =
      run-IsLed (perform throws c s).1 cs (perform-Inv throws c s v) (ground (arith, h))
        (perform-IsLed c s v (ground (arith, h)) l)
