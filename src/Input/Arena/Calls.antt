-- ===== src/Input/Arena/Calls.antt =====
-- What each call of the arena does, as an effect on the arena of its pointer.
use mathlib.Core.List.{append-nil}
use dui.Base.Assoc.{
  erase_first, count-erase_first, contains-count, erase-put, find, erase, put, contains, without,
  count, find-put, count-without, contains-count,
}
use dui.Input.Arena.{
  resolve, left_of, is_winner, reject, reject_members, ArenaState, Notice, accepted, rejected,
  Arena, resolve_winner, close, accept, sweep, cancel, close_members, sweep_members,
}
use dui.Input.Arena.Verdicts.{tally-rejected, resolve_lem}
use dui.Input.Arena.Invariant.{
  MaybeContest, Inv, Contest, Effect, unchanged, ended, goes_on, Settles, IsMember,
}
use dui.Base.{
  if_neg, ◌≤◌, length, if◌then◌else◌, ap, ℕ, ◌<◌, ◌≡◌, refl, subst, inl, inr, true, false, Option,
  none, some, List, [], ◌∷◌, map, arith, Bool-cases, Option-cases,
}
use dui.Base.Outcome.{Error}

Settles-winner :
    (p w : ℕ) (ms : List ℕ)
    → count w ms ≡ 1
    → Settles p ms [] (accepted p w ∷ map (rejected p) (without w ms))
Settles-winner p w ms h q m =
    ground (arith, tally-rejected p q m (without w ms), count-without w m ms)

-- In a contest every member is there once.
count_one : (a : ArenaState) (m : ℕ) → Contest a → 0 < count m a.members → count m a.members ≡ 1
count_one a m c h = omega (arith, c.single m)

module _ (throws : Notice → Option Error) (p : ℕ) (s : Arena)
    (free : contains p s.resolving ≡ false) where
  resolve_winner-Effect :
      (w : ℕ) (a : ArenaState)
      → find p s.arenas ≡ some a
      → count w a.members ≡ 1
      → Effect p s (resolve_winner throws p w s).1
  unfolding resolve_winner
  resolve_winner-Effect w a f h =
      ended a (accepted p w ∷ map (rejected p) (without w a.members)) f
        (Settles-winner p w a.members h)
        (rw (f, resolve_winner)
          (resolve_lem throws p _ (record s { arenas = erase p s.arenas }) free))

  -- The same once `closed` is set.
  close_winner-Effect :
      (w : ℕ) (a : ArenaState)
      → find p s.arenas ≡ some a
      → count w a.members ≡ 1
      → Effect p s
          (resolve_winner throws p w
            (record s { arenas = put p (record a { closed = true }) s.arenas })).1
  unfolding resolve_winner
  close_winner-Effect w a f h =
      let b = record a { closed = true } in
      let t = record s { arenas = put p b s.arenas } in
      let g : find p t.arenas ≡ some b = ground (arith, find-put p p b s.arenas) in
      ended a (accepted p w ∷ map (rejected p) (without w a.members)) f
        (Settles-winner p w a.members h)
        (rw (g, resolve_winner)
          (rw
            (
              resolve_lem throws p _ (record t { arenas = erase p t.arenas }) free,
              erase-put p b s.arenas,
            )
            refl))

  close_members-Effect :
      (a : ArenaState) (ms : List ℕ)
      → find p s.arenas ≡ some a
      → Contest a
      → a.eager_winner ≡ none
      → a.members ≡ ms
      → Effect p s
          (close_members throws p ms
            (record s { arenas = put p (record a { closed = true }) s.arenas })).1
  unfolding close_members
  close_members-Effect a [] f c n e = absurd (ground (arith, c.some_left))
  close_members-Effect a (m ∷ []) f c n e =
      close_winner-Effect m a f (count_one a m c (rw e (ground arith)))
  close_members-Effect a (m ∷ k ∷ ms) f c n e =
      goes_on a (record a { closed = true }) [] f
        (record {
          single = c.single;
          eager = rw n tt;
          some_left = c.some_left;
          contested = λ _. (rw e (omega arith), n);
        })
        (λ q m. omega arith) (ground (arith, append-nil s.notices))

  pub contest : (a : ArenaState) → Inv s → find p s.arenas ≡ some a → Contest a
  contest a v f = subst MaybeContest f (v p)

  pub close-Effect : Inv s → Effect p s (close throws p s).1
  unfolding close
  close-Effect v = elim (Option-cases (find p s.arenas)) [
    | inl f ↦ unchanged (ground arith)
    | inr (a, f) ↦ elim (Option-cases a.eager_winner) [
      | inl g ↦ rw (free, f, g, close) (close_members-Effect a a.members f (contest a v f) g refl)
      | inr (w, g) ↦
          rw (free, f, g, close)
            (close_winner-Effect w a f (
              count_one a w (contest a v f)
                (subst (λ o. IsMember o a.members) g (contest a v f).eager)))
    ]
  ]

  pub accept-Effect : (m : ℕ) → Inv s → Effect p s (accept throws p m s).1
  unfolding accept
  accept-Effect m v = elim (Option-cases (find p s.arenas)) [
    | inl f ↦ unchanged (ground arith)
    | inr (a, f) ↦ elim (Bool-cases (contains m a.members)) [
      | inl here ↦ elim (Bool-cases a.closed) [
        | inl closed ↦
            rw (free, f, here, closed, accept)
              (resolve_winner-Effect m a f
                (count_one a m (contest a v f) (ground (arith, contains-count m a.members))))
        | inr opened ↦ elim (Option-cases a.eager_winner) [
          | inl g ↦
              goes_on a (record a { eager_winner = some m }) [] f
                (record {
                  single = (contest a v f).single;
                  eager = ground (arith, contains-count m a.members);
                  some_left = (contest a v f).some_left;
                  contested = λ e. absurd (ground arith);
                })
                (λ q k. omega arith) (ground (arith, append-nil s.notices))
          | inr (w, g) ↦ unchanged (ground arith)
        ]
      ]
      | inr gone ↦ unchanged (ground arith)
    ]
  ]

  sweep_members-Effect :
      (a : ArenaState) (ms : List ℕ)
      → find p s.arenas ≡ some a
      → Contest a
      → a.members ≡ ms
      → Effect p s (sweep_members throws p ms s).1
  unfolding sweep_members
  sweep_members-Effect a [] f c e = absurd (ground (arith, c.some_left))
  sweep_members-Effect a (m ∷ ms) f c e =
      resolve_winner-Effect m a f (count_one a m c (rw e (ground arith)))

  pub sweep-Effect : Inv s → Effect p s (sweep throws p s).1
  unfolding sweep
  sweep-Effect v = elim (Option-cases (find p s.arenas)) [
    | inl f ↦ unchanged (ground arith)
    | inr (a, f) ↦ rw (free, f, sweep) (sweep_members-Effect a a.members f (contest a v f) refl)
  ]

  pub cancel-Effect : Effect p s (cancel throws p s).1
  unfolding cancel
  cancel-Effect = elim (Option-cases (find p s.arenas)) [
    | inl f ↦ unchanged (ground arith)
    | inr (a, f) ↦
        ended a (map (rejected p) a.members) f
          (λ q m. ground (arith, tally-rejected p q m a.members))
          (rw (free, f, cancel)
            (resolve_lem throws p _ (record s { arenas = erase p s.arenas }) free))
  ]

  -- Rejecting a member leaves the others as they were.
  module _ (m : ℕ) (a : ArenaState) (f : find p s.arenas ≡ some a) (c : Contest a)
      (h : 0 < count m a.members) where
    Settles-reject :
        (ms : List ℕ) → erase_first m a.members ≡ ms → Settles p a.members ms (rejected p m ∷ [])
    Settles-reject ms e q k = ground (arith, count-erase_first m k a.members h, ap (count k) e)

    eager_left :
        (ms : List ℕ) (o : Option ℕ)
        → erase_first m a.members ≡ ms
        → IsMember o a.members
        → IsMember (if is_winner o m then none else o) ms
    eager_left ms none e i = tt
    eager_left ms (some w) e i = ground (arith, count-erase_first m w a.members h, ap (count w) e)

    left_of-Contest :
        (ms : List ℕ)
        → erase_first m a.members ≡ ms
        → 0 < length ms
        → (a.closed ≡ true → 2 ≤ length ms)
        → Contest (left_of a (is_winner a.eager_winner m) ms)
    left_of-Contest ms e l two = record {
      single = λ k. omega (arith, count-erase_first m k a.members h, ap (count k) e, c.single k);
      eager = eager_left ms a.eager_winner e c.eager;
      some_left = l;
      contested = λ shut. (two shut, ground (arith, c.contested shut));
    }

    reject_goes_on :
        (ms : List ℕ)
        → erase_first m a.members ≡ ms
        → 0 < length ms
        → (a.closed ≡ true → 2 ≤ length ms)
        → Effect p s
            (resolve throws p
              (rejected p m ∷ [])
              (record s { arenas = put p (left_of a (is_winner a.eager_winner m) ms) s.arenas })).1
    reject_goes_on ms e l two =
        goes_on a (left_of a (is_winner a.eager_winner m) ms) (rejected p m ∷ []) f
          (left_of-Contest ms e l two) (Settles-reject ms e) (resolve_lem throws p _ _ free)

    reject_members-Effect :
        (ms : List ℕ)
        → erase_first m a.members ≡ ms
        → Effect p s (reject_members throws p m a (is_winner a.eager_winner m) ms s).1
    unfolding reject_members
    reject_members-Effect [] e =
        ended a (rejected p m ∷ []) f (Settles-reject [] e) (resolve_lem throws p _ _ free)
    reject_members-Effect (x ∷ []) e = elim (Bool-cases a.closed) [
      | inl shut ↦ rw shut (
          ended a (rejected p m ∷ accepted p x ∷ []) f
            (λ q k. ground (arith, Settles-reject (x ∷ []) e q k)) (resolve_lem throws p _ _ free))
      | inr opened ↦
          rw (if_neg a.closed _ _ opened)
            (reject_goes_on (x ∷ []) e (omega arith) (λ shut. absurd (ground arith)))
    ]
    reject_members-Effect (x ∷ y ∷ ms) e =
        reject_goes_on (x ∷ y ∷ ms) e (omega arith) (λ _. omega arith)

  pub reject-Effect : (m : ℕ) → Inv s → Effect p s (reject throws p m s).1
  unfolding reject
  reject-Effect m v = elim (Option-cases (find p s.arenas)) [
    | inl f ↦ unchanged (ground arith)
    | inr (a, f) ↦ elim (Bool-cases (contains m a.members)) [
      | inl here ↦
          rw (free, f, here, reject)
            (reject_members-Effect m a f (contest a v f)
              (ground (arith, contains-count m a.members)) (erase_first m a.members) refl)
      | inr gone ↦ unchanged (ground arith)
    ]
  ]
