-- ===== src/Input/Arena/Verdicts.antt =====
-- The verdicts that the members get: counting the notices of a member, and what one call does.
use mathlib.Core.List.{append-nil, append_assoc}
use dui.Base.Assoc.{contains, count, without_added}
use dui.Input.Arena.{Notice, accepted, rejected, Arena, deliver, resolve}
use dui.Base.{
  ℕ, ◌+◌, ◌≡◌, refl, sym, ◌∙◌, false, ◌&&◌, Option, none, List, [], ◌∷◌, ◌++◌, map, arith, ◌==◌,
  if◌then◌else◌,
}
use dui.Base.Outcome.{Error}

-- How many of the notices go to member `m` of the arena of pointer `p`.
abbrev pub goes_to : ℕ → ℕ → Notice → ℕ
goes_to p m (accepted q n) = if q == p && n == m then 1 else 0
goes_to p m (rejected q n) = if q == p && n == m then 1 else 0

abbrev pub tally : ℕ → ℕ → List Notice → ℕ
tally p m [] = 0
tally p m (n ∷ ns) = goes_to p m n + tally p m ns

-- How many members have won the pointer.
abbrev pub wins : ℕ → List Notice → ℕ
wins p [] = 0
wins p (accepted q n ∷ ns) = (if q == p then 1 else 0) + wins p ns
wins p (rejected q n ∷ ns) = wins p ns

pub tally-append :
    (p m : ℕ) (xs ys : List Notice) → tally p m (xs ++ ys) ≡ tally p m xs + tally p m ys
tally-append p m [] ys = omega arith
tally-append p m (x ∷ xs) ys = omega (arith, tally-append p m xs ys)

pub tally-rejected :
    (p q m : ℕ) (ms : List ℕ) → tally q m (map (rejected p) ms) ≡ (if p == q then count m ms else 0)
tally-rejected p q m [] = ground arith
tally-rejected p q m (n ∷ ms) = ground (arith, tally-rejected p q m ms)

pub wins-rejected : (p q : ℕ) (ms : List ℕ) → wins q (map (rejected p) ms) ≡ 0
wins-rejected p q [] = refl
wins-rejected p q (n ∷ ms) = wins-rejected p q ms

module _ (throws : Notice → Option Error) where
  -- All the callbacks are called, whichever of them throw.
  deliver_sent :
      (ns sent : List Notice) (f : Option Error) → (deliver throws ns f sent).1 ≡ sent ++ ns
  unfolding deliver
  deliver_sent [] sent f = sym (append-nil sent)
  deliver_sent (n ∷ ns) sent f = deliver_sent ns (sent ++ n ∷ []) _ ∙ append_assoc sent (n ∷ []) ns

  pub resolve_lem :
      (p : ℕ) (ns : List Notice) (s : Arena)
      → contains p s.resolving ≡ false
      → (resolve throws p ns s).1 ≡ record s { notices = s.notices ++ ns }
  unfolding resolve
  resolve_lem p ns s h =
      ground (arith, deliver_sent ns s.notices none, without_added p s.resolving h)
