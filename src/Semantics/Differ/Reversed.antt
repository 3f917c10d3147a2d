-- ===== src/Semantics/Differ/Reversed.antt =====
-- Entries by id, in a list and in its reverse.
use dui.Base.{ℕ, ◌≡◌, refl, ap, not, none, some, List, [], ◌∷◌, ◌++◌, arith, is_some}
use mathlib.Core.List.{reverse, reverse-cons}
use dui.Base.Assoc.{count, count-append}
use dui.Semantics.Tree.{Entry}
use dui.Semantics.Tree.Entries.{ids_of}
use dui.Semantics.Differ.{find_entry, is_new}
use dui.Semantics.Differ.Views.{Distinct, find_entry-count}

module _ {B : Type 0} where
  find_entry-append :
      (k : ℕ) (xs ys : List (Entry B))
      → find_entry k (xs ++ ys)
        ≡ (elim (find_entry k xs) [ none ↦ find_entry k ys | some e ↦ some e ])
  unfolding find_entry
  find_entry-append k [] ys = refl
  find_entry-append k (x ∷ xs) ys = ground (arith, find_entry-append k xs ys)

  ids_of-append : (xs ys : List (Entry B)) → ids_of (xs ++ ys) ≡ ids_of xs ++ ids_of ys
  ids_of-append [] ys = refl
  ids_of-append (x ∷ xs) ys = ap (λ zs. x.head.id ∷ zs) (ids_of-append xs ys)

  pub count-reverse :
      (k : ℕ) (es : List (Entry B)) → count k (ids_of (reverse es)) ≡ count k (ids_of es)
  count-reverse k [] = refl
  count-reverse k (e ∷ es) =
      rw (reverse-cons e es, ids_of-append (reverse es) (e ∷ []))
        (omega (arith, count-append k (ids_of (reverse es)) (e.head.id ∷ []), count-reverse k es))

  pub find_entry-reverse :
      (k : ℕ) (es : List (Entry B)) → Distinct es → find_entry k (reverse es) ≡ find_entry k es
  unfolding find_entry
  find_entry-reverse k [] d = refl
  find_entry-reverse k (e ∷ es) d =
      rw (reverse-cons e es, find_entry-append k (reverse es) (e ∷ []))
        (ground
          (arith, find_entry-reverse k es (λ j. omega (arith, d j)), find_entry-count k es, d k))

  pub is_new_at :
      (es : List (Entry B)) (e : Entry B) (k : ℕ)
      → e.head.id ≡ k
      → is_new es e ≡ not (is_some (find_entry k es))
  unfolding is_new
  is_new_at es e k h = ap (λ j. not (is_some (find_entry j es))) h
