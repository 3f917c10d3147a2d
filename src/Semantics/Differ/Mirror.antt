-- ===== src/Semantics/Differ/Mirror.antt =====
-- SemanticsDiffer::update and clear, told to an adapter.
use dui.Base.{
  ◌∙◌, sym, ap, ℕ, true, ◌≡◌, refl, subst, ◌⊎◌, inl, inr, Bool, none, some, List, [], ◌∷◌, arith,
}
use dui.Base.Outcome.{ok, throw, Error}
use dui.Base.Outcome.{Result-cases}
use mathlib.Core.List.{reverse, append-nil}
use mathlib.Core.Option.{some_inj}
use dui.Semantics.Tree.{Entry, Nodes, list_entries}
use dui.Semantics.Tree.Preorder.{list_entries_iff}
use dui.Semantics.Tree.Entries.{entries_all}
use dui.Semantics.Differ.{
  removed, collect, clear, find_entry, SemanticsChange, SemanticsDiffer, diff, update,
}
use dui.Semantics.Differ.Equal.{Chains}
use dui.Semantics.Differ.Views.{
  apply_all-collect, collected_lem, collected, View, Distinct, apply_all,
}
use dui.Semantics.Differ.Reversed.{find_entry-reverse, count-reverse}
use dui.Semantics.Differ.Applied.{Same-is_some, Agrees, diff_mirrors}

List-cases : {A : Type 0} (xs : List A) → (xs ≡ []) ⊎ ((x : A) × ((ys : List A) × (xs ≡ x ∷ ys)))
List-cases [] = inl refl
List-cases (x ∷ xs) = inr (x, (xs, refl))

module _ {B : Type 0} (bounds_eq : B → B → Bool) where
  -- What a call's changes do to a view: all of them are taken, and the view that is left agrees with
  -- the entries that the call leaves.
  pub record Mirrors (v : View B) (changes : List (SemanticsChange B)) (s : SemanticsDiffer B)
      (next : List (Entry B)) : Type 0 where
    pub after : View B
    pub taken : apply_all changes v ≡ some after
    pub told : Agrees bounds_eq after s.entries
    pub shown : Agrees bounds_eq after next
    pub distinct : Distinct s.entries

  -- A tree is listed and its changes are told, or it is refused and nothing changes.
  abbrev pub Updates : View B → Nodes B → SemanticsDiffer B → Type 0
  Updates v roots s =
      ((x : Error) × ((list_entries roots ≡ throw x) × (update bounds_eq roots s ≡ (throw x, s))))
      ⊎ ((changes : List (SemanticsChange B)) × ((t : SemanticsDiffer B) × ((update bounds_eq roots
                  s
                ≡ (ok changes, t))
              × Mirrors v changes t (entries_all none 0 roots))))

  pub unchanged : (v w : View B) → apply_all [] v ≡ some w → v ≡ w
  unfolding apply_all
  unchanged v w h = some_inj.0 h

  update_throw :
      (roots : Nodes B) (s : SemanticsDiffer B) (x : Error)
      → list_entries roots ≡ throw x
      → update bounds_eq roots s ≡ (throw x, s)
  unfolding update
  update_throw roots s x h = ground (arith, h)

  update_none :
      (roots : Nodes B) (s : SemanticsDiffer B) (next : List (Entry B))
      → list_entries roots ≡ ok next
      → diff bounds_eq s.entries next ≡ []
      → update bounds_eq roots s ≡ (ok [], s)
  unfolding update
  update_none roots s next h e = ground (arith, h, e)

  update_some :
      (roots : Nodes B) (s : SemanticsDiffer B) (next : List (Entry B)) (c : SemanticsChange B)
      (cs : List (SemanticsChange B))
      → list_entries roots ≡ ok next
      → diff bounds_eq s.entries next ≡ c ∷ cs
      → update bounds_eq roots s ≡ (ok (c ∷ cs), record { entries = next })
  unfolding update
  update_some roots s next c cs h e = ground (arith, h, e)

  update_ok :
      (v : View B) (roots : Nodes B) (s : SemanticsDiffer B) (next : List (Entry B))
      → Chains bounds_eq
      → Agrees bounds_eq v s.entries
      → Distinct s.entries
      → list_entries roots ≡ ok next
      → Updates v roots s
  update_ok v roots s next chains agrees old h =
      let (same, tree) = (list_entries_iff roots next).0 h in
      let (w, taken, shown) =
        diff_mirrors bounds_eq s.entries next v old tree.distinct agrees chains in
      let shows : Agrees bounds_eq w (entries_all none 0 roots) =
        subst (λ es. Agrees bounds_eq w es) same shown in
      elim (List-cases (diff bounds_eq s.entries next)) [
        | inl e ↦ inr (
          [],
          (
            s,
            (
              update_none roots s next h e,
              record {
                after = w;
                taken = subst (λ cs. apply_all cs v ≡ some w) e taken;
                told =
                    subst (λ u. Agrees bounds_eq u s.entries)
                      (unchanged v w (subst (λ cs. apply_all cs v ≡ some w) e taken)) agrees;
                shown = shows;
                distinct = old;
              },
            ),
          ),
        )
        | inr (c, (cs, e)) ↦ inr (
          c ∷ cs,
          (
            record { entries = next },
            (
              update_some roots s next c cs h e,
              record {
                after = w;
                taken = subst (λ ds. apply_all ds v ≡ some w) e taken;
                told = shown;
                shown = shows;
                distinct = tree.distinct;
              },
            ),
          ),
        )
      ]

  -- The changes of an update are taken by any adapter that has the entries told before, adding what
  -- it has not and updating or removing what it has, and leave it with the entries of the tree. A
  -- tree that is not valid is refused, and the differ stays as it was. Equality of bounds chains.
  pub update_mirrors :
      (v : View B) (roots : Nodes B) (s : SemanticsDiffer B)
      → Chains bounds_eq
      → Agrees bounds_eq v s.entries
      → Distinct s.entries
      → Updates v roots s
  update_mirrors v roots s chains agrees old = elim (Result-cases (list_entries roots)) [
    | inl (next, e) ↦ update_ok v roots s next chains agrees old e
    | inr (x, e) ↦ inl (x, (e, update_throw roots s x e))
  ]

  none-Agrees : (v : View B) → ((k : ℕ) → v k ≡ none) → Agrees bounds_eq v []
  unfolding find_entry
  none-Agrees v h k = rw (h k) tt

  -- The changes of a clear are taken by any adapter that has the entries told before, and leave it
  -- and the differ without any.
  pub clear-Mirrors :
      (v : View B) (s : SemanticsDiffer B)
      → Agrees bounds_eq v s.entries
      → Distinct s.entries
      → (changes : List (SemanticsChange B)) × ((t : SemanticsDiffer B) × ((clear s
              ≡ (ok changes, t))
            × Mirrors v changes t []))
  unfolding clear apply_all find_entry
  clear-Mirrors v s agrees old =
      let all = collect (λ e. true) removed (reverse s.entries) in
      let distinct : Distinct (reverse s.entries) =
        λ k. omega (arith, old k, count-reverse k s.entries) in
      let w = collected (λ e. true) removed (reverse s.entries) v in
      let gone : (k : ℕ) → w k ≡ none = λ k. ground (
        arith,
        collected_lem (λ e. true) removed (reverse s.entries) v k distinct,
        find_entry-reverse k s.entries old,
        Same-is_some bounds_eq (v k) (find_entry k s.entries) (agrees k),
      ) in
      (
        all,
        (
          record { entries = [] },
          (
            refl,
            record {
              after = w;
              taken =
                  ap (λ cs. apply_all cs v) (sym (append-nil all))
                  ∙ apply_all-collect (λ e. true) removed (reverse s.entries) [] v distinct
                      (λ k e f t. ground (
                        arith,
                        find_entry-reverse k s.entries old,
                        Same-is_some bounds_eq (v k) (find_entry k s.entries) (agrees k),
                      ));
              told = none-Agrees w gone;
              shown = none-Agrees w gone;
              distinct = λ k. omega arith;
            },
          ),
        ),
      )
