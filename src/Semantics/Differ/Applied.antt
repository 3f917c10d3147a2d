-- ===== src/Semantics/Differ/Applied.antt =====
-- The changes of an update, applied to what was told before.
use dui.Base.{
  ℕ, ◌≡◌, refl, sym, ap, subst, ◌∙◌, ◌⊎◌, inl, inr, Bool, true, false, not, Option, none, some,
  List, [], ◌++◌, arith, if◌then◌else◌, Bool-cases, Option-cases, is_some,
}
use mathlib.Core.List.{reverse, append-nil}
use dui.Semantics.Tree.{Entry}
use dui.Semantics.Differ.{
  added, updated, removed, find_entry, collect, is_new, is_changed, entry_eq, diff,
}
use dui.Semantics.Differ.Equal.{Chains, entry_eq-Chains}
use dui.Semantics.Differ.Views.{
  View, Distinct, apply_all, collected, collected_lem, apply_all-collect, find_entry_id,
}
use dui.Semantics.Differ.Reversed.{count-reverse, find_entry-reverse, is_new_at}

module _ {B : Type 0} (bounds_eq : B → B → Bool) where
  -- The same entry, or one that the code takes for equal.
  abbrev pub Same : Option (Entry B) → Option (Entry B) → Type 0
  Same none none = Unit
  Same none (some b) = ⊥
  Same (some a) none = ⊥
  Same (some a) (some b) = (a ≡ b) ⊎ (entry_eq bounds_eq a b ≡ true)

  is_changed_at :
      (es : List (Entry B)) (e : Entry B) (k : ℕ)
      → e.head.id ≡ k
      → is_changed bounds_eq es e
        ≡ (elim (find_entry k es) [ none ↦ false | some p ↦ not (entry_eq bounds_eq p e) ])
  unfolding is_changed
  is_changed_at es e k h =
      ap (λ j. elim (find_entry j es) [ none ↦ false | some p ↦ not (entry_eq bounds_eq p e) ]) h

  Same-trans :
      Chains bounds_eq
      → (o : Option (Entry B)) (p e : Entry B) → Same o (some p)
      → entry_eq bounds_eq p e ≡ true
      → Same o (some e)
  Same-trans chains none p e s h = s
  Same-trans chains (some x) p e (inl s) h =
      inr (subst (λ y. entry_eq bounds_eq y e ≡ true) (sym s) h)
  Same-trans chains (some x) p e (inr s) h = inr (entry_eq-Chains bounds_eq chains x p e s h)

  pub Same-refl : (o : Option (Entry B)) → Same o o
  Same-refl none = tt
  Same-refl (some e) = inl refl

  -- A view of the entries, up to the equality that the code tests.
  abbrev pub Agrees : View B → List (Entry B) → Type 0
  Agrees v es = (k : ℕ) → Same (v k) (find_entry k es)

  pub Same-is_some : (o p : Option (Entry B)) → Same o p → is_some o ≡ is_some p
  Same-is_some none none s = refl
  Same-is_some none (some b) s = elim s [ ]
  Same-is_some (some a) none s = elim s [ ]
  Same-is_some (some a) (some b) s = refl

  module _ (prev next : List (Entry B)) (v : View B) (old : Distinct prev) (new : Distinct next)
      (agrees : Agrees v prev) where
    present : (k : ℕ) → is_some (v k) ≡ is_some (find_entry k prev)
    present k = Same-is_some (v k) (find_entry k prev) (agrees k)

    added_view : View B
    added_view = collected (is_new prev) added next v

    updated_view : View B
    updated_view = collected (is_changed bounds_eq prev) updated next added_view

    final_view : View B
    final_view = collected (is_new next) removed (reverse prev) updated_view

    Distinct-reverse : Distinct (reverse prev)
    Distinct-reverse k = omega (arith, old k, count-reverse k prev)

    added_at :
        (k : ℕ)
        → added_view k ≡ (elim (find_entry k prev) [ some p ↦ v k | none ↦ find_entry k next ])
    unfolding added_view
    added_at k = elim (Option-cases (find_entry k next)) [
      | inl e ↦ ground (arith, collected_lem (is_new prev) added next v k new, e, present k)
      | inr (x, e) ↦ ground (
        arith,
        collected_lem (is_new prev) added next v k new,
        e,
        is_new_at prev x k (find_entry_id k next {e = x} e),
      )
    ]

    -- What is there for an id that stays or is new.
    kept : ℕ → Entry B → Option (Entry B)
    kept k e = elim (find_entry k prev) [
      | none ↦ some e
      | some p ↦ if entry_eq bounds_eq p e then v k else some e
    ]

    updated_at :
        (k : ℕ) → updated_view k ≡ (elim (find_entry k next) [ none ↦ v k | some e ↦ kept k e ])
    unfolding updated_view kept
    updated_at k = elim (Option-cases (find_entry k next)) [
      | inl e ↦ ground (
        arith,
        collected_lem (is_changed bounds_eq prev) updated next added_view k new,
        e,
        added_at k,
        present k,
      )
      | inr (x, e) ↦ ground (
        arith,
        collected_lem (is_changed bounds_eq prev) updated next added_view k new,
        e,
        added_at k,
        is_changed_at prev x k (find_entry_id k next {e = x} e),
      )
    ]

    final_at :
        (k : ℕ) → final_view k ≡ (elim (find_entry k next) [ none ↦ none | some e ↦ kept k e ])
    unfolding final_view kept
    final_at k = elim (Option-cases (find_entry k prev)) [
      | inl e ↦ ground (
        arith,
        collected_lem (is_new next) removed (reverse prev) updated_view k Distinct-reverse,
        find_entry-reverse k prev old,
        e,
        updated_at k,
        present k,
      )
      | inr (x, e) ↦ ground (
        arith,
        collected_lem (is_new next) removed (reverse prev) updated_view k Distinct-reverse,
        find_entry-reverse k prev old,
        e,
        updated_at k,
        is_new_at next x k (find_entry_id k prev {e = x} e),
      )
    ]

    kept_cases :
        (k : ℕ) (e : Entry B)
        → (kept k e ≡ some e)
          ⊎ ((p : Entry B) × ((find_entry k prev ≡ some p)
                × ((entry_eq bounds_eq p e ≡ true) × (kept k e ≡ v k))))
    unfolding kept
    kept_cases k e = elim (Option-cases (find_entry k prev)) [
      | inl f ↦ inl (ground (arith, f))
      | inr (p, f) ↦ elim (Bool-cases (entry_eq bounds_eq p e)) [
        | inl y ↦ inr (p, (f, (y, ground (arith, f, y))))
        | inr n ↦ inl (ground (arith, f, n))
      ]
    ]

    final-Agrees : Chains bounds_eq → Agrees final_view next
    final-Agrees chains k = elim (Option-cases (find_entry k next)) [
      | inl e ↦ rw (final_at k, e) tt
      | inr (x, e) ↦
          rw (final_at k, e)
            (elim (kept_cases k x) [
              | inl same ↦ rw same (inl refl)
              | inr (p, (f, (y, same))) ↦
                  rw same (Same-trans chains (v k) p x (subst (λ o. Same (v k) o) f (agrees k)) y)
            ])
    ]

    adds :
        (k : ℕ) (e : Entry B)
        → find_entry k next ≡ some e
        → is_new prev e ≡ true
        → is_some (v k) ≡ false
    adds k e h t = ground (arith, present k, is_new_at prev e k (find_entry_id k next {e = e} h))

    updates :
        (k : ℕ) (e : Entry B)
        → find_entry k next ≡ some e
        → is_changed bounds_eq prev e ≡ true
        → is_some (added_view k) ≡ true
    updates k e h t =
        ground
          (arith, present k, added_at k, is_changed_at prev e k (find_entry_id k next {e = e} h))

    removes :
        (k : ℕ) (e : Entry B)
        → find_entry k (reverse prev) ≡ some e
        → is_new next e ≡ true
        → is_some (updated_view k) ≡ true
    removes k e h t = ground (
      arith,
      present k,
      updated_at k,
      find_entry-reverse k prev old,
      is_new_at next e k (find_entry_id k (reverse prev) {e = e} h),
    )

    diff_applies : apply_all (diff bounds_eq prev next) v ≡ some final_view
    unfolding diff added_view updated_view final_view apply_all
    diff_applies =
        let gone = collect (is_new next) removed (reverse prev) in
        apply_all-collect (is_new prev) added next
          (collect (is_changed bounds_eq prev) updated next ++ gone) v new adds
        ∙ apply_all-collect (is_changed bounds_eq prev) updated next gone added_view new updates
        ∙ ap (λ cs. apply_all cs updated_view) (sym (append-nil gone))
        ∙ apply_all-collect (is_new next) removed (reverse prev) [] updated_view Distinct-reverse
            removes

    pub diff_mirrors :
        Chains bounds_eq
        → (w : View B) × (apply_all (diff bounds_eq prev next) v ≡ some w) × Agrees w next
    diff_mirrors chains = (final_view, diff_applies, final-Agrees chains)
