-- ===== src/Semantics/Tree/Fits.antt =====
-- The entries that the loop accepts.
use dui.Base.{
  ℕ, ◌+◌, ◌≤◌, ◌<◌, ◌≡◌, refl, sym, ap, subst, ◌∙◌, ◌↔◌, inl, inr, true, false, ◌||◌, List, [], ◌∷◌,
  ◌++◌, arith,
}
use dui.Base.Outcome.{Result-cases, ok}
use mathlib.Core.List.{append_assoc, append-nil}
use dui.Base.Assoc.{count, contains-count}
use dui.Semantics.Tree.{Entry, Listing, visit}
use dui.Semantics.Tree.Entries.{AllSound, IsSound, focus_count, ids_of}
use dui.Semantics.Tree.Walk.{checks, checks_ok, checks_throw}

module _ {B : Type 0} where
  -- The state after a node that is accepted.
  listed : Entry B → Listing B → Listing B
  listed e s = record {
    next = s.next ++ e ∷ [];
    ids = e.head.id ∷ s.ids;
    has_focused = s.has_focused || e.head.focused;
  }

  visit_iff :
      (e : Entry B) (s : Listing B) {t : Listing B}
      → (visit e.head e.parent_id e.child_index s ≡ ok t) ↔ (
          (t ≡ listed e s)
          × IsSound e.head
          × (count e.head.id s.ids ≡ 0)
          × (e.head.focused ≡ true → s.has_focused ≡ false))
  unfolding visit listed
  visit_iff e s = ground (arith, contains-count e.head.id s.ids)

  -- What the checks ask of the entries that are left.
  pub record Fits (es : List (Entry B)) (s : Listing B) : Type 0 where
    pub sound : AllSound es
    pub distinct : (k : ℕ) → 0 < count k (ids_of es) → count k (ids_of es) + count k s.ids ≤ 1
    pub one_focus : 0 < focus_count es → (focus_count es ≤ 1) × (s.has_focused ≡ false)

  Fits-cons :
      (e : Entry B) (es : List (Entry B)) (s : Listing B)
      → IsSound e.head
      → count e.head.id s.ids ≡ 0
      → (e.head.focused ≡ true → s.has_focused ≡ false)
      → Fits es (listed e s)
      → Fits (e ∷ es) s
  unfolding listed
  Fits-cons e es s h c g f = record {
    sound = (h, f.sound);
    distinct = λ k p. ground (arith, f.distinct k);
    one_focus = λ p. ground (arith, f.one_focus);
  }

  Fits-head :
      (e : Entry B) (es : List (Entry B)) (s : Listing B)
      → Fits (e ∷ es) s
      → (count e.head.id s.ids ≡ 0)
        × (e.head.focused ≡ true → s.has_focused ≡ false)
        × Fits es (listed e s)
  unfolding listed
  Fits-head e es s f = (
    ground (arith, f.distinct e.head.id),
    λ g. ground (arith, f.one_focus),
    record {
      sound = f.sound.1;
      distinct = λ k p. ground (arith, f.distinct k);
      one_focus = λ p. ground (arith, f.one_focus);
    },
  )

  pub checks_fit :
      (es : List (Entry B)) (s : Listing B) {t : Listing B}
      → checks es s ≡ ok t
      → (t.next ≡ s.next ++ es) × Fits es s
  checks_fit [] s h = (
    unfold checks in ground (arith, append-nil s.next),
    record {
      sound = tt;
      distinct = λ k p. absurd (omega (arith, p));
      one_focus = λ p. absurd (omega (arith, p));
    },
  )
  checks_fit (e ∷ es) s h = elim (Result-cases (visit e.head e.parent_id e.child_index s)) [
    | inr (x, v) ↦ cc (checks_throw e es s v)
    | inl (u, v) ↦
        let (same, sound, fresh, alone) = (visit_iff e s).0 v in
        let (all, fit) = checks_fit es u (sym (checks_ok e es s v) ∙ h) in
        (
          all
              ∙ (ap (λ (l : Listing B). l.next ++ es) same
                  ∙ unfold listed in append_assoc s.next (e ∷ []) es),
          Fits-cons e es s sound fresh alone (subst (Fits es) same fit),
        )
  ]

  pub fit_checks :
      (es : List (Entry B)) (s : Listing B) → Fits es s → (t : Listing B) × (checks es s ≡ ok t)
  fit_checks [] s f = (s, unfold checks in refl)
  fit_checks (e ∷ es) s f =
      let (fresh, alone, rest) = Fits-head e es s f in
      let v = (visit_iff e s {t = listed e s}).1 (refl, f.sound.0, fresh, alone) in
      let (t, h) = fit_checks es (listed e s) rest in (t, checks_ok e es s v ∙ h)
