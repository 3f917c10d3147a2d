-- ===== src/Semantics/Bridge/History/Calls.antt =====
-- Each call keeps the adapter and the bridge together.
use dui.Base.{
  ◌≡◌, sym, subst, inl, inr, Bool, false, none, List, [], arith, Bool-cases, Option-cases,
}
use dui.Base.Outcome.{Result, ok}
use dui.Semantics.Tree.{Nodes, Entry}
use dui.Semantics.Tree.Entries.{entries_all}
use dui.Semantics.Differ.{SemanticsChange, SemanticsDiffer}
use dui.Semantics.Differ as Differ
use dui.Semantics.Differ.Equal.{Chains}
use dui.Semantics.Differ.Views.{View}
use dui.Semantics.Differ.Mirror.{Mirrors, update_mirrors, clear-Mirrors}
use dui.Semantics.Bridge.{
  AccessibilityBridge, Shared, prepare, prepare_clear, publish, clear, is_active,
}
use dui.Semantics.Bridge.History.{adapter}
use dui.Semantics.Bridge.History.Kept.{Kept, deliver-Kept, begin-Kept}

module _ {B : Type 0} (bounds_eq : B → B → Bool) where
  abbrev Outcome : Type 0
  Outcome = Result (List (SemanticsChange B)) × SemanticsDiffer B

  -- Changes that were given fit what the adapter holds.
  abbrev Fitting : View B → Outcome → List (Entry B) → Type 0
  Fitting v r next =
      (changes : List (SemanticsChange B)) → r.0 ≡ ok changes → Mirrors bounds_eq v changes r.1 next

  fits :
      (v : View B) (r : Outcome) (changes : List (SemanticsChange B)) (t : SemanticsDiffer B)
      (next : List (Entry B))
      → r ≡ (ok changes, t)
      → Mirrors bounds_eq v changes t next
      → Fitting v r next
  fits v r changes t next u m =
      subst (λ (r : Outcome). Fitting v r next) (sym u)
        (λ cs h. subst (λ c. Mirrors bounds_eq v c t next) (cc h) m)

  pub update_fits :
      (s : Shared (View B) B) (roots : Nodes B)
      → Chains bounds_eq
      → Kept bounds_eq s
      → Fitting s.adapter (Differ.update bounds_eq roots s.bridge.differ) (entries_all none 0 roots)
  update_fits s roots chains k =
      elim (update_mirrors bounds_eq s.adapter roots s.bridge.differ chains k.agrees k.distinct) [
        | inl (x, (e, u)) ↦ λ changes h. cc (u, h)
        | inr (changes, (t, (u, m))) ↦
            fits s.adapter (Differ.update bounds_eq roots s.bridge.differ) changes t
              (entries_all none 0 roots) u m
      ]

  clear_fits :
      (s : Shared (View B) B)
      → Kept bounds_eq s
      → Fitting s.adapter (Differ.clear s.bridge.differ) []
  clear_fits s k =
      let (changes, (t, (u, m))) =
        clear-Mirrors bounds_eq s.adapter s.bridge.differ k.agrees k.distinct in
      fits s.adapter (Differ.clear s.bridge.differ) changes t [] u m

  pub not_open : (b : AccessibilityBridge B) → is_active b ≡ false → b.transaction ≡ none
  not_open b h = elim (Option-cases b.transaction) [ inl e ↦ e | inr (t, e) ↦ ground (arith, h, e) ]

  pub publish-Kept :
      (takes : Bool) (roots : Nodes B) (s : Shared (View B) B)
      → Chains bounds_eq
      → Kept bounds_eq s
      → Kept bounds_eq (publish bounds_eq (adapter takes) roots s).1
  unfolding publish
  publish-Kept takes roots s chains k = elim (Bool-cases (is_active s.bridge)) [
    | inl active ↦ rw active k
    | inr free ↦ rw free (
        deliver-Kept bounds_eq takes s (Differ.update bounds_eq roots s.bridge.differ)
          (entries_all none 0 roots) k (not_open s.bridge free) (update_fits s roots chains k))
  ]

  pub clear-Kept :
      (takes : Bool) (s : Shared (View B) B)
      → Kept bounds_eq s
      → Kept bounds_eq (clear (adapter takes) s).1
  unfolding clear
  clear-Kept takes s k = elim (Bool-cases (is_active s.bridge)) [
    | inl active ↦ rw active k
    | inr free ↦ rw free (
        deliver-Kept bounds_eq takes s (Differ.clear s.bridge.differ) [] k (not_open s.bridge free)
          (clear_fits s k))
  ]

  pub prepare-Kept :
      (roots : Nodes B) (s : Shared (View B) B)
      → Chains bounds_eq
      → Kept bounds_eq s
      → Kept bounds_eq (record s { bridge = (prepare bounds_eq roots s.bridge).1 })
  unfolding prepare
  prepare-Kept roots s chains k = elim (Bool-cases (is_active s.bridge)) [
    | inl active ↦ rw active k
    | inr free ↦ rw free (
        begin-Kept bounds_eq s (Differ.update bounds_eq roots s.bridge.differ)
          (entries_all none 0 roots) k (update_fits s roots chains k))
  ]

  pub prepare_clear-Kept :
      (s : Shared (View B) B)
      → Kept bounds_eq s
      → Kept bounds_eq (record s { bridge = (prepare_clear s.bridge).1 })
  unfolding prepare_clear
  prepare_clear-Kept s k = elim (Bool-cases (is_active s.bridge)) [
    | inl active ↦ rw active k
    | inr free ↦
        rw free (begin-Kept bounds_eq s (Differ.clear s.bridge.differ) [] k (clear_fits s k))
  ]
