-- ===== src/Semantics/Tree/Preorder.antt =====
-- The loop against a recursion over the tree, and the trees that it accepts.

use dui.Semantics.Tree.Fits.{Fits}
use dui.Base.{◌≡◌, refl, sym, ap, subst, ◌∙◌, ◌↔◌, inl, inr, false, none, List, [], arith}
use dui.Base.Outcome.{Result-cases, ok, throw, Error}
use mathlib.Core.List.{append-nil}
use dui.Semantics.Tree.{Nodes, Entry, push_nodes, Listing, walk, size_all, list_entries}
use dui.Semantics.Tree.Entries.{IsTree, entries_all}
use dui.Semantics.Tree.Walk.{
  checks, visits, visits-push_nodes, walk-checks, weight, weight-push_nodes,
}
use dui.Semantics.Tree.Fits.{checks_fit, fit_checks}

abbrev start : {B : Type 0} → Listing B
start = record { next = []; ids = []; has_focused = false }

module _ {B : Type 0} (roots : Nodes B) where
  roots_checks :
      walk (size_all roots) (push_nodes none 0 roots []) start
      ≡ checks (entries_all none 0 roots) start
  roots_checks =
      walk-checks (size_all roots) (push_nodes none 0 roots []) start
        (unfold weight in omega (arith, weight-push_nodes none 0 roots []))
      ∙ ap (λ (es : List (Entry B)). checks es start)
          (visits-push_nodes none 0 roots []
            ∙ unfold visits in append-nil (entries_all none 0 roots))

  listed_ok :
      (t : Listing B)
      → checks (entries_all none 0 roots) start ≡ ok t
      → list_entries roots ≡ ok t.next
  unfolding list_entries
  listed_ok t h = ground (arith, roots_checks, h)

  listed_throw :
      (x : Error) → checks (entries_all none 0 roots) start ≡ throw x → list_entries roots ≡ throw x
  unfolding list_entries
  listed_throw x h = ground (arith, roots_checks, h)

  Fits-IsTree : Fits (entries_all none 0 roots) start → IsTree (entries_all none 0 roots)
  Fits-IsTree f = record {
    sound = f.sound;
    distinct = λ k. ground (arith, f.distinct k);
    one_focus = ground (arith, f.one_focus);
  }

  IsTree-Fits : IsTree (entries_all none 0 roots) → Fits (entries_all none 0 roots) start
  IsTree-Fits f = record {
    sound = f.sound;
    distinct = λ k p. omega (arith, f.distinct k);
    one_focus = λ p. (f.one_focus, refl);
  }

-- The loop lists the nodes of a tree, each before its children, with its parent and its place among
-- the parent's children, and accepts exactly the trees in which no id is 0 or stands twice, at most
-- one node has the focus and can have it, and a node can have it exactly if it supports the action.
pub list_entries_iff :
    {B : Type 0} (roots : Nodes B) (next : List (Entry B))
    → (list_entries roots ≡ ok next) ↔ ((next ≡ entries_all none 0 roots) × IsTree next)
list_entries_iff roots next = (
  λ h. elim (Result-cases (checks (entries_all none 0 roots) start)) [
    | inr (x, e) ↦ cc (listed_throw roots x e)
    | inl (t, e) ↦
        let (all, fit) = checks_fit (entries_all none 0 roots) start e in
        let same : next ≡ entries_all none 0 roots = cc (listed_ok roots t e) in
        (same, rw same (Fits-IsTree roots fit))
  ],
  λ (same, tree).
      let fit = IsTree-Fits roots (subst IsTree same tree) in
      let (t, e) = fit_checks (entries_all none 0 roots) start fit in
      let all = (checks_fit (entries_all none 0 roots) start e).0 in
      listed_ok roots t e ∙ ap (λ (es : List (Entry _)). ok es) (all ∙ sym same),
)
