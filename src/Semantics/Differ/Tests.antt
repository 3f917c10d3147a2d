-- ===== src/Semantics/Differ/Tests.antt =====
-- A differ that was told of two texts is given one of them, changed, and a new one.
use dui.Base.{ℕ, ◌≡◌, refl, true, false, none, some, [], ◌∷◌, arith, ◌==◌}
use dui.Base.Outcome.{ok}
use dui.Semantics.Tree.{
  text, Head, node, Nodes, nil, cons, Entry, list_entries, walk, push_nodes, visit, size_all,
  supports_focus,
}
use dui.Semantics.Differ.{
  added, updated, removed, SemanticsDiffer, find_entry, collect, is_new, is_changed, entry_eq, diff,
  update,
}
use dui.Semantics.Differ.Equal.{==-Chains}
use dui.Semantics.Differ.Views.{Distinct, view_of}
use dui.Semantics.Differ.Applied.{Agrees, Same-refl}
use dui.Semantics.Differ.Mirror.{Updates, update_mirrors}

abbrev label : ℕ → ℕ → Head ℕ
label id bounds = record {
  id = id;
  role = text;
  label = [];
  value = [];
  enabled = true;
  bounds = bounds;
  actions = [];
  focusable = false;
  focused = false;
}

abbrev tree : Nodes ℕ
tree = cons (node (label 5 1) (cons (node (label 3 8) nil) nil)) nil

abbrev child : ℕ → ℕ → Entry ℕ
child id bounds = record { head = label id bounds; parent_id = some 5; child_index = 0 }

abbrev before : SemanticsDiffer ℕ
before = record { entries = child 3 7 ∷ child 4 7 ∷ [] }

abbrev root : Entry ℕ
root = record { head = label 5 1; parent_id = none; child_index = 0 }

updates_it : update (λ a b. a == b) tree before ≡ (
  ok (
      record { kind = added; entry = root }
      ∷ record { kind = updated; entry = child 3 8 }
      ∷ record { kind = removed; entry = child 4 7 }
      ∷ []),
  record { entries = root ∷ child 3 8 ∷ [] },
)
unfolding update list_entries walk push_nodes visit size_all supports_focus diff collect is_new
    is_changed entry_eq find_entry
updates_it = refl

before-Distinct : Distinct before.entries
before-Distinct k = ground arith

before-Agrees : Agrees (λ a b. a == b) (view_of before.entries) before.entries
before-Agrees k = Same-refl (λ a b. a == b) (find_entry k before.entries)

update_mirrors_example : Updates (λ a b. a == b) (view_of before.entries) tree before
update_mirrors_example =
    update_mirrors (λ a b. a == b) (view_of before.entries) tree before ==-Chains before-Agrees
      before-Distinct
