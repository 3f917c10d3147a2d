-- ===== src/Semantics/Tree/Tests.antt =====
-- A node with two children, of which one has the focus.
use dui.Base.{ℕ, ◌≡◌, refl, ◌↔◌, true, false, none, some, List, [], ◌∷◌}
use dui.Base.Outcome.{ok, throw, logic_error}
use dui.Semantics.Tree.{
  text, button, activate, focus, Head, Node, node, Nodes, nil, cons, Entry, list_entries, walk,
  push_nodes, visit, size_all, supports_focus,
}
use dui.Semantics.Tree.Entries.{IsTree, entries_all}
use dui.Semantics.Tree.Preorder.{list_entries_iff}

abbrev label : ℕ → Head ℕ
label id = record {
  id = id;
  role = text;
  label = 72 ∷ 105 ∷ [];
  value = [];
  enabled = true;
  bounds = 7;
  actions = [];
  focusable = false;
  focused = false;
}

abbrev focused_button : ℕ → Head ℕ
focused_button id = record {
  id = id;
  role = button;
  label = [];
  value = [];
  enabled = true;
  bounds = 7;
  actions = activate ∷ focus ∷ [];
  focusable = true;
  focused = true;
}

abbrev leaf : Head ℕ → Node ℕ
leaf h = node h nil

abbrev tree : Nodes ℕ
tree = cons (node (label 5) (cons (leaf (label 3)) (cons (leaf (focused_button 4)) nil))) nil

abbrev listed : List (Entry ℕ)
listed =
    record { head = label 5; parent_id = none; child_index = 0 }
    ∷ record { head = label 3; parent_id = some 5; child_index = 0 }
    ∷ record { head = focused_button 4; parent_id = some 5; child_index = 1 }
    ∷ []

list_tree : list_entries tree ≡ ok listed
unfolding list_entries walk push_nodes visit size_all supports_focus
list_tree = refl

list_twice : list_entries (cons (leaf (label 3)) (cons (leaf (label 3)) nil)) ≡ throw logic_error
unfolding list_entries walk push_nodes visit size_all supports_focus
list_twice = refl

two_focused :
    list_entries (cons (leaf (focused_button 3)) (cons (leaf (focused_button 4)) nil))
    ≡ throw logic_error
unfolding list_entries walk push_nodes visit size_all supports_focus
two_focused = refl

list_entries_iff_example :
    (list_entries tree ≡ ok listed) ↔ ((listed ≡ entries_all none 0 tree) × IsTree listed)
list_entries_iff_example = list_entries_iff tree listed
