-- ===== src/Semantics/Tree/Entries.antt =====
-- The entries of a tree by recursion over it, and what a valid tree is.
use dui.Base.{ℕ, ◌+◌, ◌≤◌, ◌<◌, ◌≡◌, true, Option, some, List, [], ◌∷◌, ◌++◌, if◌then◌else◌}
use dui.Base.Assoc.{count}
use dui.Semantics.Tree.{Head, Node, node, Nodes, nil, cons, Entry, supports_focus}

-- The nodes, each before its children.
unfoldable mutual
  pub entries_of : {B : Type 0} → Node B → Option ℕ → ℕ → List (Entry B)
  entries_of (node h ns) parent place =
      record { head = h; parent_id = parent; child_index = place } ∷ entries_all (some h.id) 0 ns

  pub entries_all : {B : Type 0} → Option ℕ → ℕ → Nodes B → List (Entry B)
  entries_all parent index nil = []
  entries_all parent index (cons n ns) =
      entries_of n parent index ++ entries_all parent (index + 1) ns

abbrev pub ids_of : {B : Type 0} → List (Entry B) → List ℕ
ids_of [] = []
ids_of (e ∷ es) = e.head.id ∷ ids_of es

abbrev pub focus_count : {B : Type 0} → List (Entry B) → ℕ
focus_count [] = 0
focus_count (e ∷ es) = (if e.head.focused then 1 else 0) + focus_count es

-- What each node has to be by itself.
abbrev pub IsSound : {B : Type 0} → Head B → Type 0
IsSound h =
    (0 < h.id)
    × (h.focused ≡ true → (h.focusable ≡ true) × (h.enabled ≡ true))
    × (h.focusable ≡ supports_focus h.actions)

abbrev pub AllSound : {B : Type 0} → List (Entry B) → Type 0
AllSound [] = Unit
AllSound (e ∷ es) = IsSound e.head × AllSound es

-- No id is 0 or stands twice; at most one node has the focus, and it can have it; a node can have
-- the focus exactly if it supports the action.
pub record IsTree {B : Type 0} (es : List (Entry B)) : Type 0 where
  pub sound : AllSound es
  pub distinct : (k : ℕ) → count k (ids_of es) ≤ 1
  pub one_focus : focus_count es ≤ 1
