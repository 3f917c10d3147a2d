-- ===== src/Semantics/Tree.antt =====
-- SemanticsNode, SemanticsTree and SemanticsEntry, and the first loop of SemanticsDiffer::update:
-- it lists the nodes of a tree, each with its parent and its place, and throws on a tree that is not
-- valid. Bounds are of an abstract type.
pub mod Entries
pub mod Walk
pub mod Fits
pub mod Preorder
mod Tests
use dui.Base.{
  bool_eq, ℕ, zero, suc, ◌+◌, Bool, true, false, ◌&&◌, ◌||◌, not, Option, none, some, List, [], ◌∷◌,
  ◌++◌, ◌==◌, if◌then◌else◌,
}
use dui.Base.Outcome.{Result, ok, throw, logic_error, runtime_error}
use dui.Base.Assoc.{contains}

pub data SemanticsRole : Type 0 where
  generic text image button : SemanticsRole

pub data SemanticsAction : Type 0 where
  activate focus : SemanticsAction

-- A SemanticsNode, apart from its children. Texts are lists of bytes.
pub record Head (B : Type 0) : Type 0 where
  pub id : ℕ
  pub role : SemanticsRole
  pub label : List ℕ
  pub value : List ℕ
  pub enabled : Bool
  pub bounds : B
  pub actions : List SemanticsAction
  pub focusable : Bool
  pub focused : Bool

mutual
  pub data Node (B : Type 0) : Type 0 where
    node : Head B → Nodes B → Node B

  pub data Nodes (B : Type 0) : Type 0 where
    nil : Nodes B
    cons : Node B → Nodes B → Nodes B

-- SemanticsEntry: the node without its children, with its parent and its place among them.
pub record Entry (B : Type 0) : Type 0 where
  pub head : Head B
  pub parent_id : Option ℕ
  pub child_index : ℕ

abbrev pub is_focus : SemanticsAction → Bool
is_focus activate = false
is_focus focus = true

-- SemanticsNode::supports, of SemanticsAction::focus.
unfoldable pub supports_focus : List SemanticsAction → Bool
supports_focus [] = false
supports_focus (a ∷ actions) = is_focus a || supports_focus actions

abbrev pub head_of : {B : Type 0} → Node B → Head B
head_of (node h ns) = h

abbrev pub children_of : {B : Type 0} → Node B → Nodes B
children_of (node h ns) = ns

-- PendingNode.
pub record Pending (B : Type 0) : Type 0 where
  pub it : Node B
  pub parent : Option ℕ
  pub place : ℕ

-- `next`, `ids` and `has_focused_node`.
pub record Listing (B : Type 0) : Type 0 where
  pub next : List (Entry B)
  pub ids : List ℕ
  pub has_focused : Bool

module _ {B : Type 0} where
  -- The nodes from place `index` on, pushed from the last to the first: the first is on top.
  unfoldable pub push_nodes : Option ℕ → ℕ → Nodes B → List (Pending B) → List (Pending B)
  push_nodes parent index nil pending = pending
  push_nodes parent index (cons n ns) pending =
      record { it = n; parent = parent; place = index } ∷ push_nodes parent (index + 1) ns pending

  -- The checks of one node, and what is kept of it.
  unfoldable pub visit : Head B → Option ℕ → ℕ → Listing B → Result (Listing B)
  unfolding supports_focus contains
  visit h parent place s =
      if h.id == 0 || contains h.id s.ids
      then throw logic_error
      else if h.focused && (not h.focusable || not h.enabled || s.has_focused)
      then throw logic_error
      else if not (bool_eq h.focusable (supports_focus h.actions))
      then throw logic_error
      else ok (record {
        next = s.next ++ record { head = h; parent_id = parent; child_index = place } ∷ [];
        ids = h.id ∷ s.ids;
        has_focused = s.has_focused || h.focused;
      })

  -- The loop, for as many rounds as there is fuel.
  unfoldable pub walk : ℕ → List (Pending B) → Listing B → Result (Listing B)
  walk fuel [] s = ok s
  walk zero (p ∷ pending) s = throw runtime_error
  walk (suc fuel) (p ∷ pending) s = elim (visit (head_of p.it) p.parent p.place s) [
    | throw e ↦ throw e
    | ok t ↦ walk fuel (push_nodes (some (head_of p.it).id) 0 (children_of p.it) pending) t
  ]

-- The number of nodes.
unfoldable mutual
  pub size : {B : Type 0} → Node B → ℕ
  size (node h ns) = suc (size_all ns)

  pub size_all : {B : Type 0} → Nodes B → ℕ
  size_all nil = 0
  size_all (cons n ns) = size n + size_all ns

-- The entries of a tree, given by its roots: each node takes one round.
unfoldable pub list_entries : {B : Type 0} → Nodes B → Result (List (Entry B))
unfolding push_nodes
list_entries {B} roots =
    let start : Listing B = record { next = []; ids = []; has_focused = false } in
    elim (walk (size_all roots) (push_nodes none 0 roots []) start) [
      | throw e ↦ throw e
      | ok s ↦ ok s.next
    ]
