-- ===== src/Semantics/Differ.antt =====
-- SemanticsDiffer: the entries that were told last, and the changes from them to those of a tree.
-- Bounds are compared by `bounds_eq`.
pub mod Equal
pub mod Views
pub mod Reversed
pub mod Applied
pub mod Mirror
mod Tests
use dui.Base.{
  bool_eq, ℕ, Bool, true, false, ◌&&◌, not, Option, none, some, List, [], ◌∷◌, ◌++◌, ◌==◌,
  if◌then◌else◌, is_some,
}
use dui.Base.Outcome.{M, ok, throw}
use mathlib.Core.List.{reverse}
use dui.Semantics.Tree.{
  SemanticsRole, generic, text, image, button, SemanticsAction, activate, focus, Head, Nodes, Entry,
  list_entries, is_focus,
}

abbrev pub role_eq : SemanticsRole → SemanticsRole → Bool
role_eq generic generic = true
role_eq text text = true
role_eq image image = true
role_eq button button = true
role_eq _ _ = false

abbrev pub texts_eq : List ℕ → List ℕ → Bool
texts_eq [] [] = true
texts_eq [] (b ∷ bs) = false
texts_eq (a ∷ xs) [] = false
texts_eq (a ∷ xs) (b ∷ bs) = a == b && texts_eq xs bs

abbrev pub actions_eq : List SemanticsAction → List SemanticsAction → Bool
actions_eq [] [] = true
actions_eq [] (b ∷ bs) = false
actions_eq (a ∷ xs) [] = false
actions_eq (a ∷ xs) (b ∷ bs) = bool_eq (is_focus a) (is_focus b) && actions_eq xs bs

abbrev pub parent_eq : Option ℕ → Option ℕ → Bool
parent_eq none none = true
parent_eq none (some b) = false
parent_eq (some a) none = false
parent_eq (some a) (some b) = a == b

pub data SemanticsChangeKind : Type 0 where
  added updated removed : SemanticsChangeKind

pub record SemanticsChange (B : Type 0) : Type 0 where
  pub kind : SemanticsChangeKind
  pub entry : Entry B

pub record SemanticsDiffer (B : Type 0) : Type 0 where
  pub entries : List (Entry B)

module _ {B : Type 0} where
  -- A map from ids to entries, of which the first with an id is taken.
  unfoldable pub find_entry : ℕ → List (Entry B) → Option (Entry B)
  find_entry id [] = none
  find_entry id (e ∷ es) = if e.head.id == id then some e else find_entry id es

  -- A loop that makes a change of each entry that passes a test.
  unfoldable pub collect :
      (Entry B → Bool) → SemanticsChangeKind → List (Entry B) → List (SemanticsChange B)
  collect test kind [] = []
  collect test kind (e ∷ es) =
      let rest = collect test kind es in
      if test e then record { kind = kind; entry = e } ∷ rest else rest

  unfoldable pub is_new : List (Entry B) → Entry B → Bool
  unfolding find_entry
  is_new entries e = not (is_some (find_entry e.head.id entries))

  -- SemanticsDiffer::clear.
  unfoldable pub clear : M (SemanticsDiffer B) (List (SemanticsChange B))
  unfolding collect
  clear s = (ok (collect (λ e. true) removed (reverse s.entries)), record { entries = [] })

module _ {B : Type 0} (bounds_eq : B → B → Bool) where
  -- The defaulted operator== of SemanticsEntry.
  unfoldable pub entry_eq : Entry B → Entry B → Bool
  entry_eq a b =
      a.head.id == b.head.id
      && parent_eq a.parent_id b.parent_id
      && a.child_index == b.child_index
      && role_eq a.head.role b.head.role
      && texts_eq a.head.label b.head.label
      && texts_eq a.head.value b.head.value
      && bool_eq a.head.enabled b.head.enabled
      && bounds_eq a.head.bounds b.head.bounds
      && actions_eq a.head.actions b.head.actions
      && bool_eq a.head.focusable b.head.focusable
      && bool_eq a.head.focused b.head.focused

  unfoldable pub is_changed : List (Entry B) → Entry B → Bool
  unfolding find_entry entry_eq
  is_changed entries e = elim (find_entry e.head.id entries) [
    | none ↦ false
    | some previous ↦ not (entry_eq previous e)
  ]

  -- The changes from the entries to the next ones: what is new, what differs, and, from the last to
  -- the first, what is gone.
  unfoldable pub diff : List (Entry B) → List (Entry B) → List (SemanticsChange B)
  unfolding collect is_new is_changed
  diff entries next =
      collect (is_new entries) added next
      ++ (collect (is_changed entries) updated next
          ++ collect (is_new next) removed (reverse entries))

  -- SemanticsDiffer::update.
  unfoldable pub update : Nodes B → M (SemanticsDiffer B) (List (SemanticsChange B))
  unfolding list_entries diff
  update roots s = elim (list_entries roots) [
    | throw e ↦ (throw e, s)
    | ok next ↦ elim (diff s.entries next) [
      | [] ↦ (ok [], s)
      | c ∷ cs ↦ (ok (c ∷ cs), record { entries = next })
    ]
  ]
