-- ===== src/Input/Focus/Invariant.antt =====
-- What holds of the nodes and the focus between two calls.
use dui.Base.{
  ◌⊎◌, ℕ, ◌<◌, ◌≡◌, refl, Bool, true, false, Option, none, some, List, [], ◌∷◌, arith, ◌==◌,
  if◌then◌else◌, is_some,
}
use dui.Base.Assoc.{find}
use dui.Input.Focus.{FocusNode, Manager, reparent, adopted, emplace}

module _ {E : Type 0} where
  abbrev pub is_present : List (ℕ × FocusNode E) → ℕ → Bool
  is_present nodes p = is_some (find p nodes)

  abbrev pub is_focusable : List (ℕ × FocusNode E) → ℕ → Bool
  is_focusable nodes p = elim (find p nodes) [ none ↦ false | some n ↦ n.can_focus ]

  -- A parent is alive, and older than its child.
  abbrev pub IsParent : List (ℕ × FocusNode E) → ℕ → Option ℕ → Type 0
  IsParent nodes id none = Unit
  IsParent nodes id (some p) = (p < id) × (is_present nodes p ≡ true)

  abbrev pub IsNode : List (ℕ × FocusNode E) → ℕ → ℕ → Option (FocusNode E) → Type 0
  IsNode nodes next id none = Unit
  IsNode nodes next id (some n) = (id < next) × IsParent nodes id n.parent

  abbrev pub IsForest : List (ℕ × FocusNode E) → ℕ → Type 0
  IsForest nodes next = (id : ℕ) → IsNode nodes next id (find id nodes)

  -- The focus is on a node that is alive and can have it.
  abbrev pub IsFocus : List (ℕ × FocusNode E) → Option ℕ → Type 0
  IsFocus nodes none = Unit
  IsFocus nodes (some f) = is_focusable nodes f ≡ true

  pub record Inv (s : Manager E) : Type 0 where
    pub forest : IsForest s.nodes s.next_id
    pub focus : IsFocus s.nodes s.focused
    pub alive : s.alive ≡ true

  pub find-reparent :
      (id : ℕ) (parent : Option ℕ) (nodes : List (ℕ × FocusNode E)) (k : ℕ)
      → find k (reparent id parent nodes)
        ≡ (elim (find k nodes) [ none ↦ none | some n ↦ some (adopted id parent n) ])
  unfolding find reparent
  find-reparent id parent [] k = refl
  find-reparent id parent ((j, n) ∷ nodes) k = ground (arith, find-reparent id parent nodes k)

  pub find-emplace :
      (id : ℕ) (n : FocusNode E) (nodes : List (ℕ × FocusNode E)) (k : ℕ)
      → find id nodes ≡ none
      → find k (emplace id n nodes) ≡ (if k == id then some n else find k nodes)
  unfolding find emplace
  find-emplace id n nodes k h = ground arith

  pub found_cases :
      (nodes : List (ℕ × FocusNode E)) (id : ℕ)
      → (find id nodes ≡ none) ⊎ ((n : FocusNode E) × (find id nodes ≡ some n))
  found_cases nodes id = ground arith
