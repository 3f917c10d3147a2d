-- ===== src/Semantics/Differ/Equal.antt =====
-- The equality of entries that the code tests, as a relation: it chains, when that of bounds does.
use dui.Base.{bool_eq, ℕ, ◌≡◌, Bool, true, false, ◌&&◌, none, some, [], ◌∷◌, arith, ◌==◌}
use dui.Semantics.Tree.{generic, text, image, button, is_focus}
use dui.Semantics.Differ.{role_eq, texts_eq, actions_eq, parent_eq, entry_eq}

-- A Boolean relation that chains.
abbrev pub Chains : {A : Type 0} → (A → A → Bool) → Type 0
Chains {A} eq = (a b c : A) → eq a b ≡ true → eq b c ≡ true → eq a c ≡ true

and_chains :
    {a b c x y z : Bool}
    → (a ≡ true → b ≡ true → c ≡ true)
    → (x ≡ true → y ≡ true → z ≡ true)
    → (a && x) ≡ true
    → (b && y) ≡ true
    → (c && z) ≡ true
and_chains {a} {b} {c} {x} {y} {z} f g h k = ground (arith, f, g)

pub ==-Chains : Chains (λ (a b : ℕ). a == b)
==-Chains a b c h k = ground (arith)

bool_eq-Chains : Chains bool_eq
bool_eq-Chains true true c h k = k
bool_eq-Chains true false c h k = ground (arith)
bool_eq-Chains false true c h k = ground (arith)
bool_eq-Chains false false c h k = k

role_eq-Chains : Chains role_eq
role_eq-Chains generic generic c h k = k
role_eq-Chains text text c h k = k
role_eq-Chains image image c h k = k
role_eq-Chains button button c h k = k
role_eq-Chains generic text c h k = ground (arith)
role_eq-Chains generic image c h k = ground (arith)
role_eq-Chains generic button c h k = ground (arith)
role_eq-Chains text generic c h k = ground (arith)
role_eq-Chains text image c h k = ground (arith)
role_eq-Chains text button c h k = ground (arith)
role_eq-Chains image generic c h k = ground (arith)
role_eq-Chains image text c h k = ground (arith)
role_eq-Chains image button c h k = ground (arith)
role_eq-Chains button generic c h k = ground (arith)
role_eq-Chains button text c h k = ground (arith)
role_eq-Chains button image c h k = ground (arith)

parent_eq-Chains : Chains parent_eq
parent_eq-Chains none none c h k = k
parent_eq-Chains none (some b) c h k = ground (arith)
parent_eq-Chains (some a) none c h k = ground (arith)
parent_eq-Chains (some a) (some b) none h k = k
parent_eq-Chains (some a) (some b) (some c) h k = ==-Chains a b c h k

texts_eq-Chains : Chains texts_eq
texts_eq-Chains [] [] c h k = k
texts_eq-Chains [] (b ∷ ys) c h k = ground (arith)
texts_eq-Chains (a ∷ xs) [] c h k = ground (arith)
texts_eq-Chains (a ∷ xs) (b ∷ ys) [] h k = k
texts_eq-Chains (a ∷ xs) (b ∷ ys) (c ∷ zs) h k =
    and_chains (==-Chains a b c) (texts_eq-Chains xs ys zs) h k

actions_eq-Chains : Chains actions_eq
actions_eq-Chains [] [] c h k = k
actions_eq-Chains [] (b ∷ ys) c h k = ground (arith)
actions_eq-Chains (a ∷ xs) [] c h k = ground (arith)
actions_eq-Chains (a ∷ xs) (b ∷ ys) [] h k = k
actions_eq-Chains (a ∷ xs) (b ∷ ys) (c ∷ zs) h k =
    and_chains (bool_eq-Chains (is_focus a) (is_focus b) (is_focus c)) (actions_eq-Chains xs ys zs)
      h k

pub entry_eq-Chains :
    {B : Type 0} (bounds_eq : B → B → Bool) → Chains bounds_eq → Chains (entry_eq bounds_eq)
unfolding entry_eq
entry_eq-Chains bounds_eq chains a b c h k =
    and_chains
      (and_chains
        (and_chains
          (and_chains
            (and_chains
              (and_chains
                (and_chains
                  (and_chains
                    (and_chains
                      (and_chains (==-Chains a.head.id b.head.id c.head.id)
                        (parent_eq-Chains a.parent_id b.parent_id c.parent_id))
                      (==-Chains a.child_index b.child_index c.child_index))
                    (role_eq-Chains a.head.role b.head.role c.head.role))
                  (texts_eq-Chains a.head.label b.head.label c.head.label))
                (texts_eq-Chains a.head.value b.head.value c.head.value))
              (bool_eq-Chains a.head.enabled b.head.enabled c.head.enabled))
            (chains a.head.bounds b.head.bounds c.head.bounds))
          (actions_eq-Chains a.head.actions b.head.actions c.head.actions))
        (bool_eq-Chains a.head.focusable b.head.focusable c.head.focusable))
      (bool_eq-Chains a.head.focused b.head.focused c.head.focused) h k
