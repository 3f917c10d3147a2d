-- ===== src/Semantics/Tree/Walk.antt =====
-- The loop against a recursion over the tree.
use dui.Base.{
  ℕ, zero, suc, ◌+◌, ◌≤◌, ◌≡◌, refl, sym, ◌∙◌, inl, inr, Option, some, List, [], ◌∷◌, ◌++◌, arith,
}
use dui.Base.Outcome.{Result-cases, Result, ok, throw, Error}
use mathlib.Core.List.{append_assoc}
use dui.Semantics.Tree.{
  Node, node, Nodes, nil, cons, Entry, head_of, children_of, Pending, push_nodes, Listing, visit,
  walk, size, size_all,
}
use dui.Semantics.Tree.Entries.{entries_all, entries_of}

module _ {B : Type 0} where
  unfoldable pub checks : List (Entry B) → Listing B → Result (Listing B)
  checks [] s = ok s
  checks (e ∷ es) s = elim (visit e.head e.parent_id e.child_index s) [
    | throw x ↦ throw x
    | ok t ↦ checks es t
  ]

  unfoldable pub visits : List (Pending B) → List (Entry B)
  visits [] = []
  visits (p ∷ ps) = entries_of p.it p.parent p.place ++ visits ps

  unfoldable pub weight : List (Pending B) → ℕ
  weight [] = 0
  weight (p ∷ ps) = size p.it + weight ps

  pub visits-push_nodes :
      (parent : Option ℕ) (index : ℕ) (ns : Nodes B) (ps : List (Pending B))
      → visits (push_nodes parent index ns ps) ≡ entries_all parent index ns ++ visits ps
  unfolding push_nodes visits entries_all
  visits-push_nodes parent index nil ps = refl
  visits-push_nodes parent index (cons n ns) ps = rw (visits-push_nodes parent (index + 1) ns ps) (
      sym
        (append_assoc (entries_of n parent index) (entries_all parent (index + 1) ns) (visits ps)))

  pub weight-push_nodes :
      (parent : Option ℕ) (index : ℕ) (ns : Nodes B) (ps : List (Pending B))
      → weight (push_nodes parent index ns ps) ≡ size_all ns + weight ps
  unfolding push_nodes weight size_all
  weight-push_nodes parent index nil ps = omega arith
  weight-push_nodes parent index (cons n ns) ps =
      omega (arith, weight-push_nodes parent (index + 1) ns ps)

  entries_of_step :
      (n : Node B) (parent : Option ℕ) (place : ℕ)
      → entries_of n parent place
        ≡ record { head = head_of n; parent_id = parent; child_index = place }
          ∷ entries_all (some (head_of n).id) 0 (children_of n)
  unfolding entries_of
  entries_of_step (node h ns) parent place = refl

  size_step : (n : Node B) → size n ≡ suc (size_all (children_of n))
  unfolding size
  size_step (node h ns) = refl

  walk_throw :
      (fuel : ℕ) (p : Pending B) (ps : List (Pending B)) (s : Listing B) {x : Error}
      → visit (head_of p.it) p.parent p.place s ≡ throw x
      → walk (suc fuel) (p ∷ ps) s ≡ throw x
  unfolding walk
  walk_throw fuel p ps s e = ground (arith, e)

  walk_ok :
      (fuel : ℕ) (p : Pending B) (ps : List (Pending B)) (s : Listing B) {t : Listing B}
      → visit (head_of p.it) p.parent p.place s ≡ ok t
      → walk (suc fuel) (p ∷ ps) s
        ≡ walk fuel (push_nodes (some (head_of p.it).id) 0 (children_of p.it) ps) t
  unfolding walk
  walk_ok fuel p ps s e = ground (arith, e)

  pub checks_throw :
      (x : Entry B) (es : List (Entry B)) (s : Listing B) {y : Error}
      → visit x.head x.parent_id x.child_index s ≡ throw y
      → checks (x ∷ es) s ≡ throw y
  unfolding checks
  checks_throw x es s e = ground (arith, e)

  pub checks_ok :
      (x : Entry B) (es : List (Entry B)) (s : Listing B) {t : Listing B}
      → visit x.head x.parent_id x.child_index s ≡ ok t
      → checks (x ∷ es) s ≡ checks es t
  unfolding checks
  checks_ok x es s e = ground (arith, e)

  -- With fuel for every node the loop makes the checks in the order of the recursion.
  pub walk-checks :
      (fuel : ℕ) (ps : List (Pending B)) (s : Listing B)
      → weight ps ≤ fuel
      → walk fuel ps s ≡ checks (visits ps) s
  unfolding walk visits checks weight
  walk-checks zero [] s h = refl
  walk-checks (suc fuel) [] s h = refl
  walk-checks zero (p ∷ ps) s h = absurd (omega (arith, size_step p.it))
  walk-checks (suc fuel) (p ∷ ps) s h =
      let children = children_of p.it in
      let parent = some (head_of p.it).id in
      let below : weight (push_nodes parent 0 children ps) ≤ fuel =
        omega (arith, size_step p.it, weight-push_nodes parent 0 children ps) in
      rw (entries_of_step p.it p.parent p.place)
        (elim (Result-cases (visit (head_of p.it) p.parent p.place s)) [
          | inr (x, e) ↦ walk_throw fuel p ps s e ∙ sym (checks_throw _ _ s e)
          | inl (t, e) ↦
              walk_ok fuel p ps s e
              ∙ (walk-checks fuel (push_nodes parent 0 children ps) t below
                  ∙ (rw (visits-push_nodes parent 0 children ps) refl ∙ sym (checks_ok _ _ s e)))
        ])
