-- ===== src/Input/Focus/Detach.antt =====
-- A node goes away: its children go to its parent, and the focus falls back.
use dui.Base.{
  ℕ, ◌<◌, ◌≡◌, refl, subst, ◌≢◌, inl, inr, true, false, Option, none, some, List, arith, ◌==◌,
  if◌then◌else◌, Bool-cases,
}
use dui.Base.Assoc.{find, erase, find-erase}
use dui.Input.Focus.{FocusNode, Manager, reparent, adopted, is_id, drop_node, detach, fall_back}
use dui.Input.Focus.Invariant.{
  Inv, IsForest, IsNode, IsParent, IsFocus, is_present, find-reparent, found_cases,
}
use dui.Input.Focus.Routes.{nobody, above, here, Nearest, fall_back-Nearest}

module _ {E : Type 0} where
  find-left :
      (id : ℕ) (parent : Option ℕ) (nodes : List (ℕ × FocusNode E)) (k : ℕ)
      → find k (reparent id parent (erase id nodes))
        ≡ (elim (if k == id then none else find k nodes) [
          | none ↦ none
          | some n ↦ some (adopted id parent n)
        ])
  find-left id parent nodes k =
      rw (find-reparent id parent (erase id nodes) k, find-erase id k nodes) refl

  left_present :
      (id : ℕ) (parent : Option ℕ) (nodes : List (ℕ × FocusNode E)) (p : ℕ)
      → p ≢ id
      → is_present nodes p ≡ true
      → is_present (reparent id parent (erase id nodes)) p ≡ true
  left_present id parent nodes p ne h = ground (arith, find-left id parent nodes p)

  left-IsParent :
      (id k : ℕ) (parent o : Option ℕ) (nodes : List (ℕ × FocusNode E))
      → IsParent nodes id parent
      → IsParent nodes k o
      → IsParent (reparent id parent (erase id nodes)) k (if is_id o id then parent else o)
  left-IsParent id k parent none nodes hp ho = tt
  left-IsParent id k none (some q) nodes hp ho = ground (arith, left_present id none nodes q)
  left-IsParent id k (some p) (some q) nodes hp ho =
      ground (arith, left_present id (some p) nodes q, left_present id (some p) nodes p)

  left-IsNode :
      (id k next : ℕ) (parent : Option ℕ) (nodes : List (ℕ × FocusNode E))
      (o : Option (FocusNode E))
      → IsParent nodes id parent
      → IsNode nodes next k o
      → IsNode
          (reparent id parent (erase id nodes))
          next
          k
          (elim (if k == id then none else o) [ none ↦ none | some n ↦ some (adopted id parent n) ])
  left-IsNode id k next parent nodes none hp h = ground arith
  left-IsNode id k next parent nodes (some m) hp h =
      ground (arith, left-IsParent id k parent m.parent nodes hp h.1)

  IsForest-left :
      (id : ℕ) (n : FocusNode E) (nodes : List (ℕ × FocusNode E)) (next : ℕ)
      → find id nodes ≡ some n
      → IsForest nodes next
      → IsForest (reparent id n.parent (erase id nodes)) next
  IsForest-left id n nodes next e v k = rw (find-left id n.parent nodes k) (
      left-IsNode id k next n.parent nodes (find k nodes) (subst (IsNode nodes next id) e (v id)).1
        (v k))

  fall_back-IsFocus :
      (nodes : List (ℕ × FocusNode E)) {o r : Option ℕ} → Nearest nodes o r → IsFocus nodes r
  fall_back-IsFocus nodes nobody = tt
  fall_back-IsFocus nodes (here p n e c) = ground (arith, e, c)
  fall_back-IsFocus nodes (above p n r e c h) = fall_back-IsFocus nodes h

  left-IsFocus :
      (id : ℕ) (parent : Option ℕ) (nodes : List (ℕ × FocusNode E)) (o : Option ℕ)
      → is_id o id ≡ false
      → IsFocus nodes o
      → IsFocus (reparent id parent (erase id nodes)) o
  left-IsFocus id parent nodes none h f = tt
  left-IsFocus id parent nodes (some q) h f = ground (arith, find-left id parent nodes q)

  left_way :
      (id next : ℕ) (n : FocusNode E) (nodes : List (ℕ × FocusNode E))
      → find id nodes ≡ some n
      → IsForest nodes next
      → IsParent (reparent id n.parent (erase id nodes)) next n.parent
  left_way id next n nodes e v = go n.parent (subst (IsNode nodes next id) e (v id))
    where
      go :
          (o : Option ℕ)
          → (id < next) × IsParent nodes id o
          → IsParent (reparent id n.parent (erase id nodes)) next o
      go none h = tt
      go (some q) h = (
        omega (arith, h.0, h.1.0),
        left_present id n.parent nodes q (λ g. omega (arith, h.1.0, g)) h.1.1,
      )

  detach-Inv :
      (id : ℕ) (n : FocusNode E) (s : Manager E)
      → find id s.nodes ≡ some n
      → Inv s
      → Inv (detach id n.parent s)
  unfolding detach
  detach-Inv id n s e v = elim (Bool-cases (is_id s.focused id)) [
    | inl it ↦ rw it (record {
      forest = IsForest-left id n s.nodes s.next_id e v.forest;
      focus = fall_back-IsFocus _ (
          fall_back-Nearest _ s.next_id (IsForest-left id n s.nodes s.next_id e v.forest) s.next_id
            n.parent (left_way id s.next_id n s.nodes e v.forest));
      alive = v.alive;
    })
    | inr other ↦ rw other (record {
      forest = IsForest-left id n s.nodes s.next_id e v.forest;
      focus = left-IsFocus id n.parent s.nodes s.focused other v.focus;
      alive = v.alive;
    })
  ]

  drop_focused :
      (id : ℕ) (n : FocusNode E) (s : Manager E)
      → s.alive ≡ true
      → find id s.nodes ≡ some n
      → s.focused ≡ some id
      → let nodes = reparent id n.parent (erase id s.nodes) in
        drop_node id s ≡ record s { nodes = nodes; focused = fall_back s.next_id nodes n.parent }
  unfolding drop_node detach
  drop_focused id n s alive e f = ground (arith, alive, e, f)

  -- While the manager is alive and its nodes are a forest: when the focused node goes away, the focus
  -- falls back to the nearest of its ancestors that can have it, or to nobody when none can.
  pub drop_node-Nearest :
      (id : ℕ) (n : FocusNode E) (s : Manager E)
      → Inv s
      → find id s.nodes ≡ some n
      → s.focused ≡ some id
      → let t = drop_node id s in (find id t.nodes ≡ none) × Nearest t.nodes n.parent t.focused
  drop_node-Nearest id n s v e f = rw (drop_focused id n s v.alive e f) (
    ground (arith, find-left id n.parent s.nodes id),
    fall_back-Nearest _ s.next_id (IsForest-left id n s.nodes s.next_id e v.forest) s.next_id
        n.parent (left_way id s.next_id n s.nodes e v.forest),
  )

  drop_node_absent : (id : ℕ) (s : Manager E) → find id s.nodes ≡ none → drop_node id s ≡ s
  unfolding drop_node
  drop_node_absent id s e = ground (arith, e)

  drop_node_present :
      (id : ℕ) (n : FocusNode E) (s : Manager E)
      → find id s.nodes ≡ some n
      → s.alive ≡ true
      → drop_node id s ≡ detach id n.parent s
  unfolding drop_node
  drop_node_present id n s e alive = ground (arith, e, alive)

  pub drop_node-Inv : (id : ℕ) (s : Manager E) → Inv s → Inv (drop_node id s)
  drop_node-Inv id s v = elim (found_cases s.nodes id) [
    | inl absent ↦ rw (drop_node_absent id s absent) v
    | inr (n, e) ↦ rw (drop_node_present id n s e v.alive) (detach-Inv id n s e v)
  ]
