-- ===== src/Input/Focus/Changes.antt =====
-- A node is added, or changed in place.
use dui.Base.{
  ℕ, ◌+◌, ◌<◌, ◌≡◌, sym, subst, inl, inr, true, Option, none, some, List, arith, ◌==◌,
  if◌then◌else◌,
}
use dui.Base.Assoc.{find, put, find-put}
use dui.Input.Focus.{FocusNode, emplace}
use dui.Input.Focus.Invariant.{
  IsForest, IsNode, IsParent, IsFocus, is_present, find-emplace, found_cases,
}

module _ {E : Type 0} where
  -- An id that is free, since ids are given out in order.
  pub next_free :
      (nodes : List (ℕ × FocusNode E)) (next : ℕ) → IsForest nodes next → find next nodes ≡ none
  next_free nodes next v = elim (found_cases nodes next) [
    | inl e ↦ e
    | inr (n, e) ↦ absurd (omega (arith, (subst (IsNode nodes next next) e (v next)).0))
  ]

  pub added_present :
      (n : FocusNode E) (nodes : List (ℕ × FocusNode E)) (next p : ℕ)
      → find next nodes ≡ none
      → is_present nodes p ≡ true
      → is_present (emplace next n nodes) p ≡ true
  added_present n nodes next p free h = ground (arith, find-emplace next n nodes p free)

  pub added-IsParent :
      (n : FocusNode E) (nodes : List (ℕ × FocusNode E)) (next k : ℕ) (o : Option ℕ)
      → find next nodes ≡ none
      → IsParent nodes k o
      → IsParent (emplace next n nodes) k o
  added-IsParent n nodes next k none free h = tt
  added-IsParent n nodes next k (some p) free h = (h.0, added_present n nodes next p free h.1)

  added-IsNode :
      (n : FocusNode E) (nodes : List (ℕ × FocusNode E)) (next k : ℕ) (o : Option (FocusNode E))
      → find next nodes ≡ none
      → IsNode nodes next k o
      → IsParent nodes next n.parent
      → IsNode (emplace next n nodes) (next + 1) k (if k == next then some n else o)
  added-IsNode n nodes next k none free h hp =
      ground (arith, added-IsParent n nodes next next n.parent free hp)
  added-IsNode n nodes next k (some m) free h hp = ground (
    arith,
    added-IsParent n nodes next next n.parent free hp,
    added-IsParent n nodes next k m.parent free h.1,
  )

  pub IsForest-added :
      (n : FocusNode E) (nodes : List (ℕ × FocusNode E)) (next : ℕ)
      → IsForest nodes next
      → IsParent nodes next n.parent
      → IsForest (emplace next n nodes) (next + 1)
  IsForest-added n nodes next v h k =
      let free = next_free nodes next v in
      rw (find-emplace next n nodes k free)
        (added-IsNode n nodes next k (find k nodes) free (v k) h)

  pub IsFocus-added :
      (n : FocusNode E) (nodes : List (ℕ × FocusNode E)) (next : ℕ) (o : Option ℕ)
      → find next nodes ≡ none
      → IsFocus nodes o
      → IsFocus (emplace next n nodes) o
  IsFocus-added n nodes next none free h = tt
  IsFocus-added n nodes next (some f) free h = ground (arith, find-emplace next n nodes f free)

  -- A node changes, but not its parent.
  put_present :
      (id : ℕ) (m : FocusNode E) (nodes : List (ℕ × FocusNode E)) (p : ℕ)
      → is_present nodes p ≡ true
      → is_present (put id m nodes) p ≡ true
  put_present id m nodes p h = ground (arith, find-put id p m nodes)

  put-IsParent :
      (id : ℕ) (m : FocusNode E) (nodes : List (ℕ × FocusNode E)) (k : ℕ) (o : Option ℕ)
      → IsParent nodes k o
      → IsParent (put id m nodes) k o
  put-IsParent id m nodes k none h = tt
  put-IsParent id m nodes k (some p) h = (h.0, put_present id m nodes p h.1)

  put-IsNode :
      (id : ℕ) (m : FocusNode E) (nodes : List (ℕ × FocusNode E)) (next k : ℕ)
      (o : Option (FocusNode E))
      → IsNode nodes next k o
      → IsNode (put id m nodes) next k o
  put-IsNode id m nodes next k none h = tt
  put-IsNode id m nodes next k (some n) h = (h.0, put-IsParent id m nodes k n.parent h.1)

  changed-IsNode :
      (id : ℕ) (m : FocusNode E) (nodes : List (ℕ × FocusNode E)) (next k : ℕ)
      (o : Option (FocusNode E))
      → IsNode nodes next id (some m)
      → IsNode nodes next k o
      → IsNode (put id m nodes) next k (if k == id then some m else o)
  changed-IsNode id m nodes next k none hm h =
      ground (arith, put-IsNode id m nodes next id (some m) hm)
  changed-IsNode id m nodes next k (some n) hm h =
      ground
        (arith, put-IsNode id m nodes next id (some m) hm, put-IsNode id m nodes next k (some n) h)

  pub IsForest-put :
      (id : ℕ) (n m : FocusNode E) (nodes : List (ℕ × FocusNode E)) (next : ℕ)
      → find id nodes ≡ some n
      → m.parent ≡ n.parent
      → IsForest nodes next
      → IsForest (put id m nodes) next
  IsForest-put id n m nodes next e p v k = rw (find-put id k m nodes) (
      changed-IsNode id m nodes next k (find k nodes)
        (subst (λ o. (id < next) × IsParent nodes id o) (sym p)
          (subst (IsNode nodes next id) e (v id)))
        (v k))

  pub IsFocus-same :
      (id : ℕ) (n m : FocusNode E) (nodes : List (ℕ × FocusNode E)) (o : Option ℕ)
      → find id nodes ≡ some n
      → m.can_focus ≡ n.can_focus
      → IsFocus nodes o
      → IsFocus (put id m nodes) o
  IsFocus-same id n m nodes none e c h = tt
  IsFocus-same id n m nodes (some f) e c h = ground (arith, find-put id f m nodes, e, c)
