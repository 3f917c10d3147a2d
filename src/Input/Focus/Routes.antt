-- ===== src/Input/Focus/Routes.antt =====
-- The two ways up the ancestors: where the focus falls back to, and whom a key event is offered to.
use dui.Base.{
  ℕ, zero, suc, ◌≤◌, ◌≡◌, refl, subst, ◌⊎◌, inl, inr, true, false, Option, none, some, List, [],
  ◌∷◌, arith, if◌then◌else◌, Bool-cases, is_some, set,
}
use dui.Base.Assoc.{find}
use dui.Input.Focus.{
  FocusNode, Manager, KeyEventResult, ignored, handled, fall_back, route, offer, dispatch_key,
}
use dui.Input.Focus.Invariant.{IsFocus, IsNode, IsNode, Inv, IsForest, IsParent}

-- The first node, from the given one up, that can have the focus.
pub data Nearest {E : Type 0} (nodes : List (ℕ × FocusNode E)) : Option ℕ → Option ℕ → Type 0 where
  nobody : Nearest nodes none none
  here :
      (p : ℕ) (n : FocusNode E)
      → find p nodes ≡ some n
      → n.can_focus ≡ true
      → Nearest nodes (some p) (some p)
  above :
      (p : ℕ) (n : FocusNode E) (r : Option ℕ)
      → find p nodes ≡ some n
      → n.can_focus ≡ false
      → Nearest nodes n.parent r
      → Nearest nodes (some p) r

-- An event goes from a node to its parent until a handler handles it: who is called, and the result.
pub data Bubbles {E : Type 0} (nodes : List (ℕ × FocusNode E)) (event : E)
    : Option ℕ → List ℕ × KeyEventResult → Type 0 where
  top : Bubbles nodes event none ([], ignored)
  silent :
      (p : ℕ) (n : FocusNode E) (r : List ℕ × KeyEventResult)
      → find p nodes ≡ some n
      → n.handler ≡ none
      → Bubbles nodes event n.parent r
      → Bubbles nodes event (some p) r
  passes :
      (p : ℕ) (n : FocusNode E) (handler : E → KeyEventResult) (r : List ℕ × KeyEventResult)
      → find p nodes ≡ some n
      → n.handler ≡ some handler
      → handler event ≡ ignored
      → Bubbles nodes event n.parent r
      → Bubbles nodes event (some p) (p ∷ r.0, r.1)
  stops :
      (p : ℕ) (n : FocusNode E) (handler : E → KeyEventResult)
      → find p nodes ≡ some n
      → n.handler ≡ some handler
      → handler event ≡ handled
      → Bubbles nodes event (some p) (p ∷ [], handled)

result_cases : (r : KeyEventResult) → (r ≡ ignored) ⊎ (r ≡ handled)
result_cases ignored = inl refl
result_cases handled = inr refl

module _ {E : Type 0} where
  IsParent-raise :
      (nodes : List (ℕ × FocusNode E)) (p fuel : ℕ) (o : Option ℕ)
      → p ≤ fuel
      → IsParent nodes p o
      → IsParent nodes fuel o
  IsParent-raise nodes p fuel none le h = tt
  IsParent-raise nodes p fuel (some q) le h = (omega (arith, h.0), h.1)

  found_present :
      (nodes : List (ℕ × FocusNode E)) (p : ℕ)
      → is_some (find p nodes) ≡ true
      → (n : FocusNode E) × (find p nodes ≡ some n)
  found_present nodes p h = ground arith

  handler_cases :
      (o : Option (E → KeyEventResult)) (event : E)
      → (o ≡ none)
        ⊎ ((h : E → KeyEventResult) × (o ≡ some h) × ((h event ≡ ignored) ⊎ (h event ≡ handled)))
  handler_cases none event = inl refl
  handler_cases (some h) event = inr (h, refl, result_cases (h event))

  fall_back_step :
      (nodes : List (ℕ × FocusNode E)) (fuel p : ℕ) (n : FocusNode E)
      → find p nodes ≡ some n
      → fall_back (suc fuel) nodes (some p)
        ≡ (if n.can_focus then some p else fall_back fuel nodes n.parent)
  unfolding fall_back
  fall_back_step nodes fuel p n e = ground (arith, e)

  route_step :
      (nodes : List (ℕ × FocusNode E)) (fuel p : ℕ) (n : FocusNode E)
      → find p nodes ≡ some n
      → route (suc fuel) nodes (some p) ≡ (p, n) ∷ route fuel nodes n.parent
  unfolding route
  route_step nodes fuel p n e = ground (arith, e)

  offer-Bubbles_step :
      (nodes : List (ℕ × FocusNode E)) (event : E) (p : ℕ) (n : FocusNode E)
      (rest : List (ℕ × FocusNode E))
      → find p nodes ≡ some n
      → Bubbles nodes event n.parent (offer event rest)
      → Bubbles nodes event (some p) (offer event ((p, n) ∷ rest))
  unfolding offer
  offer-Bubbles_step nodes event p n rest e up = elim (handler_cases n.handler event) [
    | inl none_set ↦ rw none_set (silent p n _ e none_set up)
    | inr (h, set, inl r) ↦ rw (set, r) (passes p n h _ e set r up)
    | inr (h, set, inr r) ↦ rw (set, r) (stops p n h e set r)
  ]

module _ {E : Type 0} (nodes : List (ℕ × FocusNode E)) (next : ℕ)
    (forest : IsForest nodes next) where
  -- Ids fall on the way up, so that the fuel is enough.
  next_on_way :
      (p fuel : ℕ) (n : FocusNode E)
      → find p nodes ≡ some n
      → p ≤ fuel
      → IsParent nodes fuel n.parent
  next_on_way p fuel n e le =
      IsParent-raise nodes p fuel n.parent le (subst (IsNode nodes next p) e (forest p)).1

  pub fall_back-Nearest :
      (fuel : ℕ) (o : Option ℕ) → IsParent nodes fuel o → Nearest nodes o (fall_back fuel nodes o)
  fall_back-Nearest fuel none h = unfold fall_back in nobody
  fall_back-Nearest zero (some p) h = absurd (omega (arith, h.0))
  fall_back-Nearest (suc fuel) (some p) h =
      let (n, e) = found_present nodes p h.1 in
      let up = fall_back-Nearest fuel n.parent (next_on_way p fuel n e (omega (arith, h.0))) in
      rw (fall_back_step nodes fuel p n e) (elim (Bool-cases n.can_focus) [
        | inl can ↦ rw can (here p n e can)
        | inr cannot ↦ rw cannot (above p n _ e cannot up)
      ])

  pub offer-Bubbles :
      (event : E) (fuel : ℕ) (o : Option ℕ)
      → IsParent nodes fuel o
      → Bubbles nodes event o (offer event (route fuel nodes o))
  offer-Bubbles event fuel none h = unfold offer route in top
  offer-Bubbles event zero (some p) h = absurd (omega (arith, h.0))
  offer-Bubbles event (suc fuel) (some p) h =
      let (n, e) = found_present nodes p h.1 in
      let up = offer-Bubbles event fuel n.parent (next_on_way p fuel n e (omega (arith, h.0))) in
      rw (route_step nodes fuel p n e) (offer-Bubbles_step nodes event p n _ e up)

module _ {E : Type 0} where
  IsFocus-IsParent : {s : Manager E} → Inv s → IsParent s.nodes s.next_id s.focused
  IsFocus-IsParent {s} v = go s.focused v.focus
    where
      go : (o : Option ℕ) → IsFocus s.nodes o → IsParent s.nodes s.next_id o
      go none f = tt
      go (some p) f = ground (arith, f, v.forest p)

  -- While the manager is alive and its nodes are a forest: dispatch_key offers the event to the
  -- focused node and then to its ancestors, from the nearest up, until a handler handles it; the
  -- result is ignored when none does.
  pub dispatch_key-Bubbles :
      (event : E) (s : Manager E) → Inv s → Bubbles s.nodes event s.focused (dispatch_key event s)
  unfolding dispatch_key
  dispatch_key-Bubbles event s v =
      offer-Bubbles s.nodes s.next_id v.forest event s.next_id s.focused (IsFocus-IsParent v)
