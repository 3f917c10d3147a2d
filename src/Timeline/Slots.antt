-- ===== src/Timeline/Slots.antt =====
-- Slots of a ring, and the lists that it is kept in.
use dui.Base.{
  ℕ, zero, suc, ◌+◌, ◌-◌, ◌%◌, ◌≤◌, ◌<◌, ◌≡◌, refl, ap, ◌∙◌, ◌≢◌, ◌⊎◌, inl, inr, List, [], ◌∷◌,
  arith, ltb, Bool-cases, length, set, get_or,
}
use native.Mathlib.Nat.{mod-eq_of_lt, mod-eq-sub-mod, mod-add-mod}

module _ {A : Type 0} where
  pub get_or-set_self :
      (xs : List A) (i : ℕ) (v d : A) → i < length xs → get_or (set xs i v) i d ≡ v
  get_or-set_self [] i v d h = absurd (omega (arith, h))
  get_or-set_self (x ∷ xs) zero v d h = refl
  get_or-set_self (x ∷ xs) (suc i) v d h = get_or-set_self xs i v d (omega (arith, h))

  pub get_or-set_ne :
      (xs : List A) (i j : ℕ) (v d : A) → i ≢ j → get_or (set xs i v) j d ≡ get_or xs j d
  get_or-set_ne [] i j v d h = refl
  get_or-set_ne (x ∷ xs) zero zero v d h = absurd (h refl)
  get_or-set_ne (x ∷ xs) zero (suc j) v d h = refl
  get_or-set_ne (x ∷ xs) (suc i) zero v d h = refl
  get_or-set_ne (x ∷ xs) (suc i) (suc j) v d h = get_or-set_ne xs i j v d (λ e. h (ap suc e))

slot_wraps :
    (f i c : ℕ)
    → f < c
    → i ≤ c
    → ((f + i) % c ≡ f + i) × (f + i < c) ⊎ ((f + i) % c ≡ f + i - c) × (c ≤ f + i)
slot_wraps f i c hf hi = elim (Bool-cases (ltb (f + i) c)) [
  | inl low ↦ let lt : f + i < c = ground (arith, low) in inl (mod-eq_of_lt lt, lt)
  | inr high ↦
      let le : c ≤ f + i = ground (arith, high) in
      inr (mod-eq-sub-mod le ∙ mod-eq_of_lt (omega (arith, le, hf, hi)), le)
]

pub slot_ne : (f i j c : ℕ) → f < c → i < c → j < c → i ≢ j → (f + i) % c ≢ (f + j) % c
slot_ne f i j c hf hi hj ne e = ne (elim (slot_wraps f i c hf (omega arith)) [
  | inl (a, la) ↦ elim (slot_wraps f j c hf (omega arith)) [
    | inl (b, lb) ↦ omega (arith, e, a, b)
    | inr (b, lb) ↦ absurd (omega (arith, e, a, b))
  ]
  | inr (a, la) ↦ elim (slot_wraps f j c hf (omega arith)) [
    | inl (b, lb) ↦ absurd (omega (arith, e, a, b))
    | inr (b, lb) ↦ omega (arith, e, a, b)
  ]
])

pub slot_next : (f i c : ℕ) → ((f + 1) % c + i) % c ≡ (f + (i + 1)) % c
slot_next f i c = mod-add-mod (f + 1) c i ∙ ap (λ n. n % c) (omega arith)

pub slot_last : (f i c : ℕ) → f < c → i + 1 ≡ c → (f + (i + 1)) % c ≡ f
slot_last f i c h e = elim (slot_wraps f (i + 1) c h (omega arith)) [
  | inl (a, l) ↦ absurd (omega (arith, e, l))
  | inr (a, l) ↦ omega (arith, a, e)
]

pub first_ne : (f j c : ℕ) → f < c → j < c → 0 < j → f ≢ (f + j) % c
first_ne f j c hf hj pos e = elim (slot_wraps f j c hf (omega arith)) [
  | inl (a, l) ↦ omega (arith, e, a)
  | inr (a, l) ↦ omega (arith, e, a)
]
