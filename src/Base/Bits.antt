-- ===== src/Base/Bits.antt =====
-- Bit operations: `|` of operands that share no bit, and tests run over a byte's values.
use native.Mathlib.Nat.{pow-suc}
use Prim.Native.Nat.{digits, bit_or, bit_or-bitwise}
use dui.Base.{
  ◌∙◌, ℕ, zero, suc, ◌+◌, ◌*◌, ◌/◌, ◌^◌, ◌≤◌, ◌<◌, max, ◌≡◌, refl, ◌⊎◌, inl, inr, Bool, true, ◌&&◌,
  arith,
}

-- The test passes on 0, 1, ... below the bound.
unfoldable pub passes : ℕ → (ℕ → Bool) → Bool
passes zero test = true
passes (suc bound) test = passes bound test && test bound

pub passes_at :
    (bound : ℕ) (test : ℕ → Bool) → passes bound test ≡ true → (x : ℕ) → x < bound → test x ≡ true
unfolding passes
passes_at zero test all x below = absurd (omega arith)
passes_at (suc bound) test all x below =
    let last : (x ≡ bound) ⊎ (x < bound) = omega arith in
    elim last [
      | inl e ↦ rw e (ground arith)
      | inr lower ↦ passes_at bound test (ground arith) x lower
    ]

-- `|` on digits, where the low k digits of the first operand are 0 and the second has no others.
digits_disjoint :
    (n k a high low : ℕ)
    → high ≤ n
    → high ≡ a * 2 ^ k
    → low < 2 ^ k
    → digits (λ y. y) max n high low ≡ high + low
digits_disjoint zero k a zero low le e lt = omega arith
digits_disjoint zero k a (suc high) low le e lt = absurd (omega arith)
digits_disjoint (suc n) k a zero low le e lt = omega arith
digits_disjoint (suc n) zero a (suc high) low le e lt = omega (
  arith,
  digits_disjoint n 0 (suc high / 2) (suc high / 2) (low / 2) (omega arith) (omega arith)
      (omega arith),
)
digits_disjoint (suc n) (suc k) a (suc high) low le e lt =
    let doubled : a * 2 ^ suc k ≡ a * 2 ^ k * 2 = rw pow-suc (omega arith) in
    let half : low / 2 < 2 ^ k = omega (arith, pow-suc 2 k) in
    let tail : suc high / 2 ≡ a * 2 ^ k = omega (arith, doubled, e) in
    omega (
      arith,
      doubled,
      e,
      tail,
      digits_disjoint n k a (suc high / 2) (low / 2) (omega arith) tail half,
    )

-- (a << 6) | b is a sum, where b has only the low 6 bits.
pub bit_or_sextet : (a b : ℕ) → b < 64 → bit_or (a * 64) b ≡ a * 64 + b
bit_or_sextet a b h =
    bit_or-bitwise (a * 64) b ∙ digits_disjoint (a * 64) 6 a (a * 64) b (omega arith) refl h
