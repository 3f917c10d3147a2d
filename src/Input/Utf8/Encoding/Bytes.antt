-- ===== src/Input/Utf8/Encoding/Bytes.antt =====
-- The masks of is_valid_utf8 over a byte, as arithmetic.
use Prim.Native.Nat.{bit_and, bit_or}
use dui.Base.Bits.{passes, passes_at, bit_or_sextet}
use dui.Input.Utf8.{lead, continuations}
use dui.Base.{
  [], bool_eq, bool_eq→eq, ℕ, suc, ◌+◌, ◌-◌, ◌*◌, ◌%◌, ◌<◌, ◌≡◌, refl, true, ◌&&◌, none, some, List,
  ◌∷◌, arith, ltb, leb, ◌==◌, if◌then◌else◌, u32,
}

table_c0 : passes 256 (λ b. bool_eq (bit_and b 0xc0 == 0x80) (leb 0x80 b && ltb b 0xc0)) ≡ true
unfolding passes
table_c0 = refl

table_e0 : passes 256 (λ b. bool_eq (bit_and b 0xe0 == 0xc0) (leb 0xc0 b && ltb b 0xe0)) ≡ true
unfolding passes
table_e0 = refl

table_f0 : passes 256 (λ b. bool_eq (bit_and b 0xf0 == 0xe0) (leb 0xe0 b && ltb b 0xf0)) ≡ true
unfolding passes
table_f0 = refl

table_f8 : passes 256 (λ b. bool_eq (bit_and b 0xf8 == 0xf0) (leb 0xf0 b && ltb b 0xf8)) ≡ true
unfolding passes
table_f8 = refl

table_low :
    passes 256 (λ b.
      bit_and b 0x3f == b % 64
      && bit_and b 0x1f == b % 32
      && bit_and b 0x0f == b % 16
      && bit_and b 0x07 == b % 8)
    ≡ true
unfolding passes
table_low = refl

pub is_continuation_lem : (b : ℕ) → b < 256 → (bit_and b 0xc0 == 0x80) ≡ (leb 0x80 b && ltb b 0xc0)
is_continuation_lem b h = bool_eq→eq _ _ (passes_at 256 _ table_c0 b h)

lead_two : (b : ℕ) → b < 256 → (bit_and b 0xe0 == 0xc0) ≡ (leb 0xc0 b && ltb b 0xe0)
lead_two b h = bool_eq→eq _ _ (passes_at 256 _ table_e0 b h)

lead_three : (b : ℕ) → b < 256 → (bit_and b 0xf0 == 0xe0) ≡ (leb 0xe0 b && ltb b 0xf0)
lead_three b h = bool_eq→eq _ _ (passes_at 256 _ table_f0 b h)

lead_four : (b : ℕ) → b < 256 → (bit_and b 0xf8 == 0xf0) ≡ (leb 0xf0 b && ltb b 0xf8)
lead_four b h = bool_eq→eq _ _ (passes_at 256 _ table_f8 b h)

low_bits :
    (b : ℕ)
    → b < 256
    → (bit_and b 0x3f ≡ b % 64)
      × (bit_and b 0x1f ≡ b % 32)
      × (bit_and b 0x0f ≡ b % 16)
      × (bit_and b 0x07 ≡ b % 8)
low_bits b h = ground (arith, passes_at 256 _ table_low b h)

-- The first byte by ranges.
pub lead_lem :
    (b : ℕ)
    → b < 256
    → lead b ≡ (
        if ltb b 0x80
        then some (record { size = 1; code_point = b; minimum = 0 })
        else if leb 0xc0 b && ltb b 0xe0
        then some (record { size = 2; code_point = b - 0xc0; minimum = 0x80 })
        else if leb 0xe0 b && ltb b 0xf0
        then some (record { size = 3; code_point = b - 0xe0; minimum = 0x800 })
        else if leb 0xf0 b && ltb b 0xf8
        then some (record { size = 4; code_point = b - 0xf0; minimum = 0x10000 })
        else none)
unfolding lead
lead_lem b h = ground (arith, lead_two b h, lead_three b h, lead_four b h, low_bits b h)

shift_in :
    (c b : ℕ) → b < 256 → c < 67108864 → bit_or (u32 (c * 64)) (bit_and b 0x3f) ≡ c * 64 + b % 64
shift_in c b h k =
    let e : u32 (c * 64) ≡ c * 64 = omega arith in
    let l : b % 64 < 64 = omega arith in rw (e, (low_bits b h).0) (bit_or_sextet c (b % 64) l)

-- A continuation byte adds its six bits.
pub continuations-cons :
    (n c b : ℕ) (bs : List ℕ)
    → b < 256
    → c < 67108864
    → continuations (suc n) c (b ∷ bs)
      ≡ (if leb 0x80 b && ltb b 0xc0 then continuations n (c * 64 + (b - 0x80)) bs else none)
unfolding continuations
continuations-cons n c b bs h k = ground (arith, is_continuation_lem b h, shift_in c b h k)

pub continuations-zero : (c : ℕ) (bs : List ℕ) → continuations 0 c bs ≡ some c
unfolding continuations
continuations-zero c bs = refl

pub continuations-nil : (n c : ℕ) → continuations (suc n) c [] ≡ none
unfolding continuations
continuations-nil n c = refl
