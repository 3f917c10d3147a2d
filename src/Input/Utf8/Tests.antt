-- ===== src/Input/Utf8/Tests.antt =====
-- "aé€😀": one code point of each length, in 10 bytes.
use dui.Input.Utf8.{
  scan, next_scalar, lead, continuations, is_valid_utf8, TextRange, valid_for, is_rejected,
}
use dui.Input.Utf8.Encoding.{encode_all, encode, AllScalar}
use dui.Input.Utf8.Validity.{is_valid_utf8_iff}
use dui.Input.Utf8.Boundary.{valid_for_iff, Selects}
use dui.Base.{ℕ, ◌≡◌, refl, ◌↔◌, true, false, List, [], ◌∷◌, arith}

abbrev scalars : List ℕ
scalars = 0x61 ∷ 0xe9 ∷ 0x20ac ∷ 0x1f600 ∷ []

abbrev bytes : List ℕ
bytes = 0x61 ∷ 0xc3 ∷ 0xa9 ∷ 0xe2 ∷ 0x82 ∷ 0xac ∷ 0xf0 ∷ 0x9f ∷ 0x98 ∷ 0x80 ∷ []

encoded : encode_all scalars ≡ bytes
unfolding encode_all encode
encoded = refl

accepted : is_valid_utf8 bytes ≡ true
unfolding is_valid_utf8 scan next_scalar lead continuations is_rejected
accepted = refl

-- An overlong "/", a surrogate, a cut sequence, and a value past the last code point.
overlong : is_valid_utf8 (0xc0 ∷ 0xaf ∷ []) ≡ false
unfolding is_valid_utf8 scan next_scalar lead continuations is_rejected
overlong = refl

surrogate : is_valid_utf8 (0xed ∷ 0xa0 ∷ 0x80 ∷ []) ≡ false
unfolding is_valid_utf8 scan next_scalar lead continuations is_rejected
surrogate = refl

cut : is_valid_utf8 (0xe2 ∷ 0x82 ∷ []) ≡ false
unfolding is_valid_utf8 scan next_scalar lead continuations is_rejected
cut = refl

too_large : is_valid_utf8 (0xf4 ∷ 0x90 ∷ 0x80 ∷ 0x80 ∷ []) ≡ false
unfolding is_valid_utf8 scan next_scalar lead continuations is_rejected
too_large = refl

is_valid_utf8_iff_example :
    (is_valid_utf8 bytes ≡ true) ↔ ((cs : List ℕ) × AllScalar cs × (bytes ≡ encode_all cs))
is_valid_utf8_iff_example = is_valid_utf8_iff bytes (omega arith)

abbrev range : TextRange
range = record { start = 1; end = 6 }

valid_for_iff_example : (valid_for range (encode_all scalars) ≡ true) ↔ (
    (before : List ℕ) × (inside : List ℕ) × (behind : List ℕ) × Selects range scalars before inside
      behind)
valid_for_iff_example = valid_for_iff range scalars (omega arith)
