-- ===== src/Input/Utf8.antt =====
-- is_valid_utf8, TextRange::valid_for and TextEditingValue::valid. A text is the list of its bytes.
pub mod Encoding
pub mod Validity
pub mod Boundary
mod Tests
use Prim.Native.Nat.{bit_and, bit_or}
use dui.Base.{
  ℕ, zero, suc, ◌-◌, ◌*◌, Bool, true, false, ◌&&◌, ◌||◌, not, Option, none, some, List, [], ◌∷◌,
  ltb, leb, ◌==◌, if◌then◌else◌, u32, length, get_or, drop,
}

-- What the first byte announces: the length of the sequence, its leading bits, and the smallest
-- code point that needs that length. `none` is `return false`.
pub record Lead : Type 0 where
  pub size : ℕ
  pub code_point : ℕ
  pub minimum : ℕ

pub lead : ℕ → Option Lead
lead first =
    if leb first 0x7f
    then some (record { size = 1; code_point = first; minimum = 0 })
    else if bit_and first 0xe0 == 0xc0
    then some (record { size = 2; code_point = bit_and first 0x1f; minimum = 0x80 })
    else if bit_and first 0xf0 == 0xe0
    then some (record { size = 3; code_point = bit_and first 0x0f; minimum = 0x800 })
    else if bit_and first 0xf8 == 0xf0
    then some (record { size = 4; code_point = bit_and first 0x07; minimum = 0x10000 })
    else none

-- The loop over the continuation bytes, `n` of which are left.
pub continuations : ℕ → ℕ → List ℕ → Option ℕ
continuations zero code_point bytes = some code_point
continuations (suc n) code_point [] = none
continuations (suc n) code_point (byte ∷ bytes) =
    let rest = continuations n (bit_or (u32 (code_point * 64)) (bit_and byte 0x3f)) bytes in
    if bit_and byte 0xc0 == 0x80 then rest else none

-- Overlong forms, values past the last code point, and surrogates.
pub is_rejected : ℕ → ℕ → Bool
is_rejected code_point minimum =
    ltb code_point minimum
    || ltb 0x10ffff code_point
    || (leb 0xd800 code_point && leb code_point 0xdfff)

-- One round of the loop: what is left of the text, unless the round returns false.
pub next_scalar : ℕ → List ℕ → Option (List ℕ)
next_scalar first rest = elim (lead first) [
  | none ↦ none
  | some l ↦
      if ltb (suc (length rest)) l.size
      then none
      else elim (continuations (l.size - 1) l.code_point rest) [
        | none ↦ none
        | some code_point ↦
            if is_rejected code_point l.minimum then none else some (drop (l.size - 1) rest)
      ]
]

-- The loop, on the text from `index` on; each round consumes a byte at least.
pub scan : ℕ → List ℕ → Bool
scan fuel [] = true
scan zero (first ∷ rest) = false
scan (suc fuel) (first ∷ rest) = elim (next_scalar first rest) [
  | none ↦ false
  | some text ↦ scan fuel text
]

unfoldable pub is_valid_utf8 : List ℕ → Bool
unfolding scan next_scalar lead continuations is_rejected
is_valid_utf8 text = scan (length text) text

pub record TextRange : Type 0 where
  pub start : ℕ
  pub end : ℕ

unfoldable pub collapsed : TextRange → Bool
collapsed r = r.start == r.end

-- The lambda of valid_for. Past the end there is no byte, and the test before excludes it.
pub is_boundary : List ℕ → ℕ → Bool
is_boundary text offset =
    if ltb (length text) offset
    then false
    else if offset == length text
    then true
    else not (bit_and (get_or text offset 0) 0xc0 == 0x80)

unfoldable pub valid_for : TextRange → List ℕ → Bool
valid_for r text =
    if not (is_valid_utf8 text)
    then false
    else leb r.start r.end && is_boundary text r.start && is_boundary text r.end

pub record TextEditingValue : Type 0 where
  pub text : List ℕ
  pub selection : TextRange
  pub composing : Option TextRange

unfoldable pub editing_valid : TextEditingValue → Bool
editing_valid v =
    valid_for v.selection v.text && elim v.composing [ none ↦ true | some r ↦ valid_for r v.text ]
