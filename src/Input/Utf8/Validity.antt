-- ===== src/Input/Utf8/Validity.antt =====
-- is_valid_utf8 against the encoding of scalar values.
use dui.Input.Utf8.{scan, next_scalar, is_valid_utf8}
use dui.Input.Utf8.Encoding.{encode, encode_all, AllScalar, AllBytes}
use dui.Input.Utf8.Encoding.Rounds.{next_scalar-encode, next_scalar-Encodes}
use dui.Base.{
  ℕ, zero, suc, ◌≤◌, ◌≡◌, refl, subst, ◌≢◌, ◌↔◌, inl, inr, true, List, [], ◌∷◌, ◌++◌, arith,
  Option-cases, length, length-append,
}

encode-ne-nil : (c : ℕ) → encode c ≢ []
unfolding encode
encode-ne-nil c e = ground arith

-- An encoding is not empty.
pub encode-cons : (c : ℕ) → (first : ℕ) × (more : List ℕ) × (encode c ≡ first ∷ more)
encode-cons c = split (encode c) refl
  where
    split :
        (bs : List ℕ) → encode c ≡ bs → (first : ℕ) × (more : List ℕ) × (encode c ≡ first ∷ more)
    split [] e = absurd (encode-ne-nil c e)
    split (first ∷ more) e = (first, more, e)

AllBytes-append_right : (bs text : List ℕ) → AllBytes (bs ++ text) → AllBytes text
AllBytes-append_right [] text h = h
AllBytes-append_right (b ∷ bs) text h = AllBytes-append_right bs text h.1

scan-decodes :
    (fuel : ℕ) (text : List ℕ)
    → AllBytes text
    → scan fuel text ≡ true
    → (cs : List ℕ) × AllScalar cs × (text ≡ encode_all cs)
unfolding scan encode_all
scan-decodes fuel [] h e = ([], tt, refl)
scan-decodes zero (first ∷ rest) h e = cc
scan-decodes (suc fuel) (first ∷ rest) h e = elim (Option-cases (next_scalar first rest)) [
  | inl stop ↦ absurd (ground arith)
  | inr (text, next) ↦
      let (c, encodes) = next_scalar-Encodes first rest text h.0 h.1 next in
      let bytes : AllBytes text =
        AllBytes-append_right (encode c) text (subst AllBytes encodes.1 h) in
      let (cs, all, whole) = scan-decodes fuel text bytes (ground arith) in
      (c ∷ cs, (encodes.0, all), rw (← whole) encodes.1)
]

scan-encode_all :
    (fuel : ℕ) (cs : List ℕ)
    → AllScalar cs
    → length (encode_all cs) ≤ fuel
    → scan fuel (encode_all cs) ≡ true
unfolding scan encode_all
scan-encode_all fuel [] h l = refl
scan-encode_all zero (c ∷ cs) h l = let (first, more, e) = encode-cons c in absurd (ground arith)
scan-encode_all (suc fuel) (c ∷ cs) h l =
    let (first, more, e) = encode-cons c in
    ground (
      arith,
      next_scalar-encode c first more (encode_all cs) h.0 e,
      length-append more (encode_all cs),
      scan-encode_all fuel cs h.1,
    )

pub is_valid_utf8-encode_all : (cs : List ℕ) → AllScalar cs → is_valid_utf8 (encode_all cs) ≡ true
unfolding is_valid_utf8
is_valid_utf8-encode_all cs h = scan-encode_all (length (encode_all cs)) cs h (omega arith)

-- A text of bytes is valid exactly when it encodes a sequence of scalar values.
pub is_valid_utf8_iff :
    (text : List ℕ)
    → AllBytes text
    → (is_valid_utf8 text ≡ true) ↔ ((cs : List ℕ) × AllScalar cs × (text ≡ encode_all cs))
is_valid_utf8_iff text h = (
  unfold is_valid_utf8 in scan-decodes (length text) text h,
  λ (cs, all, e). rw e (is_valid_utf8-encode_all cs all),
)
