-- ===== src/Input/Utf8/Boundary.antt =====
-- Range ends on code-point boundaries.
use mathlib.Core.List.{append_assoc}
use Prim.Native.Nat.{bit_and}
use dui.Input.Utf8.{is_boundary, is_valid_utf8, TextRange, valid_for}
use dui.Input.Utf8.Encoding.{IsScalar, encode, encode_all, AllScalar}
use dui.Input.Utf8.Encoding.Bytes.{is_continuation_lem}
use dui.Input.Utf8.Validity.{is_valid_utf8-encode_all, encode-cons}
use dui.Base.{
  ℕ, zero, suc, ◌+◌, ◌-◌, ◌/◌, ◌%◌, ◌≤◌, ◌<◌, ◌≡◌, refl, sym, ap, subst, ◌∙◌, ◌↔◌, true, false,
  List, [], ◌∷◌, ◌++◌, arith, dec_lt, ◌==◌, length, length-append, get_or,
}

get_or-append : (xs ys : List ℕ) (k d : ℕ) → get_or (xs ++ ys) (length xs + k) d ≡ get_or ys k d
get_or-append [] ys k d = let e : 0 + k ≡ k = omega arith in rw e
get_or-append (x ∷ xs) ys k d =
    let e : suc (length xs) + k ≡ suc (length xs + k) = omega arith in
    rw e (get_or-append xs ys k d)

get_or-append_left :
    (xs ys : List ℕ) (k d : ℕ) → k < length xs → get_or (xs ++ ys) k d ≡ get_or xs k d
get_or-append_left [] ys k d h = absurd (omega arith)
get_or-append_left (x ∷ xs) ys zero d h = refl
get_or-append_left (x ∷ xs) ys (suc k) d h = get_or-append_left xs ys k d (omega arith)

-- Past a prefix, the test is that of what follows.
is_boundary-append :
    (xs ys : List ℕ) (k : ℕ) → is_boundary (xs ++ ys) (length xs + k) ≡ is_boundary ys k
unfolding is_boundary
is_boundary-append xs ys k = ground (arith, length-append xs ys, get_or-append xs ys k 0)

encode_head :
    (c first : ℕ) (more : List ℕ)
    → IsScalar c
    → encode c ≡ first ∷ more
    → (bit_and first 0xc0 == 0x80) ≡ false
unfolding encode
encode_head c first more s e = ground (arith, is_continuation_lem first)

sextet : (x : ℕ) → (bit_and (0x80 + x % 64) 0xc0 == 0x80) ≡ true
sextet x = ground (arith, is_continuation_lem (0x80 + x % 64))

encode_inner :
    (c k : ℕ)
    → 0 < k
    → k < length (encode c)
    → (bit_and (get_or (encode c) k 0) 0xc0 == 0x80) ≡ true
unfolding encode
encode_inner c zero p l = absurd (omega arith)
encode_inner c (suc zero) p l = ground (arith, sextet c, sextet (c / 64), sextet (c / 4096))
encode_inner c (suc (suc zero)) p l = ground (arith, sextet c, sextet (c / 64))
encode_inner c (suc (suc (suc zero))) p l = ground (arith, sextet c)
encode_inner c (suc (suc (suc (suc k)))) p l = absurd (ground arith)

-- A text that starts with an encoding has a boundary at its start, and none inside it.
boundary_start : (cs : List ℕ) → AllScalar cs → is_boundary (encode_all cs) 0 ≡ true
unfolding is_boundary encode_all
boundary_start [] h = refl
boundary_start (c ∷ cs) h =
    let (first, more, e) = encode-cons c in ground (arith, encode_head c first more h.0 e)

boundary_inner :
    (c k : ℕ) (rest : List ℕ)
    → 0 < k
    → k < length (encode c)
    → is_boundary (encode c ++ rest) k ≡ false
unfolding is_boundary
boundary_inner c k rest p l = ground (
  arith,
  encode_inner c k p l,
  get_or-append_left (encode c) rest k 0 l,
  length-append (encode c) rest,
)

-- The boundaries are the lengths of the encoded prefixes.
pub is_boundary-split :
    (cs : List ℕ) (k : ℕ)
    → AllScalar cs
    → is_boundary (encode_all cs) k ≡ true
    → (left : List ℕ) × (right : List ℕ) × (cs ≡ left ++ right) × (length (encode_all left) ≡ k)
unfolding encode_all
is_boundary-split [] k h b = ([], [], refl, unfold is_boundary in ground arith)
is_boundary-split (c ∷ cs) k h b = elim (dec_lt k (length (encode c))) [
  | yes inside ↦ elim (dec_lt 0 k) [
    | yes p ↦ absurd (ground (arith, boundary_inner c k (encode_all cs) p inside))
    | no z ↦ ([], c ∷ cs, refl, omega arith)
  ]
  | no past ↦
      let n = length (encode c) in
      let e : n + (k - n) ≡ k = omega arith in
      let shifted : is_boundary (encode_all cs) (k - n) ≡ true =
        sym (is_boundary-append (encode c) (encode_all cs) (k - n))
        ∙ (ap (is_boundary (encode c ++ encode_all cs)) e ∙ b) in
      let (left, right, whole, l) = is_boundary-split cs (k - n) h.1 shifted in
      (
        c ∷ left,
        right,
        ap (◌∷◌ c) whole,
        omega (arith, length-append (encode c) (encode_all left), l),
      )
]

AllScalar-append_right : (xs ys : List ℕ) → AllScalar (xs ++ ys) → AllScalar ys
AllScalar-append_right [] ys h = h
AllScalar-append_right (x ∷ xs) ys h = AllScalar-append_right xs ys h.1

encode_all-append : (xs ys : List ℕ) → encode_all (xs ++ ys) ≡ encode_all xs ++ encode_all ys
unfolding encode_all
encode_all-append [] ys = refl
encode_all-append (x ∷ xs) ys = rw (encode_all-append xs ys, append_assoc)

is_boundary-prefix :
    (xs ys : List ℕ)
    → AllScalar (xs ++ ys)
    → is_boundary (encode_all (xs ++ ys)) (length (encode_all xs)) ≡ true
is_boundary-prefix xs ys h =
    let z : length (encode_all xs) + 0 ≡ length (encode_all xs) = omega arith in
    rw (encode_all-append xs ys, ← z)
      (is_boundary-append (encode_all xs) (encode_all ys) 0
        ∙ boundary_start ys (AllScalar-append_right xs ys h))

valid_for-parts :
    (r : TextRange) (text : List ℕ)
    → valid_for r text ≡ true
    → (is_boundary text r.start ≡ true) × (is_boundary text r.end ≡ true) × (r.start ≤ r.end)
unfolding valid_for
valid_for-parts r text h = ground arith

-- `before`, `inside` and `behind` make up the text, and the range is that of `inside`.
abbrev pub Selects : TextRange → List ℕ → List ℕ → List ℕ → List ℕ → Type 0
Selects r cs before inside behind =
    (cs ≡ before ++ (inside ++ behind))
    × (r.start ≡ length (encode_all before))
    × (r.end ≡ length (encode_all before) + length (encode_all inside))

valid_for→Selects :
    (r : TextRange) (cs : List ℕ)
    → AllScalar cs
    → valid_for r (encode_all cs) ≡ true
    → (before : List ℕ) × (inside : List ℕ) × (behind : List ℕ) × Selects r cs before inside behind
valid_for→Selects r cs h v =
    let (s, e, le) = valid_for-parts r (encode_all cs) v in
    let (before, right, whole, l) = is_boundary-split cs r.start h s in
    let split : encode_all cs ≡ encode_all before ++ encode_all right =
      ap encode_all whole ∙ encode_all-append before right in
    let n : length (encode_all before) + (r.end - r.start) ≡ r.end = omega arith in
    let b : is_boundary (encode_all right) (r.end - r.start) ≡ true =
      sym (is_boundary-append (encode_all before) (encode_all right) (r.end - r.start))
      ∙ rw (n, ← split) e in
    let (inside, behind, whole', l') =
      is_boundary-split right (r.end - r.start)
        (AllScalar-append_right before right (subst AllScalar whole h)) b in
    (before, inside, behind, (whole ∙ ap (◌++◌ before) whole', sym l, omega arith))

Selects→valid_for :
    (r : TextRange) (cs before inside behind : List ℕ)
    → AllScalar cs
    → Selects r cs before inside behind
    → valid_for r (encode_all cs) ≡ true
unfolding valid_for
Selects→valid_for r cs before inside behind h (whole, s, e) =
    let valid : is_valid_utf8 (encode_all cs) ≡ true = is_valid_utf8-encode_all cs h in
    let at_start : is_boundary (encode_all cs) r.start ≡ true =
      rw (whole, s) (is_boundary-prefix before (inside ++ behind) (subst AllScalar whole h)) in
    let n : length (encode_all (before ++ inside)) ≡ r.end =
      ap length (encode_all-append before inside)
      ∙ (length-append (encode_all before) (encode_all inside) ∙ sym e) in
    let whole' : cs ≡ (before ++ inside) ++ behind =
      whole ∙ sym (append_assoc before inside behind) in
    let at_end : is_boundary (encode_all cs) r.end ≡ true =
      rw (whole', ← n) (is_boundary-prefix (before ++ inside) behind (subst AllScalar whole' h)) in
    ground arith

-- A range is valid exactly when it runs between two code points of the text.
pub valid_for_iff :
    (r : TextRange) (cs : List ℕ)
    → AllScalar cs
    → (valid_for r (encode_all cs) ≡ true) ↔ (
        (before : List ℕ) × (inside : List ℕ) × (behind : List ℕ) × Selects r cs before inside
          behind)
valid_for_iff r cs h = (
  valid_for→Selects r cs h,
  λ (before, inside, behind, s). Selects→valid_for r cs before inside behind h s,
)
