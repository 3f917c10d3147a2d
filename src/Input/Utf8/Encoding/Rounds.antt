-- ===== src/Input/Utf8/Encoding/Rounds.antt =====
-- One round of the loop of is_valid_utf8, on the bytes of one scalar value.
use dui.Input.Utf8.{lead, continuations, is_rejected, next_scalar}
use dui.Input.Utf8.Encoding.{AllBytes, IsScalar, encode}
use dui.Input.Utf8.Encoding.Bytes.{continuations-zero, lead_lem, continuations-cons}
use dui.Base.{
  false, suc, dec_lt, inr, none, ◌⊎◌, length, ◌≤◌, ◌<◌, ℕ, ◌+◌, ◌-◌, ◌*◌, ◌≡◌, some, List, [], ◌∷◌,
  ◌++◌, arith,
}

-- A round on the encoding of a scalar value leaves what follows it.
pub next_scalar-encode :
    (c first : ℕ) (more rest : List ℕ)
    → IsScalar c
    → encode c ≡ first ∷ more
    → next_scalar first (more ++ rest) ≡ some rest
unfolding next_scalar encode is_rejected
next_scalar-encode c first [] rest s e =
    ground (arith, lead_lem first, continuations-zero first rest)
next_scalar-encode c first (b ∷ []) rest s e = ground (
  arith,
  lead_lem first,
  continuations-cons 0 (first - 0xc0) b rest,
  continuations-zero ((first - 0xc0) * 64 + (b - 0x80)) rest,
)
next_scalar-encode c first (b ∷ d ∷ []) rest s e = ground (
  arith,
  lead_lem first,
  continuations-cons 1 (first - 0xe0) b (d ∷ rest),
  continuations-cons 0 ((first - 0xe0) * 64 + (b - 0x80)) d rest,
  continuations-zero (((first - 0xe0) * 64 + (b - 0x80)) * 64 + (d - 0x80)) rest,
)
next_scalar-encode c first (b ∷ d ∷ f ∷ []) rest s e = ground (
  arith,
  lead_lem first,
  continuations-cons 2 (first - 0xf0) b (d ∷ f ∷ rest),
  continuations-cons 1 ((first - 0xf0) * 64 + (b - 0x80)) d (f ∷ rest),
  continuations-cons 0 (((first - 0xf0) * 64 + (b - 0x80)) * 64 + (d - 0x80)) f rest,
  continuations-zero ((((first - 0xf0) * 64 + (b - 0x80)) * 64 + (d - 0x80)) * 64 + (f - 0x80))
      rest,
)
next_scalar-encode c first (b ∷ d ∷ f ∷ g ∷ more) rest s e = ground arith

-- `first ∷ rest` is the encoding of a scalar value, followed by `text`.
abbrev pub Encodes : ℕ → ℕ → List ℕ → List ℕ → Type 0
Encodes c first rest text = IsScalar c × (first ∷ rest ≡ encode c ++ text)

-- A continuation that succeeds has read a continuation byte.
continuations-some :
    (n c b : ℕ) (bs : List ℕ) {v : ℕ}
    → b < 256
    → c < 67108864
    → continuations (suc n) c (b ∷ bs) ≡ some v
    → ((0x80 ≤ b) × (b < 0xc0)) × (continuations n (c * 64 + (b - 0x80)) bs ≡ some v)
continuations-some n c b bs h k e = ground (arith, continuations-cons n c b bs h k)

module _ (first : ℕ) (text : List ℕ) (small : first < 256) where
  round_one :
      (rest : List ℕ)
      → first < 0x80
      → next_scalar first rest ≡ some text
      → Encodes first first rest text
  unfolding next_scalar encode is_rejected
  round_one rest h e = ground (arith, lead_lem first, continuations-zero first rest)

  round_none :
      (rest : List ℕ)
      → (0x80 ≤ first) × (first < 0xc0) ⊎ (0xf8 ≤ first)
      → next_scalar first rest ≡ none
  unfolding next_scalar
  round_none rest h = ground (arith, lead_lem first)

  round_two :
      (b : ℕ) (rest : List ℕ)
      → b < 256
      → 0xc0 ≤ first
      → first < 0xe0
      → next_scalar first (b ∷ rest) ≡ some text
      → Encodes ((first - 0xc0) * 64 + (b - 0x80)) first (b ∷ rest) text
  unfolding next_scalar encode is_rejected
  round_two b rest hb lo hi e = ground (
    arith,
    lead_lem first,
    continuations-cons 0 (first - 0xc0) b rest,
    continuations-zero ((first - 0xc0) * 64 + (b - 0x80)) rest,
  )

  round_three :
      (b d : ℕ) (rest : List ℕ)
      → b < 256
      → d < 256
      → 0xe0 ≤ first
      → first < 0xf0
      → next_scalar first (b ∷ d ∷ rest) ≡ some text
      → Encodes (((first - 0xe0) * 64 + (b - 0x80)) * 64 + (d - 0x80)) first (b ∷ d ∷ rest) text
  unfolding next_scalar encode is_rejected
  round_three b d rest hb hd lo hi e = ground (
    arith,
    lead_lem first,
    continuations-cons 1 (first - 0xe0) b (d ∷ rest),
    continuations-cons 0 ((first - 0xe0) * 64 + (b - 0x80)) d rest,
    continuations-zero (((first - 0xe0) * 64 + (b - 0x80)) * 64 + (d - 0x80)) rest,
  )

  module _ (b d f : ℕ) (rest : List ℕ) (hb : b < 256) (hd : d < 256) (hf : f < 256) where
    abbrev four : ℕ
    four = (((first - 0xf0) * 64 + (b - 0x80)) * 64 + (d - 0x80)) * 64 + (f - 0x80)

    lead_four :
        0xf0 ≤ first
        → first < 0xf8
        → lead first ≡ some (record { size = 4; code_point = first - 0xf0; minimum = 0x10000 })
    lead_four lo hi = ground (arith, lead_lem first)

    next_four :
        0xf0 ≤ first
        → first < 0xf8
        → next_scalar first (b ∷ d ∷ f ∷ rest) ≡ some text
        → (v : ℕ) × (continuations 3 (first - 0xf0) (b ∷ d ∷ f ∷ rest) ≡ some v)
          × (is_rejected v 0x10000 ≡ false)
          × (rest ≡ text)
    unfolding next_scalar
    next_four lo hi e = ground (arith, lead_four lo hi)

    round_four_facts :
        0xf0 ≤ first
        → first < 0xf8
        → next_scalar first (b ∷ d ∷ f ∷ rest) ≡ some text
        → ((0x80 ≤ b) × (b < 0xc0))
          × ((0x80 ≤ d) × (d < 0xc0))
          × ((0x80 ≤ f) × (f < 0xc0))
          × (0x10000 ≤ four)
          × (four < 0x110000)
          × (rest ≡ text)
    unfolding is_rejected
    round_four_facts lo hi e =
        let (v, c, ok_v, left) = next_four lo hi e in
        let (rb, c1) = continuations-some 2 (first - 0xf0) b (d ∷ f ∷ rest) hb (omega arith) c in
        let (rd, c2) = continuations-some 1 _ d (f ∷ rest) hd (omega arith) c1 in
        let (rf, c3) = continuations-some 0 _ f rest hf (omega arith) c2 in
        ground (arith, continuations-zero four rest)

    encode-four :
        0xf0 ≤ first
        → (0x80 ≤ b) × (b < 0xc0)
        → (0x80 ≤ d) × (d < 0xc0)
        → (0x80 ≤ f) × (f < 0xc0)
        → 0x10000 ≤ four
        → encode four ≡ first ∷ b ∷ d ∷ f ∷ []
    unfolding encode
    encode-four lo rb rd rf large = ground arith

    round_four :
        0xf0 ≤ first
        → first < 0xf8
        → next_scalar first (b ∷ d ∷ f ∷ rest) ≡ some text
        → Encodes four first (b ∷ d ∷ f ∷ rest) text
    round_four lo hi e =
        let (rb, rd, rf, large, bounded, left) = round_four_facts lo hi e in
        (inr (omega arith, bounded), rw (encode-four lo rb rd rf large, left))

  round_short :
      (rest : List ℕ)
      → (0xc0 ≤ first) × (length rest < 1)
        ⊎ (0xe0 ≤ first) × (length rest < 2)
        ⊎ (0xf0 ≤ first) × (length rest < 3)
      → next_scalar first rest ≡ none
  unfolding next_scalar
  round_short rest h = ground (arith, lead_lem first)

longest_Encodes :
    (first b d : ℕ) (rest text : List ℕ)
    → first < 256
    → b < 256
    → d < 256
    → AllBytes rest
    → 0xf0 ≤ first
    → next_scalar first (b ∷ d ∷ rest) ≡ some text
    → (c : ℕ) × Encodes c first (b ∷ d ∷ rest) text
longest_Encodes first b d [] text h hb hd bs lo e =
    ground (arith, round_short first text h (b ∷ d ∷ []))
longest_Encodes first b d (f ∷ rest) text h hb hd bs lo e = elim (dec_lt first 0xf8) [
  | yes four ↦ (_, round_four first text h b d f rest hb hd bs.0 lo four e)
  | no above ↦ ground (arith, round_none first text h (b ∷ d ∷ f ∷ rest))
]

longer_Encodes :
    (first b : ℕ) (rest text : List ℕ)
    → first < 256
    → b < 256
    → AllBytes rest
    → 0xe0 ≤ first
    → next_scalar first (b ∷ rest) ≡ some text
    → (c : ℕ) × Encodes c first (b ∷ rest) text
longer_Encodes first b [] text h hb bs lo e = ground (arith, round_short first text h (b ∷ []))
longer_Encodes first b (d ∷ rest) text h hb bs lo e = elim (dec_lt first 0xf0) [
  | yes three ↦ (_, round_three first text h b d rest hb bs.0 lo three e)
  | no above ↦ longest_Encodes first b d rest text h hb bs.0 bs.1 (omega arith) e
]

long_Encodes :
    (first : ℕ) (rest text : List ℕ)
    → first < 256
    → AllBytes rest
    → 0x80 ≤ first
    → next_scalar first rest ≡ some text
    → (c : ℕ) × Encodes c first rest text
long_Encodes first [] text h bs lo e =
    ground (arith, round_none first text h [], round_short first text h [])
long_Encodes first (b ∷ rest) text h bs lo e = elim (dec_lt first 0xe0) [
  | yes two ↦ elim (dec_lt first 0xc0) [
    | yes stray ↦ ground (arith, round_none first text h (b ∷ rest))
    | no above ↦ (_, round_two first text h b rest bs.0 (omega arith) two e)
  ]
  | no above ↦ longer_Encodes first b rest text h bs.0 bs.1 (omega arith) e
]

-- A round that goes on has read the encoding of a scalar value.
pub next_scalar-Encodes :
    (first : ℕ) (rest text : List ℕ)
    → first < 256
    → AllBytes rest
    → next_scalar first rest ≡ some text
    → (c : ℕ) × Encodes c first rest text
next_scalar-Encodes first rest text h bs e = elim (dec_lt first 0x80) [
  | yes one ↦ (first, round_one first text h rest one e)
  | no above ↦ long_Encodes first rest text h bs (omega arith) e
]
