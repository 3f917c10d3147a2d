-- ===== src/Base/Assoc.antt =====
-- Maps with numbers for keys, as association lists: std::unordered_map, and sets of numbers.
use dui.Base.{
  ◌≤◌, ℕ, suc, ◌+◌, ◌<◌, ◌≡◌, refl, Bool, false, ◌||◌, Option, none, some, List, [], ◌∷◌, ◌++◌,
  arith, ltb, ◌==◌, if◌then◌else◌, length,
}

module _ {V : Type 0} where
  unfoldable pub find : ℕ → List (ℕ × V) → Option V
  find key [] = none
  find key ((k, v) ∷ rest) = if k == key then some v else find key rest

  unfoldable pub erase : ℕ → List (ℕ × V) → List (ℕ × V)
  erase key [] = []
  erase key ((k, v) ∷ rest) = if k == key then erase key rest else (k, v) ∷ erase key rest

  -- The value under a key becomes `v`.
  unfoldable pub put : ℕ → V → List (ℕ × V) → List (ℕ × V)
  unfolding erase
  put key v entries = (key, v) ∷ erase key entries

  pub find-erase :
      (key k : ℕ) (p : List (ℕ × V)) → find k (erase key p) ≡ (if k == key then none else find k p)
  unfolding find erase
  find-erase key k [] = ground arith
  find-erase key k ((j, v) ∷ p) = ground (arith, find-erase key k p)

  pub find-put :
      (key k : ℕ) (v : V) (p : List (ℕ × V))
      → find k (put key v p) ≡ (if k == key then some v else find k p)
  unfolding find put
  find-put key k v p = ground (arith, find-erase key k p)

module _ {V : Type 0} where
  erase-erase : (key : ℕ) (p : List (ℕ × V)) → erase key (erase key p) ≡ erase key p
  unfolding erase
  erase-erase key [] = refl
  erase-erase key ((k, v) ∷ p) = ground (arith, erase-erase key p)

  pub erase-put : (key : ℕ) (v : V) (p : List (ℕ × V)) → erase key (put key v p) ≡ erase key p
  unfolding put erase
  erase-put key v p = ground (arith, erase-erase key p)

pub find-nil : (V : Type 0) (k : ℕ) → find {V = V} k [] ≡ none
unfolding find
find-nil V k = refl

-- Sets of numbers.
unfoldable pub contains : ℕ → List ℕ → Bool
contains x [] = false
contains x (y ∷ ys) = y == x || contains x ys

unfoldable pub without : ℕ → List ℕ → List ℕ
without x [] = []
without x (y ∷ ys) = if y == x then without x ys else y ∷ without x ys

-- How often a number stands in a list.
abbrev pub count : ℕ → List ℕ → ℕ
count x [] = 0
count x (y ∷ ys) = (if y == x then 1 else 0) + count x ys

pub count-append : (x : ℕ) (ys zs : List ℕ) → count x (ys ++ zs) ≡ count x ys + count x zs
count-append x [] zs = omega arith
count-append x (y ∷ ys) zs = omega (arith, count-append x ys zs)

pub count-without :
    (x y : ℕ) (ys : List ℕ) → count y (without x ys) ≡ (if y == x then 0 else count y ys)
unfolding without
count-without x y [] = ground arith
count-without x y (z ∷ ys) = ground (arith, count-without x y ys)

pub contains-count : (x : ℕ) (ys : List ℕ) → contains x ys ≡ ltb 0 (count x ys)
unfolding contains
contains-count x [] = refl
contains-count x (y ∷ ys) = ground (arith, contains-count x ys)

pub length-without : (x : ℕ) (ys : List ℕ) → length (without x ys) + count x ys ≡ length ys
unfolding without
length-without x [] = refl
length-without x (y ∷ ys) = ground (arith, length-without x ys)

pub without_absent : (x : ℕ) (ys : List ℕ) → contains x ys ≡ false → without x ys ≡ ys
unfolding contains without
without_absent x [] h = refl
without_absent x (y ∷ ys) h = ground (arith, without_absent x ys)

-- std::vector::erase at the position that std::find returned.
unfoldable pub erase_first : ℕ → List ℕ → List ℕ
erase_first x [] = []
erase_first x (y ∷ ys) = if y == x then ys else y ∷ erase_first x ys

pub count-erase_first :
    (x y : ℕ) (ys : List ℕ)
    → 0 < count x ys
    → count y (erase_first x ys) + (if y == x then 1 else 0) ≡ count y ys
unfolding erase_first
count-erase_first x y [] h = absurd (omega arith)
count-erase_first x y (z ∷ ys) h = ground (arith, count-erase_first x y ys)

pub length-erase_first :
    (x : ℕ) (ys : List ℕ) → 0 < count x ys → suc (length (erase_first x ys)) ≡ length ys
unfolding erase_first
length-erase_first x [] h = absurd (omega arith)
length-erase_first x (z ∷ ys) h = ground (arith, length-erase_first x ys)

-- Insertion into a set that lacks the number, and removal.
pub without_added : (x : ℕ) (ys : List ℕ) → contains x ys ≡ false → without x (x ∷ ys) ≡ ys
unfolding without
without_added x ys h = ground (arith, without_absent x ys h)

pub without_head : (x : ℕ) (ys : List ℕ) → count x (x ∷ ys) ≤ 1 → without x (x ∷ ys) ≡ ys
unfolding without
without_head x ys h = ground (arith, contains-count x ys, without_absent x ys)
