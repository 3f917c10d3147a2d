-- ===== src/Raster/Frame/Once.antt =====
-- The life of a frame, from its constructor to its destructor, as its delegate sees it.
use dui.Base.{
  ℕ, ◌*◌, ◌/◌, ◌≤◌, ◌<◌, ◌≡◌, refl, subst, ◌⊎◌, inl, inr, Bool, true, false, ◌||◌, Option, some,
  List, [], ◌∷◌, ◌++◌, arith, ltb, ◌==◌, Bool-cases, i32_max, u64_max, u64,
}
use dui.Base.Outcome.{M, Result, ok, throw, ◌>>◌}
use native.Mathlib.Nat.{le-div_iff_mul-le, mul_comm}
use dui.Raster.Frame.{
  SurfaceDescriptor, PresentStatus, DelegateCall, maps, presents, abandons, SurfaceFrame, make,
  abandon, get_pixels, present, multiplication_overflows, map_pixels, reject_if, bytes_per_pixel,
}

pub data Call : Type 0 where
  reads abandons_it : Call
  presents_it : PresentStatus → Call

unfoldable pub perform : Call → SurfaceFrame → SurfaceFrame
unfolding get_pixels present
perform reads s = (get_pixels s).1
perform abandons_it s = abandon s
perform (presents_it status) s = (present status s).1

unfoldable pub run : SurfaceFrame → List Call → SurfaceFrame
run s [] = s
run s (c ∷ cs) = run (perform c s) cs

-- What the delegate is told over the life of the frame, whose destructor abandons it. A frame whose
-- constructor throws has no life.
unfoldable pub lifetime : SurfaceDescriptor → Option (Result ℕ) → List Call → List DelegateCall
lifetime descriptor delegate cs = elim (make descriptor delegate).0 [
  | throw e ↦ (make descriptor delegate).1.calls
  | ok u ↦ (abandon (run (make descriptor delegate).1 cs)).calls
]

abbrev pub IsTerminal : DelegateCall → Type 0
IsTerminal maps = ⊥
IsTerminal presents = Unit
IsTerminal abandons = Unit

-- At most a mapping, and then one terminal call.
abbrev pub IsTransaction : List DelegateCall → Type 0
IsTransaction [] = ⊥
IsTransaction (maps ∷ []) = ⊥
IsTransaction (maps ∷ c ∷ []) = IsTerminal c
IsTransaction (maps ∷ c ∷ d ∷ cs) = ⊥
IsTransaction (presents ∷ cs) = cs ≡ []
IsTransaction (abandons ∷ cs) = cs ≡ []

-- What the constructor leaves behind.
pub record IsOpen (mapped : Result ℕ) (s : SurfaceFrame) : Type 0 where
  pub size : ℕ
  pub mapped_eq : mapped ≡ ok size
  pub active : s.active ≡ true
  pub calls : s.calls ≡ maps ∷ []
  pub pixels : s.pixels ≡ s.descriptor.row_bytes * s.descriptor.height
  pub fits : s.pixels ≤ size
  pub rows : bytes_per_pixel * s.descriptor.width ≤ s.descriptor.row_bytes
  pub wide : 0 < s.descriptor.width
  pub high : 0 < s.descriptor.height
  pub generation : 0 < s.descriptor.generation

abbrev pub Opens : Result ℕ → Result (Unit {0}) × SurfaceFrame → Type 0
Opens mapped (ok u, s) = IsOpen mapped s
Opens mapped (throw e, s) = IsTransaction s.calls

-- A check of the constructor.
reject_if_then :
    (mapped : Result ℕ) (bad : Bool) (k : M SurfaceFrame (Unit {0})) (s : SurfaceFrame)
    → s.calls ≡ []
    → (bad ≡ false → Opens mapped (k s))
    → Opens mapped ((reject_if bad >> k) s)
unfolding reject_if
reject_if_then mapped true k s e h = rw e refl
reject_if_then mapped false k s e h = h refl

mul_bound : (a b : ℕ) → 0 < a → b ≤ u64_max / a → a * b ≤ u64_max
mul_bound a b p h = omega (arith, (le-div_iff_mul-le p).0 h, mul_comm a b)

map_pixels-Opens :
    (mapped : Result ℕ) (s : SurfaceFrame)
    → s.calls ≡ []
    → s.active ≡ true
    → 0 < s.descriptor.width
    → 0 < s.descriptor.height
    → 0 < s.descriptor.generation
    → bytes_per_pixel * s.descriptor.width ≤ s.descriptor.row_bytes
    → s.descriptor.row_bytes * s.descriptor.height ≤ u64_max
    → Opens mapped (map_pixels (u64 (s.descriptor.row_bytes * s.descriptor.height)) mapped s)
unfolding map_pixels
map_pixels-Opens (ok size) s e a w h g r b =
    elim (Bool-cases (ltb size (u64 (s.descriptor.row_bytes * s.descriptor.height)))) [
      | inl small ↦ rw (small, e) tt
      | inr fits ↦
          rw (fits, e)
            (record {
              size = size;
              mapped_eq = refl;
              active = a;
              calls = refl;
              pixels = omega arith;
              fits = ground arith;
              rows = r;
              wide = w;
              high = h;
              generation = g;
            })
    ]
map_pixels-Opens (throw x) s e a w h g r b = rw (e, a) tt

make-Opens : (d : SurfaceDescriptor) (mapped : Result ℕ) → Opens mapped (make d (some mapped))
unfolding make
make-Opens d mapped =
    let s : SurfaceFrame = record { descriptor = d; active = true; pixels = 0; calls = [] } in
    let maps_it : M SurfaceFrame (Unit {0}) = map_pixels (u64 (d.row_bytes * d.height)) mapped in
    let short =
      ltb d.row_bytes (u64 (d.width * bytes_per_pixel)) || ltb (u64_max / d.row_bytes) d.height in
    let wraps = multiplication_overflows d.width bytes_per_pixel in
    let large = ltb i32_max d.width || ltb i32_max d.height in
    let third : M SurfaceFrame (Unit {0}) = reject_if short >> maps_it in
    let second : M SurfaceFrame (Unit {0}) = reject_if wraps >> third in
    reject_if_then mapped (d.width == 0 || d.height == 0 || d.generation == 0)
      (reject_if large >> second) s refl
      λ given. reject_if_then mapped large second s refl λ small.
        reject_if_then mapped wraps third s refl λ one_row.
          reject_if_then mapped short maps_it s refl λ rows.
            map_pixels-Opens mapped s refl refl (ground arith) (ground arith) (ground arith)
              (ground arith) (mul_bound d.row_bytes d.height (ground arith) (ground arith))

-- Where a frame stands between two calls: open, or complete.
abbrev pub Life : SurfaceFrame → Type 0
Life s = ((s.active ≡ true) × (s.calls ≡ maps ∷ [])) ⊎ ((s.active ≡ false) × IsTransaction s.calls)

-- A call leaves the frame, or completes it.
perform_cases :
    (c : Call) (s : SurfaceFrame)
    → (perform c s ≡ s)
      ⊎ ((s.active ≡ true)
          × ((perform c s).active ≡ false)
          × (((perform c s).calls ≡ s.calls ++ presents ∷ [])
              ⊎ ((perform c s).calls ≡ s.calls ++ abandons ∷ [])))
unfolding perform abandon
perform_cases reads s = ground arith
perform_cases abandons_it s = ground arith
perform_cases (presents_it status) s = ground arith

abandon_cases :
    (s : SurfaceFrame)
    → ((s.active ≡ false) × (abandon s ≡ s))
      ⊎ ((s.active ≡ true) × ((abandon s).calls ≡ s.calls ++ abandons ∷ []))
unfolding abandon
abandon_cases s = ground arith

pub perform-Life : (c : Call) (s : SurfaceFrame) → Life s → Life (perform c s)
perform-Life c s h = elim (perform_cases c s) [
  | inl same ↦ rw same h
  | inr (a, b, told) ↦ elim h [
    | inr (shut, t) ↦ cc
    | inl (open_still, e) ↦ elim told [
      | inl p ↦ inr (b, rw (p, e) tt)
      | inr p ↦ inr (b, rw (p, e) tt)
    ]
  ]
]

pub run-Life : (s : SurfaceFrame) (cs : List Call) → Life s → Life (run s cs)
unfolding run
run-Life s [] h = h
run-Life s (c ∷ cs) h = run-Life (perform c s) cs (perform-Life c s h)

pub Life-IsTransaction : (s : SurfaceFrame) → Life s → IsTransaction (abandon s).calls
Life-IsTransaction s (inl (a, e)) = elim (abandon_cases s) [
  | inl (b, same) ↦ cc
  | inr (b, p) ↦ rw (p, e) tt
]
Life-IsTransaction s (inr (a, t)) = elim (abandon_cases s) [
  | inl (b, same) ↦ rw same t
  | inr (b, p) ↦ cc
]

-- However a frame with a delegate is used: over its life the delegate is told to map at most once,
-- and then to present or to abandon exactly once, and nothing after that; also where the constructor
-- or the mapping throws, and where the frame is used after it is complete.
pub lifetime-IsTransaction :
    (d : SurfaceDescriptor) (mapped : Result ℕ) (cs : List Call)
    → IsTransaction (lifetime d (some mapped) cs)
unfolding lifetime
lifetime-IsTransaction d mapped cs = go (make d (some mapped)) (make-Opens d mapped)
  where
    go :
        (r : Result (Unit {0}) × SurfaceFrame)
        → Opens mapped r
        → IsTransaction (elim r.0 [ throw e ↦ r.1.calls | ok u ↦ (abandon (run r.1 cs)).calls ])
    go (ok u, s) h = Life-IsTransaction (run s cs) (run-Life s cs (inl (h.active, h.calls)))
    go (throw e, s) h = h

-- A frame whose constructor returns has a pixel span of row_bytes * height bytes, a number that does
-- not wrap, is not more than was mapped, and has room for its rows; it is active, and its extent and
-- generation are not zero.
pub make-IsOpen :
    (d : SurfaceDescriptor) (mapped : Result ℕ) {s : SurfaceFrame}
    → make d (some mapped) ≡ (ok tt, s)
    → IsOpen mapped s
make-IsOpen d mapped {s} e = subst (Opens mapped) e (make-Opens d mapped)
