-- ===== src/Wayland/Surface/Scale.antt =====
-- The arithmetic of prepare_commit and WaylandCommit::valid: buffer dimensions are the logical ones
-- times the scale, in steps of 1/120, rounded up.
use native.Mathlib.Nat.{mul-le-mul}
use dui.Base.{ℕ, ◌+◌, ◌*◌, ◌/◌, ◌%◌, ◌≤◌, ◌<◌, ◌≡◌, Bool, true, false, arith, i32_max, u32_max}
use dui.Base.Outcome.{ok}
use dui.Wayland.Commit.{Extent, Commit, commit_valid, scaled_dimension, extent_valid}
use dui.Wayland.Surface.{
  Surface, commit_of, effective_scale, integer_scale, checked_buffer_dimension,
}

-- What WaylandExtent::valid tests.
pub record IsExtent (e : Extent) : Type 0 where
  pub width_pos : 0 < e.width
  pub height_pos : 0 < e.height
  pub width_le : e.width ≤ i32_max
  pub height_le : e.height ≤ i32_max

pub extent_valid_of : {e : Extent} → IsExtent e → extent_valid e ≡ true
unfolding extent_valid
extent_valid_of h = ground arith

pub IsExtent-of : {e : Extent} → extent_valid e ≡ true → IsExtent e
unfolding extent_valid
IsExtent-of h = ground arith

product-le : (l n : ℕ) → l ≤ i32_max → n ≤ u32_max → l * n ≤ i32_max * u32_max
product-le l n hl hn = mul-le-mul hl hn

-- The 64-bit arithmetic does not wrap: the dimension is the rounded-up quotient.
pub scaled_dimension_bounds :
    (l n : ℕ)
    → l ≤ i32_max
    → n ≤ u32_max
    → (l * n ≤ 120 * scaled_dimension l n) × (120 * scaled_dimension l n < l * n + 120)
unfolding scaled_dimension
scaled_dimension_bounds l n hl hn = omega (arith, product-le l n hl hn)

pub effective_scale_bounds :
    (f : Bool) (d : ℕ) → d ≤ u32_max → (d ≤ effective_scale f d) × (effective_scale f d < d + 120)
unfolding effective_scale
effective_scale_bounds true d h = omega arith
effective_scale_bounds false d h = omega arith

-- Without fractional scaling the scale is a whole number of steps.
pub effective_scale_whole :
    (f : Bool) (d : ℕ) → d ≤ u32_max → f ≡ false → effective_scale f d % 120 ≡ 0
unfolding effective_scale
effective_scale_whole true d h e = cc
effective_scale_whole false d h e = omega arith

pub integer_scale_whole : (e : ℕ) → e ≤ u32_max → e % 120 ≡ 0 → integer_scale e ≡ e / 120
unfolding integer_scale
integer_scale_whole e h w = omega arith

-- What WaylandCommit::valid tests.
pub record IsCommit (c : Commit) : Type 0 where
  pub generation_pos : 0 < c.generation
  pub revision_pos : 0 < c.state_revision
  pub logical : IsExtent c.logical_extent
  pub buffer : IsExtent c.buffer_extent
  pub scale_pos : 0 < c.buffer_scale
  pub scale_le : c.buffer_scale ≤ i32_max
  pub numerator_pos : 0 < c.scale_numerator
  pub width : scaled_dimension c.logical_extent.width c.scale_numerator ≡ c.buffer_extent.width
  pub height : scaled_dimension c.logical_extent.height c.scale_numerator ≡ c.buffer_extent.height
  pub viewported : c.use_viewporter ≡ true → c.buffer_scale ≡ 1
  pub whole : c.use_viewporter ≡ false → c.scale_numerator % 120 ≡ 0
  pub integral : c.use_viewporter ≡ false → c.buffer_scale ≡ c.scale_numerator / 120

pub commit_valid_of : {c : Commit} → IsCommit c → commit_valid c ≡ true
unfolding commit_valid
commit_valid_of {c} h = ground (arith, extent_valid_of h.logical, extent_valid_of h.buffer)

pub IsCommit-of : {c : Commit} → commit_valid c ≡ true → IsCommit c
unfolding commit_valid
IsCommit-of {c} h = record {
  generation_pos = ground arith;
  revision_pos = ground arith;
  logical = IsExtent-of (ground arith);
  buffer = IsExtent-of (ground arith);
  scale_pos = ground arith;
  scale_le = ground arith;
  numerator_pos = ground arith;
  width = ground arith;
  height = ground arith;
  viewported = λ e. ground arith;
  whole = λ e. ground arith;
  integral = λ e. ground arith;
}

-- A dimension that passes the check is the scaled one, and fits a wl_buffer.
pub checked_buffer_dimension_returns :
    (l n : ℕ) {d : ℕ}
    → checked_buffer_dimension l n ≡ ok d
    → (scaled_dimension l n ≡ d) × (0 < d) × (d ≤ i32_max)
unfolding checked_buffer_dimension
checked_buffer_dimension_returns l n h = ground arith

pub integer_scale_bounds :
    (e : ℕ) → 0 < e → e ≤ u32_max → (0 < integer_scale e) × (integer_scale e ≤ i32_max)
unfolding integer_scale
integer_scale_bounds e p h = omega arith

-- The commit that prepare_commit fills in is valid.
pub commit_of-IsCommit :
    (s : Surface) (e w h : ℕ)
    → IsExtent s.desired_extent
    → 0 < s.state_revision
    → 0 < s.next_commit_generation
    → 0 < e
    → e ≤ u32_max
    → (s.fractional_scale_supported ≡ false → e % 120 ≡ 0)
    → checked_buffer_dimension s.desired_extent.width e ≡ ok w
    → checked_buffer_dimension s.desired_extent.height e ≡ ok h
    → IsCommit (commit_of s e w h)
unfolding commit_of
commit_of-IsCommit s e w h ext rp gp pe le whole hw hh = ground (
  arith,
  checked_buffer_dimension_returns s.desired_extent.width e hw,
  checked_buffer_dimension_returns s.desired_extent.height e hh,
  integer_scale_bounds e pe le,
  integer_scale_whole e le,
)
