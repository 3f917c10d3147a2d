-- ===== src/Wayland/Surface/Prepare.antt =====
-- prepare_commit: its outcomes, and what the commit shows.
use dui.Base.{
  ℕ, ◌+◌, ◌≤◌, ◌<◌, ◌≡◌, refl, false, Option, none, some, arith, u32_max, u64_max, Bool-cases, ◌⊎◌,
  inl, inr, ◌==◌,
}
use dui.Base.Outcome.{Result, ok, throw, overflow_error, after}
use dui.Wayland.Commit.{Commit}
use dui.Wayland.Surface.{
  Surface, effective_scale, checked_buffer_dimension, commit_of, build_commit, prepare_commit,
  nothing_to_commit,
}
use dui.Wayland.Surface.Scale.{
  effective_scale_bounds, effective_scale_whole, commit_of-IsCommit, commit_valid_of,
}
use dui.Wayland.Surface.Invariant.{Inv, IsFresh}

abbrev pub scale_of : Surface → ℕ
scale_of s = effective_scale s.fractional_scale_supported s.desired_scale

-- The surface with `c` prepared.
abbrev pub with_prepared : Surface → Commit → Surface
with_prepared s c = record s {
  prepared = some c;
  next_commit_generation = s.next_commit_generation + 1;
}

-- The two ways in which `build_commit` ends.
abbrev pub Builds : Surface → Result (Option Commit) × Surface → Type 0
Builds s r =
    (r ≡ (throw overflow_error, s))
    ⊎ ((w : ℕ) × (h : ℕ) × (scale_of s ≤ u32_max)
        × (checked_buffer_dimension s.desired_extent.width (scale_of s) ≡ ok w)
        × (checked_buffer_dimension s.desired_extent.height (scale_of s) ≡ ok h)
        × (r ≡ (
          ok (some (commit_of s (scale_of s) w h)),
          with_prepared s (commit_of s (scale_of s) w h),
        )))

checked_cases :
    (l n : ℕ)
    → (checked_buffer_dimension l n ≡ throw overflow_error)
      ⊎ ((d : ℕ) × (checked_buffer_dimension l n ≡ ok d))
unfolding checked_buffer_dimension
checked_cases l n = ground arith

build_commit-Builds : (s : Surface) → Builds s (build_commit s)
unfolding build_commit
build_commit-Builds s = elim (checked_cases s.desired_extent.width (scale_of s)) [
  | inl a ↦ inl (ground arith)
  | inr (w, a) ↦ elim (checked_cases s.desired_extent.height (scale_of s)) [
    | inl b ↦ inl (ground arith)
    | inr (h, b) ↦ ground arith
  ]
]

-- The commit that stands prepared after `build_commit` is fresh.
commit_of-IsFresh :
    {s : Surface} (w h : ℕ)
    → Inv s
    → nothing_to_commit s ≡ false
    → (s.next_commit_generation == u64_max) ≡ false
    → scale_of s ≤ u32_max
    → checked_buffer_dimension s.desired_extent.width (scale_of s) ≡ ok w
    → checked_buffer_dimension s.desired_extent.height (scale_of s) ≡ ok h
    → IsFresh (with_prepared s (commit_of s (scale_of s) w h)) (commit_of s (scale_of s) w h)
unfolding commit_of nothing_to_commit
commit_of-IsFresh {s} w h v some_work left le hw hh = record {
  revision = refl;
  generation = refl;
  extent = refl;
  serial = refl;
  scale = refl;
  demand = λ e. ground arith;
  idle = λ e. ground arith;
  ready = ground arith;
  valid = commit_valid_of (
      commit_of-IsCommit s (scale_of s) w h v.desired v.revision_pos v.generation_pos
        (omega (
          arith,
          effective_scale_bounds s.fractional_scale_supported s.desired_scale v.scale_le,
          v.scale_pos,
        ))
        le (effective_scale_whole s.fractional_scale_supported s.desired_scale v.scale_le) hw hh);
}

-- Nothing and no change, an exception and no change, or a fresh commit that stands prepared.
abbrev pub Prepares : Surface → Result (Option Commit) × Surface → Type 0
Prepares s r =
    (r ≡ (ok none, s))
    ⊎ (r ≡ (throw overflow_error, s))
    ⊎ ((c : Commit) × IsFresh (with_prepared s c) c
        × (s.next_commit_generation < u64_max)
        × (r ≡ (ok (some c), with_prepared s c)))

-- Between two calls, prepare_commit returns nothing and changes nothing, throws an overflow and
-- changes nothing, or returns a commit that is valid, shows the surface as it is, has the next
-- generation and stands prepared from then on.
pub prepare-Prepares : {s : Surface} → Inv s → Prepares s (prepare_commit s)
unfolding prepare_commit
prepare-Prepares {s} v = elim (Bool-cases (nothing_to_commit s)) [
  | inl idle ↦ inl (rw idle)
  | inr work ↦ elim (Bool-cases (s.next_commit_generation == u64_max)) [
    | inl last ↦ inr (inl (rw (work, last)))
    | inr left ↦ elim (build_commit-Builds s) [
      | inl e ↦ inr (inl (rw (work, left) e))
      | inr (w, h, le, hw, hh, e) ↦
          inr (inr (_, commit_of-IsFresh w h v work left le hw hh, ground arith, rw (work, left) e))
    ]
  ]
]

pub prepare-Inv : {s : Surface} → Inv s → Inv (after prepare_commit s)
prepare-Inv {s} v = ground (arith, prepare-Prepares v)
