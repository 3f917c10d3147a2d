-- ===== src/Wayland/Surface/Commits.antt =====
-- The life of one commit: prepare_commit, submit_commit, and the calls that throw.
use dui.Base.{ℕ, ◌*◌, ◌≤◌, ◌<◌, ◌≡◌, ◌↔◌, true, false, none, some, arith, i32_max, u32_max, u64_max}
use dui.Base.Outcome.{ok, throw, Error}
use dui.Wayland.Surface.Protocol.{Call, prepare, perform}
use dui.Wayland.Surface.Scale.{
  scaled_dimension_bounds, effective_scale_bounds, integer_scale_bounds,
}
use dui.Wayland.Surface.Invariant.{Inv}
use dui.Wayland.Surface.Prepare.{prepare-Prepares, with_prepared, scale_of}
use dui.Wayland.Commit.{Commit, commit_eq, scaled_dimension}
use dui.Wayland.Surface.{
  Surface, begin_initial_commit, request_frame, buffer_lost, prepare_commit, build_commit,
  receive_toplevel_configure, receive_surface_configure, set_preferred_scale, frame_done, commit_of,
  nothing_to_commit, checked_buffer_dimension, submit_commit, discard_commit,
}

pub commit_eq_iff : (a b : Commit) → (commit_eq a b ≡ true) ↔ (a ≡ b)
unfolding commit_eq
commit_eq_iff a b = ground arith

-- Between two calls, submit_commit accepts the commit that stands prepared and no other.
pub submit_accepts :
    {s : Surface} (c : Commit) → Inv s → ((submit_commit c s).0 ≡ ok true) ↔ (s.prepared ≡ some c)
unfolding submit_commit
submit_accepts {s} c v = ground arith

-- After submit_commit of the prepared commit the surface has what the commit shows, and owes no
-- acknowledgement and no redraw; the frame callback that the commit requests is outstanding.
pub submit_applies :
    {s : Surface} (c : Commit)
    → Inv s
    → s.prepared ≡ some c
    → let t = (submit_commit c s).1 in
      (t.applied_extent ≡ c.logical_extent)
      × (t.applied_scale ≡ c.scale_numerator)
      × (t.pending_configure ≡ none)
      × (t.dirty ≡ false)
      × (t.configured ≡ true)
      × (t.prepared ≡ none)
      × (c.request_frame_callback ≡ true → t.frame_callback_generation ≡ c.generation)
unfolding submit_commit
submit_applies {s} c v h = ground arith

checked_returns :
    (l n : ℕ)
    → 0 < l * n
    → l ≤ i32_max
    → n ≤ u32_max
    → l * n ≤ 120 * i32_max
    → checked_buffer_dimension l n ≡ ok (scaled_dimension l n)
unfolding checked_buffer_dimension
checked_returns l n p hl hn h = ground (arith, scaled_dimension_bounds l n hl hn)

-- Where there is something to commit, a generation is left, and the scale and the buffer fit,
-- prepare_commit returns a commit and keeps it prepared.
pub prepare_returns :
    {s : Surface}
    → Inv s
    → nothing_to_commit s ≡ false
    → s.next_commit_generation < u64_max
    → scale_of s ≤ u32_max
    → s.desired_extent.width * scale_of s ≤ 120 * i32_max
    → s.desired_extent.height * scale_of s ≤ 120 * i32_max
    → (c : Commit) × (prepare_commit s ≡ (ok (some c), with_prepared s c))
unfolding prepare_commit build_commit
prepare_returns {s} v work left le w h = (
  commit_of s (scale_of s) (scaled_dimension s.desired_extent.width (scale_of s))
      (scaled_dimension s.desired_extent.height (scale_of s)),
  ground (
    arith,
    checked_returns s.desired_extent.width (scale_of s) pw v.desired.width_le le w,
    checked_returns s.desired_extent.height (scale_of s) ph v.desired.height_le le h,
    integer_scale_bounds (scale_of s) positive le,
  ),
)
  where
    positive : 0 < scale_of s
    positive = omega (
      arith,
      effective_scale_bounds s.fractional_scale_supported s.desired_scale v.scale_le,
      v.scale_pos,
    )

    pw : 0 < s.desired_extent.width * scale_of s
    pw = grind (arith, positive, v.desired.width_pos)

    ph : 0 < s.desired_extent.height * scale_of s
    ph = grind (arith, positive, v.desired.height_pos)

-- Between two calls: a call of the surface that throws changes nothing.
pub perform_throw_unchanged :
    (c : Call) {s : Surface} {e : Error} → Inv s → (perform c s).0 ≡ throw e → (perform c s).1 ≡ s
unfolding perform begin_initial_commit request_frame buffer_lost receive_toplevel_configure
    receive_surface_configure set_preferred_scale frame_done submit_commit discard_commit
perform_throw_unchanged prepare v h = ground (arith, prepare-Prepares v)
perform_throw_unchanged _ v h = ground arith
