-- ===== src/Wayland/Surface/Invariant.antt =====
-- What holds of a surface between two calls, and of the commit that stands prepared.
use dui.Base.{
  ℕ, ◌+◌, ◌≤◌, ◌<◌, ◌≡◌, Bool, true, ◌||◌, Option, none, some, arith, i32_max, u32_max, u64_max,
  is_some,
}
use dui.Base.Outcome.{ok, after}
use dui.Wayland.Commit.{Extent, Commit, extent_valid, commit_valid}
use dui.Wayland.Surface.{
  Surface, effective_scale, make, begin_initial_commit, receive_toplevel_configure,
  receive_surface_configure, set_preferred_scale, request_frame, buffer_lost, submit_commit,
  discard_commit, frame_done,
}
use dui.Wayland.Surface.Scale.{IsExtent}

-- The commit shows the surface as it now stands, and is valid.
pub record IsFresh (s : Surface) (c : Commit) : Type 0 where
  pub revision : c.state_revision ≡ s.state_revision
  pub generation : c.generation + 1 ≡ s.next_commit_generation
  pub extent : c.logical_extent ≡ s.desired_extent
  pub serial : c.configure_serial ≡ s.pending_configure
  pub scale : c.scale_numerator ≡ effective_scale s.fractional_scale_supported s.desired_scale
  pub demand : c.request_frame_callback ≡ true → s.frame_demand ≡ true
  pub idle : c.request_frame_callback ≡ true → s.frame_callback_generation ≡ 0
  pub ready : (s.configured || is_some s.pending_configure) ≡ true
  pub valid : commit_valid c ≡ true

abbrev pub Prepared : Surface → Option Commit → Type 0
Prepared s none = Unit
Prepared s (some c) = IsFresh s c

-- Between two calls.
pub record Inv (s : Surface) : Type 0 where
  pub desired : IsExtent s.desired_extent
  pub applied : IsExtent s.applied_extent
  pub staged_width_le : s.staged_width ≤ i32_max
  pub staged_height_le : s.staged_height ≤ i32_max
  pub scale_pos : 0 < s.desired_scale
  pub scale_le : s.desired_scale ≤ u32_max
  pub revision_pos : 0 < s.state_revision
  pub revision_le : s.state_revision ≤ u64_max
  pub generation_pos : 0 < s.next_commit_generation
  pub generation_le : s.next_commit_generation ≤ u64_max
  pub callback_past : s.frame_callback_generation < s.next_commit_generation
  pub started :
      (s.configured || is_some s.pending_configure) ≡ true → s.initial_commit_started ≡ true
  pub prepared : Prepared s s.prepared

pub make-Inv : (e : Extent) (f : Bool) {s : Surface} → make e f ≡ ok s → Inv s
unfolding make extent_valid
make-Inv e f h = ground arith

pub begin-Inv : {s : Surface} → Inv s → Inv (after begin_initial_commit s)
unfolding begin_initial_commit
begin-Inv v = ground arith

pub toplevel-Inv : (w h : ℕ) {s : Surface} → Inv s → Inv (after (receive_toplevel_configure w h) s)
unfolding receive_toplevel_configure
toplevel-Inv w h v = ground arith

pub configure-Inv : (n : ℕ) {s : Surface} → Inv s → Inv (after (receive_surface_configure n) s)
unfolding receive_surface_configure
configure-Inv n v = ground arith

pub scale-Inv : (n : ℕ) {s : Surface} → n ≤ u32_max → Inv s → Inv (after (set_preferred_scale n) s)
unfolding set_preferred_scale
scale-Inv n h v = ground arith

pub request-Inv : {s : Surface} → Inv s → Inv (after request_frame s)
unfolding request_frame
request-Inv v = ground arith

pub lost-Inv : {s : Surface} → Inv s → Inv (after buffer_lost s)
unfolding buffer_lost
lost-Inv v = ground arith

pub done-Inv : (g : ℕ) {s : Surface} → Inv s → Inv (after (frame_done g) s)
unfolding frame_done
done-Inv g v = ground arith

pub submit-Inv : (c : Commit) {s : Surface} → Inv s → Inv (after (submit_commit c) s)
unfolding submit_commit
submit-Inv c v = ground arith

pub discard-Inv : (c : Commit) {s : Surface} → Inv s → Inv (after (discard_commit c) s)
unfolding discard_commit
discard-Inv c v = ground arith
