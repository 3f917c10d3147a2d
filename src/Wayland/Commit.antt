-- ===== src/Wayland/Commit.antt =====
-- WaylandExtent and WaylandCommit: what one commit of the surface shows.
use dui.Base.{
  bool_eq, ℕ, ◌+◌, ◌-◌, ◌*◌, ◌/◌, ◌%◌, Bool, true, false, ◌&&◌, ◌||◌, not, Option, none, some, ltb,
  leb, ◌==◌, if◌then◌else◌, i32_max, u64,
}

pub record Extent : Type 0 where
  pub width : ℕ
  pub height : ℕ

-- WaylandExtent::valid.
unfoldable pub extent_valid : Extent → Bool
extent_valid e =
    not (e.width == 0) && not (e.height == 0) && leb e.width i32_max && leb e.height i32_max

unfoldable pub extent_eq : Extent → Extent → Bool
extent_eq a b = a.width == b.width && a.height == b.height

pub record Commit : Type 0 where
  pub generation : ℕ
  pub state_revision : ℕ
  pub configure_serial : Option ℕ
  pub logical_extent : Extent
  pub buffer_extent : Extent
  pub buffer_scale : ℕ
  pub scale_numerator : ℕ
  pub use_viewporter : Bool
  pub request_frame_callback : Bool

abbrev pub scale_denominator : ℕ
scale_denominator = 120

-- The dimension in buffer pixels, rounded up, in std::uint64_t.
unfoldable pub scaled_dimension : ℕ → ℕ → ℕ
scaled_dimension logical numerator =
    u64 (u64 (u64 (logical * numerator) + scale_denominator) - 1) / scale_denominator

-- WaylandCommit::valid.
unfoldable pub commit_valid : Commit → Bool
commit_valid c =
    if c.generation == 0
      || c.state_revision == 0
      || not (extent_valid c.logical_extent)
      || not (extent_valid c.buffer_extent)
      || c.buffer_scale == 0
      || ltb i32_max c.buffer_scale
      || c.scale_numerator == 0
    then false
    else if not (scaled_dimension c.logical_extent.width c.scale_numerator == c.buffer_extent.width)
        || not
            (scaled_dimension c.logical_extent.height c.scale_numerator == c.buffer_extent.height)
    then false
    else if c.use_viewporter
    then c.buffer_scale == 1
    else c.scale_numerator % scale_denominator == 0
      && c.buffer_scale == c.scale_numerator / scale_denominator

abbrev pub serial_eq : Option ℕ → Option ℕ → Bool
serial_eq none none = true
serial_eq none (some b) = false
serial_eq (some a) none = false
serial_eq (some a) (some b) = a == b

-- The defaulted operator== of WaylandCommit.
unfoldable pub commit_eq : Commit → Commit → Bool
unfolding extent_eq
commit_eq a b =
    a.generation == b.generation
    && a.state_revision == b.state_revision
    && serial_eq a.configure_serial b.configure_serial
    && extent_eq a.logical_extent b.logical_extent
    && extent_eq a.buffer_extent b.buffer_extent
    && a.buffer_scale == b.buffer_scale
    && a.scale_numerator == b.scale_numerator
    && bool_eq a.use_viewporter b.use_viewporter
    && bool_eq a.request_frame_callback b.request_frame_callback
