-- ===== src/Raster/Frame.antt =====
-- SurfaceFrame: a transaction over a delegate, which is told to present or to abandon the frame.
-- The delegate is known by what its pixels() returns, the number of bytes, or throws. `calls` are
-- the calls that it got, in order. A span of pixels is known by its length.
pub mod Once
mod Tests
use dui.Base.{
  ℕ, ◌*◌, ◌/◌, Bool, true, false, ◌&&◌, ◌||◌, not, Option, none, some, List, [], ◌∷◌, ◌++◌, ltb,
  ◌==◌, if◌then◌else◌, i32_max, u64_max, u64,
}
use dui.Base.Outcome.{◌>>◌, M, Result, ok, throw, invalid_argument, logic_error}

pub record SurfaceDescriptor : Type 0 where
  pub width : ℕ
  pub height : ℕ
  pub row_bytes : ℕ
  pub generation : ℕ

pub data PresentStatus : Type 0 where
  presented out_of_date lost : PresentStatus

-- The calls of a SurfaceFrameDelegate.
pub data DelegateCall : Type 0 where
  maps presents abandons : DelegateCall

pub record SurfaceFrame : Type 0 where
  pub descriptor : SurfaceDescriptor
  pub active : Bool
  pub pixels : ℕ
  pub calls : List DelegateCall

-- multiplication_overflows, of std::size_t.
multiplication_overflows : ℕ → ℕ → Bool
multiplication_overflows left right = not (right == 0) && ltb (u64_max / right) left

-- SurfaceFrame::abandon.
unfoldable pub abandon : SurfaceFrame → SurfaceFrame
abandon s =
    if not s.active
    then s
    else record s { active = false; pixels = 0; calls = s.calls ++ abandons ∷ [] }

-- The lambda of the constructor.
reject : M SurfaceFrame (Unit {0})
reject s = (throw invalid_argument, record s { active = false; calls = s.calls ++ abandons ∷ [] })

reject_if : Bool → M SurfaceFrame (Unit {0})
unfolding reject
reject_if bad s = if bad then reject s else (ok tt, s)

-- The body of the `try`.
adopt_pixels : ℕ → ℕ → M SurfaceFrame (Unit {0})
unfolding reject
adopt_pixels required size s =
    if ltb size required then reject s else (ok tt, record s { pixels = required })

-- The handler: abandon, unless it is done.
rethrow_abandoned : Result (Unit {0}) × SurfaceFrame → Result (Unit {0}) × SurfaceFrame
rethrow_abandoned (ok u, s) = (ok u, s)
rethrow_abandoned (throw e, s) =
    if s.active
    then (throw e, record s { active = false; calls = s.calls ++ abandons ∷ [] })
    else (throw e, s)

map_pixels : ℕ → Result ℕ → M SurfaceFrame (Unit {0})
unfolding adopt_pixels rethrow_abandoned
map_pixels required mapped s =
    let t = record s { calls = s.calls ++ maps ∷ [] } in
    elim mapped [
      | ok size ↦ rethrow_abandoned (adopt_pixels required size t)
      | throw e ↦ rethrow_abandoned (throw e, t)
    ]

abbrev pub bytes_per_pixel : ℕ
bytes_per_pixel = 4

-- The checks of the constructor, in order, for a delegate that is there.
open_frame : Result ℕ → M SurfaceFrame (Unit {0})
unfolding reject_if map_pixels multiplication_overflows
open_frame mapped s =
    let d = s.descriptor in
    (do
      reject_if (d.width == 0 || d.height == 0 || d.generation == 0)
      reject_if (ltb i32_max d.width || ltb i32_max d.height)
      reject_if (multiplication_overflows d.width bytes_per_pixel)
      reject_if (
          ltb d.row_bytes (u64 (d.width * bytes_per_pixel)) || ltb (u64_max / d.row_bytes) d.height)
      map_pixels (u64 (d.row_bytes * d.height)) mapped)
      s

-- The constructor: the frame as it is left, with the exception if it throws. Without a delegate
-- nobody is called.
unfoldable pub make : SurfaceDescriptor → Option (Result ℕ) → Result (Unit {0}) × SurfaceFrame
unfolding open_frame
make descriptor delegate =
    let s : SurfaceFrame = record {
      descriptor = descriptor;
      active = true;
      pixels = 0;
      calls = [];
    } in
    elim delegate [ none ↦ (throw invalid_argument, s) | some mapped ↦ open_frame mapped s ]

-- SurfaceFrame::pixels.
unfoldable pub get_pixels : M SurfaceFrame ℕ
get_pixels s = if not s.active then (throw logic_error, s) else (ok s.pixels, s)

-- SurfaceFrame::present, where the delegate answers `status`.
unfoldable pub present : PresentStatus → M SurfaceFrame PresentStatus
present status s =
    if not s.active
    then (throw logic_error, s)
    else (ok status, record s { active = false; pixels = 0; calls = s.calls ++ presents ∷ [] })
