-- ===== src/Raster/Acquire.antt =====
-- SurfaceRequest, SurfaceAcquisition and RasterSurface::acquire. Doubles are of an abstract type,
-- with the tests that the code makes of them.
pub mod Matching
mod Tests
use dui.Base.{
  ℕ, Bool, true, false, ◌&&◌, ◌||◌, not, Option, none, some, ◌==◌, if◌then◌else◌, is_some,
}
use dui.Base.Outcome.{M, Result, ok, throw, invalid_argument, logic_error}
use dui.Raster.Frame.{SurfaceFrame, abandon}

-- What SurfaceRequest::valid asks of doubles.
pub record Doubles (D : Type 0) : Type 0 where
  pub is_finite : D → Bool
  pub is_nonnegative : D → Bool
  pub is_positive : D → Bool
  pub is_zero : D → Bool
  -- |p - l * r| <= 1 for a number of pixels p
  pub is_close : ℕ → D → D → Bool

pub record SurfaceRequest (D : Type 0) : Type 0 where
  pub logical_width : D
  pub logical_height : D
  pub physical_width : ℕ
  pub physical_height : ℕ
  pub device_pixel_ratio : D
  pub generation : ℕ

-- SurfaceRequest::valid.
unfoldable pub request_valid : {D : Type 0} → Doubles D → SurfaceRequest D → Bool
request_valid d r =
    d.is_finite r.logical_width
    && d.is_finite r.logical_height
    && d.is_nonnegative r.logical_width
    && d.is_nonnegative r.logical_height
    && d.is_finite r.device_pixel_ratio
    && d.is_positive r.device_pixel_ratio
    && not (r.generation == 0)
    && (if d.is_zero r.logical_width || d.is_zero r.logical_height
        then r.physical_width == 0 || r.physical_height == 0
        else not (r.physical_width == 0) && not (r.physical_height == 0))
    && d.is_close r.physical_width r.logical_width r.device_pixel_ratio
    && d.is_close r.physical_height r.logical_height r.device_pixel_ratio

pub data SurfaceAcquireStatus : Type 0 where
  ready unavailable out_of_date lost consumed : SurfaceAcquireStatus

pub record SurfaceAcquisition : Type 0 where
  pub status : SurfaceAcquireStatus
  pub frame : Option SurfaceFrame

abbrev pub is_ready : SurfaceAcquireStatus → Bool
is_ready ready = true
is_ready unavailable = false
is_ready out_of_date = false
is_ready lost = false
is_ready consumed = false

-- frame == nullptr || !frame->active()
abbrev pub is_inactive : Option SurfaceFrame → Bool
is_inactive none = true
is_inactive (some f) = not f.active

-- SurfaceAcquisition::ready and SurfaceAcquisition::failed.
unfoldable pub make_ready : Option SurfaceFrame → Result SurfaceAcquisition
make_ready frame =
    if is_inactive frame
    then throw invalid_argument
    else ok (record { status = ready; frame = frame })

unfoldable pub make_failed : SurfaceAcquireStatus → Result SurfaceAcquisition
make_failed unavailable = ok (record { status = unavailable; frame = none })
make_failed out_of_date = ok (record { status = out_of_date; frame = none })
make_failed lost = ok (record { status = lost; frame = none })
make_failed ready = throw invalid_argument
make_failed consumed = throw invalid_argument

-- The move constructor: what is moved from is left without the frame. `other` is the state.
unfoldable pub move_from : SurfaceAcquisition → SurfaceAcquisition × SurfaceAcquisition
move_from other = (other, record { status = consumed; frame = none })

-- SurfaceAcquisition::take_frame.
unfoldable pub take_frame : M SurfaceAcquisition SurfaceFrame
take_frame s = elim s.frame [
  | none ↦ (throw logic_error, s)
  | some f ↦
      if not (is_ready s.status)
      then (throw logic_error, s)
      else (ok f, record { status = consumed; frame = none })
]

-- The destructor of an acquisition destroys its frame.
abbrev pub destroyed : Option SurfaceFrame → Option SurfaceFrame
destroyed none = none
destroyed (some f) = some (abandon f)

-- The move assignment. Beside both objects stands the frame that is replaced, which is destroyed;
-- an assignment of an object to itself does nothing.
unfoldable pub assign_from :
    Bool
    → SurfaceAcquisition
    → SurfaceAcquisition
    → (SurfaceAcquisition × SurfaceAcquisition) × Option SurfaceFrame
assign_from is_itself s other =
    if is_itself
    then ((s, other), none)
    else ((other, record { status = consumed; frame = none }), destroyed s.frame)

does_match : {D : Type 0} → SurfaceRequest D → SurfaceFrame → Bool
does_match r f =
    f.descriptor.width == r.physical_width
    && f.descriptor.height == r.physical_height
    && f.descriptor.generation == r.generation

-- The checks of acquire on what do_acquire returned. Beside the result stands the frame that is
-- destroyed on the way out, if an exception leaves one behind.
check_acquired :
    {D : Type 0}
    → SurfaceRequest D
    → SurfaceAcquisition
    → Result SurfaceAcquisition × Option SurfaceFrame
unfolding does_match
check_acquired r a =
    if not (is_ready a.status)
    then if is_some a.frame then (throw logic_error, destroyed a.frame) else (ok a, none)
    else elim a.frame [
      | none ↦ (throw logic_error, none)
      | some f ↦
          if not f.active
          then (throw logic_error, some (abandon f))
          else if not (does_match r f)
          then (throw logic_error, some (abandon f))
          else (ok a, none)
    ]

-- RasterSurface::acquire, where do_acquire returns or throws `acquired`.
unfoldable pub acquire :
    {D : Type 0}
    → Doubles D
    → SurfaceRequest D
    → Result SurfaceAcquisition
    → Result SurfaceAcquisition × Option SurfaceFrame
unfolding check_acquired
acquire d r acquired =
    if not (request_valid d r)
    then (throw invalid_argument, none)
    else elim acquired [ throw e ↦ (throw e, none) | ok a ↦ check_acquired r a ]
