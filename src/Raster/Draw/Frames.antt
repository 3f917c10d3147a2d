-- ===== src/Raster/Draw/Frames.antt =====
-- What a round gives, and what becomes of its frame.
use dui.Base.{ℕ, ◌≡◌, refl, ◌↔◌, Bool, true, false, Option, none, some, List, arith, is_some}
use dui.Base.Outcome.{Result, ok, throw, logic_error, runtime_error}
use dui.Raster.Frame.{
  DelegateCall, SurfaceDescriptor, SurfaceFrame, PresentStatus, present, abandon,
}
use dui.Raster.Frame.Once.{
  Call, presents_it, perform, run, Life, IsTransaction, Life-IsTransaction, perform-Life, run-Life,
}
use dui.Raster.Acquire.{SurfaceAcquisition, SurfaceAcquireStatus, take_frame, is_ready}
use dui.Raster.Thread.{FrameOutcome}
use dui.Raster.Draw.{Rendered, draw}

abbrev frame_of : SurfaceDescriptor → Bool → ℕ → List DelegateCall → SurfaceFrame
frame_of d active pixels calls = record {
  descriptor = d;
  active = active;
  pixels = pixels;
  calls = calls;
}

-- The frame after the renderer and the delegate.
abbrev used : Rendered → PresentStatus → SurfaceFrame
used (ok u, left) status = (present status left).1
used (throw e, left) status = left

presents_used :
    (f : SurfaceFrame) (d : SurfaceDescriptor) (active : Bool) (pixels : ℕ)
    (calls : List DelegateCall) (status : PresentStatus)
    → (draw
        (ok (record { status = SurfaceAcquireStatus.ready; frame = some f }))
        (ok tt, frame_of d active pixels calls)
        status).1.frame
      ≡ some (abandon (used (ok tt, frame_of d active pixels calls) status))
unfolding draw take_frame present
presents_used f d false pixels calls status = refl
presents_used f d true pixels calls PresentStatus.presented = refl
presents_used f d true pixels calls PresentStatus.out_of_date = refl
presents_used f d true pixels calls PresentStatus.lost = refl

draw-used :
    (f : SurfaceFrame) (result : Result (Unit {0})) (left : SurfaceFrame) (status : PresentStatus)
    → (draw
        (ok (record { status = SurfaceAcquireStatus.ready; frame = some f }))
        (result, left)
        status).1.frame
      ≡ some (abandon (used (result, left) status))
unfolding draw take_frame
draw-used f (ok u) left status =
    presents_used f left.descriptor left.active left.pixels left.calls status
draw-used f (throw e) left status = refl

used-Life :
    (result : Result (Unit {0})) (left : SurfaceFrame) (status : PresentStatus)
    → Life left
    → Life (used (result, left) status)
used-Life (ok u) left status h = unfold perform in perform-Life (presents_it status) left h
used-Life (throw e) left status h = h

-- A frame that was acquired between two calls on it, whatever the renderer calls on it, and whether
-- it throws or not: at the end of the round its delegate has been told to present or to abandon
-- exactly once.
pub draw-IsTransaction :
    (f : SurfaceFrame) (cs : List Call) (result : Result (Unit {0})) (status : PresentStatus)
    → Life f
    → (g : SurfaceFrame) × ((draw
          (ok (record { status = SurfaceAcquireStatus.ready; frame = some f }))
          (result, run f cs)
          status).1.frame
        ≡ some g)
      × IsTransaction g.calls
draw-IsTransaction f cs result status h = (
  abandon (used (result, run f cs) status),
  draw-used f result (run f cs) status,
  Life-IsTransaction (used (result, run f cs) status)
      (used-Life result (run f cs) status (run-Life f cs h)),
)

-- What the round gives for a frame that the renderer left active or not.
abbrev presented_as : Bool → PresentStatus → Result FrameOutcome
presented_as false status = throw logic_error
presented_as true PresentStatus.presented = ok FrameOutcome.presented
presented_as true PresentStatus.out_of_date = ok FrameOutcome.out_of_date
presented_as true PresentStatus.lost = throw runtime_error

abbrev table :
    SurfaceAcquireStatus
    → Option SurfaceFrame
    → Result (Unit {0})
    → Bool
    → PresentStatus
    → Result FrameOutcome
table SurfaceAcquireStatus.ready none result active status = throw logic_error
table SurfaceAcquireStatus.ready (some f) (ok u) active status = presented_as active status
table SurfaceAcquireStatus.ready (some f) (throw e) active status = throw e
table SurfaceAcquireStatus.unavailable frame result active status = ok FrameOutcome.unavailable
table SurfaceAcquireStatus.out_of_date frame result active status = ok FrameOutcome.out_of_date
table SurfaceAcquireStatus.lost frame result active status = throw runtime_error
table SurfaceAcquireStatus.consumed frame result active status = throw logic_error

presents_table :
    (f : SurfaceFrame) (d : SurfaceDescriptor) (active : Bool) (pixels : ℕ)
    (calls : List DelegateCall) (status : PresentStatus)
    → (draw
        (ok (record { status = SurfaceAcquireStatus.ready; frame = some f }))
        (ok tt, frame_of d active pixels calls)
        status).0
      ≡ presented_as active status
unfolding draw take_frame present
presents_table f d false pixels calls status = refl
presents_table f d true pixels calls PresentStatus.presented = refl
presents_table f d true pixels calls PresentStatus.out_of_date = refl
presents_table f d true pixels calls PresentStatus.lost = refl

draw-table :
    (st : SurfaceAcquireStatus) (frame : Option SurfaceFrame) (result : Result (Unit {0}))
    (left : SurfaceFrame) (status : PresentStatus)
    → (draw (ok (record { status = st; frame = frame })) (result, left) status).0
      ≡ table st frame result left.active status
unfolding draw take_frame
draw-table SurfaceAcquireStatus.ready none result left status = refl
draw-table SurfaceAcquireStatus.ready (some f) (ok u) left status =
    presents_table f left.descriptor left.active left.pixels left.calls status
draw-table SurfaceAcquireStatus.ready (some f) (throw e) left status = refl
draw-table SurfaceAcquireStatus.unavailable frame result left status = refl
draw-table SurfaceAcquireStatus.out_of_date frame result left status = refl
draw-table SurfaceAcquireStatus.lost frame result left status = refl
draw-table SurfaceAcquireStatus.consumed frame result left status = refl

-- A round gives `presented` exactly when a frame was acquired, the renderer returned and left it
-- active, and the delegate presented it.
pub draw_presented_iff :
    (a : SurfaceAcquisition) (rendered : Rendered) (status : PresentStatus)
    → ((draw (ok a) rendered status).0 ≡ ok FrameOutcome.presented) ↔ (
        (is_ready a.status ≡ true)
        × (is_some a.frame ≡ true)
        × (rendered.0 ≡ ok tt)
        × (rendered.1.active ≡ true)
        × (status ≡ PresentStatus.presented))
draw_presented_iff a rendered status =
    rw (draw-table a.status a.frame rendered.0 rendered.1 status) (ground arith)
