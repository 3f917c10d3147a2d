-- ===== src/Raster/Draw/Spans.antt =====
-- The events of one round, as a sequence of nested spans.
use dui.Base.{ℕ, ◌≡◌, refl, Bool, true, false, ◌&&◌, Option, none, some, List, [], ◌∷◌, ◌++◌}
use dui.Base.Outcome.{Result, ok, throw, runtime_error}
use dui.Raster.Frame.{DelegateCall, SurfaceDescriptor, SurfaceFrame, PresentStatus, present}
use dui.Raster.Acquire.{SurfaceAcquisition, SurfaceAcquireStatus, take_frame}
use dui.Raster.Thread.{FrameOutcome}
use dui.Raster.Draw.{SpanEvent, begins, finishes, phase_eq, Rendered, draw}
use dui.Timeline.{
  TimelinePhase, raster_frame, surface_acquire, rasterize, surface_present, TimelineOutcome,
  completed, unavailable, out_of_date, lost, failed,
}

-- A span is finished once, after those that began within it.
abbrev pub nests : List TimelinePhase → List SpanEvent → Bool
nests [] [] = true
nests (p ∷ ps) [] = false
nests ps (begins p ∷ es) = nests (p ∷ ps) es
nests [] (finishes p o ∷ es) = false
nests (q ∷ ps) (finishes p o ∷ es) = phase_eq p q && nests ps es

-- Whether the surface turns out to be lost: there is no frame because of it, or there is one, which
-- the renderer leaves in use, and presenting it says so.
abbrev loses : SurfaceAcquireStatus → Option SurfaceFrame → Rendered → PresentStatus → Bool
loses SurfaceAcquireStatus.lost frame rendered status = true
loses SurfaceAcquireStatus.ready (some f) (ok u, left) PresentStatus.lost = left.active
loses _ _ _ _ = false

abbrev pub is_surface_lost : Result SurfaceAcquisition → Rendered → PresentStatus → Bool
is_surface_lost (throw e) rendered status = false
is_surface_lost (ok a) rendered status = loses a.status a.frame rendered status

-- How a span ends that has the outcome of a round.
abbrev ends_as : FrameOutcome → TimelineOutcome
ends_as FrameOutcome.presented = completed
ends_as FrameOutcome.unavailable = unavailable
ends_as FrameOutcome.out_of_date = out_of_date
ends_as FrameOutcome.canceled = failed
ends_as FrameOutcome.failed = failed

-- How the frame's own span ends, with the surface lost or not, for what the round gives.
abbrev pub IsOutcome : Bool → Result FrameOutcome → TimelineOutcome → Type 0
IsOutcome true r o = (o ≡ lost) × (r ≡ throw runtime_error)
IsOutcome false (ok outcome) o = o ≡ ends_as outcome
IsOutcome false (throw e) o = o ≡ failed

-- The events are those of the frame's own span, which is finished last, with others inside.
abbrev pub IsRound : Bool → Result FrameOutcome → List SpanEvent → Type 0
IsRound is_lost r es =
    (inside : List SpanEvent) × (o : TimelineOutcome) × (es
      ≡ begins raster_frame ∷ inside ++ finishes raster_frame o ∷ [])
    × (nests [] inside ≡ true)
    × IsOutcome is_lost r o

abbrev frame_of : SurfaceDescriptor → Bool → ℕ → List DelegateCall → SurfaceFrame
frame_of d active pixels calls = record {
  descriptor = d;
  active = active;
  pixels = pixels;
  calls = calls;
}

abbrev RoundOf : Result SurfaceAcquisition → Rendered → PresentStatus → Type 0
RoundOf acquired rendered status =
    IsRound (is_surface_lost acquired rendered status) (draw acquired rendered status).0
      (draw acquired rendered status).1.events

-- The events of the spans inside, for each way that the round goes.
abbrev span : TimelinePhase → TimelineOutcome → List SpanEvent
span p o = begins p ∷ finishes p o ∷ []

presents_round :
    (f : SurfaceFrame) (d : SurfaceDescriptor) (active : Bool) (pixels : ℕ)
    (calls : List DelegateCall) (status : PresentStatus)
    → RoundOf
        (ok (record { status = SurfaceAcquireStatus.ready; frame = some f }))
        (ok tt, frame_of d active pixels calls)
        status
unfolding draw take_frame present
presents_round f d false pixels calls PresentStatus.presented = (
  span surface_acquire completed ++ span rasterize completed ++ span surface_present failed,
  failed,
  refl,
  refl,
  refl,
)
presents_round f d false pixels calls PresentStatus.out_of_date = (
  span surface_acquire completed ++ span rasterize completed ++ span surface_present failed,
  failed,
  refl,
  refl,
  refl,
)
presents_round f d false pixels calls PresentStatus.lost = (
  span surface_acquire completed ++ span rasterize completed ++ span surface_present failed,
  failed,
  refl,
  refl,
  refl,
)
presents_round f d true pixels calls PresentStatus.presented = (
  span surface_acquire completed ++ span rasterize completed ++ span surface_present completed,
  completed,
  refl,
  refl,
  refl,
)
presents_round f d true pixels calls PresentStatus.out_of_date = (
  span surface_acquire completed ++ span rasterize completed ++ span surface_present out_of_date,
  out_of_date,
  refl,
  refl,
  refl,
)
presents_round f d true pixels calls PresentStatus.lost = (
  span surface_acquire completed ++ span rasterize completed ++ span surface_present lost,
  lost,
  refl,
  refl,
  (refl, refl),
)

acquired_round :
    (st : SurfaceAcquireStatus) (frame : Option SurfaceFrame) (result : Result (Unit {0}))
    (left : SurfaceFrame) (status : PresentStatus)
    → RoundOf (ok (record { status = st; frame = frame })) (result, left) status
unfolding draw take_frame
acquired_round SurfaceAcquireStatus.ready none result left status =
    (span surface_acquire failed, failed, refl, refl, refl)
acquired_round SurfaceAcquireStatus.ready (some f) (ok u) left status =
    presents_round f left.descriptor left.active left.pixels left.calls status
acquired_round SurfaceAcquireStatus.ready (some f) (throw e) left status =
    (span surface_acquire completed ++ span rasterize failed, failed, refl, refl, refl)
acquired_round SurfaceAcquireStatus.unavailable frame result left status =
    (span surface_acquire unavailable, unavailable, refl, refl, refl)
acquired_round SurfaceAcquireStatus.out_of_date frame result left status =
    (span surface_acquire out_of_date, out_of_date, refl, refl, refl)
acquired_round SurfaceAcquireStatus.lost frame result left status =
    (span surface_acquire lost, lost, refl, refl, (refl, refl))
acquired_round SurfaceAcquireStatus.consumed frame result left status =
    (span surface_acquire failed, failed, refl, refl, refl)

-- Whatever the surface, the renderer and the delegate do, with or without exceptions: the spans of
-- a round are nested in the span of its frame, and each is finished exactly once. The frame's own
-- ends as lost exactly when the surface is lost, by what is acquired or by what presenting gives,
-- and the round then with a runtime error; else it ends with the outcome of the round, and as
-- failed on an exception.
pub draw-IsRound :
    (acquired : Result SurfaceAcquisition) (rendered : Rendered) (status : PresentStatus)
    → IsRound
        (is_surface_lost acquired rendered status)
        (draw acquired rendered status).0
        (draw acquired rendered status).1.events
unfolding draw
draw-IsRound (throw e) rendered status = (span surface_acquire failed, failed, refl, refl, refl)
draw-IsRound (ok a) rendered status = acquired_round a.status a.frame rendered.0 rendered.1 status
