-- ===== src/Raster/Draw.antt =====
-- What the worker of RasterThread does with one submission, between two critical sections: it
-- acquires a frame, has it rendered, and presents it, with a timeline span around each. The spans
-- are those of a recorder that is there; its events are known by their phase and outcome.
pub mod Spans
pub mod Frames
mod Tests
use dui.Base.{Bool, true, false, ◌||◌, Option, none, some, List, [], ◌∷◌, ◌++◌, if◌then◌else◌}
use dui.Base.Outcome.{◌>>◌, ◌>>=◌, M, Result, ok, throw, logic_error, runtime_error}
use dui.Base.Assoc.{contains, erase_first}
use dui.Raster.Frame.{SurfaceFrame, PresentStatus, abandon, present}
use dui.Raster.Acquire.{SurfaceAcquireStatus, SurfaceAcquisition, take_frame, destroyed}
use dui.Raster.Thread.{FrameOutcome}
use dui.Timeline.{
  TimelinePhase, TimelineOutcome, reconcile, build, frame, synchronize_render_tree, layout,
  lazy_realization, composite, raster_frame, surface_acquire, rasterize, surface_present, completed,
  unavailable, out_of_date, lost, failed,
}

pub data SpanEvent : Type 0 where
  begins : TimelinePhase → SpanEvent
  finishes : TimelinePhase → TimelineOutcome → SpanEvent

abbrev pub phase_eq : TimelinePhase → TimelinePhase → Bool
phase_eq reconcile reconcile = true
phase_eq build build = true
phase_eq frame frame = true
phase_eq synchronize_render_tree synchronize_render_tree = true
phase_eq layout layout = true
phase_eq lazy_realization lazy_realization = true
phase_eq composite composite = true
phase_eq raster_frame raster_frame = true
phase_eq surface_acquire surface_acquire = true
phase_eq rasterize rasterize = true
phase_eq surface_present surface_present = true
phase_eq _ _ = false

-- The spans that have begun and are not finished, what was recorded, and the local `frame`.
pub record Drawing : Type 0 where
  pub open_spans : List TimelinePhase
  pub events : List SpanEvent
  pub frame : Option SurfaceFrame

abbrev pub is_open : TimelinePhase → List TimelinePhase → Bool
is_open p [] = false
is_open p (q ∷ qs) = phase_eq p q || is_open p qs

abbrev pub closed : TimelinePhase → List TimelinePhase → List TimelinePhase
closed p [] = []
closed p (q ∷ qs) = if phase_eq p q then qs else q ∷ closed p qs

-- TimelineSpan::TimelineSpan and TimelineSpan::finish, which does nothing the second time.
unfoldable pub begin_span : TimelinePhase → Drawing → Drawing
begin_span p s = record s { open_spans = p ∷ s.open_spans; events = s.events ++ begins p ∷ [] }

unfoldable pub finish_span : TimelinePhase → TimelineOutcome → Drawing → Drawing
finish_span p o s =
    if is_open p s.open_spans
    then record s { open_spans = closed p s.open_spans; events = s.events ++ finishes p o ∷ [] }
    else s

-- A scope with a span, which its destructor finishes as failed if nothing did before.
unfoldable pub with_span : {A : Type 0} → TimelinePhase → M Drawing A → M Drawing A
unfolding begin_span finish_span
with_span p body s = let r = body (begin_span p s) in (r.0, finish_span p failed r.1)

-- The scope of acquire_timeline. RasterSurface::acquire returns or throws `acquired`; the result is
-- the outcome so far.
acquire_step : Result SurfaceAcquisition → M Drawing FrameOutcome
unfolding finish_span
acquire_step (throw e) s = (throw e, s)
acquire_step (ok a) s = elim a.status [
  | SurfaceAcquireStatus.ready ↦ elim (take_frame a).0 [
    | throw e ↦ (throw e, s)
    | ok f ↦ (
      ok FrameOutcome.failed,
      finish_span surface_acquire completed (record s { frame = some f }),
    )
  ]
  | SurfaceAcquireStatus.unavailable ↦
      (ok FrameOutcome.unavailable, finish_span surface_acquire unavailable s)
  | SurfaceAcquireStatus.out_of_date ↦
      (ok FrameOutcome.out_of_date, finish_span surface_acquire out_of_date s)
  | SurfaceAcquireStatus.lost ↦
      (throw runtime_error, finish_span raster_frame lost (finish_span surface_acquire lost s))
  | SurfaceAcquireStatus.consumed ↦ (throw logic_error, s)
]

-- The renderer returns or throws, and leaves the frame as `left`.
abbrev pub Rendered : Type 0
Rendered = Result (Unit {0}) × SurfaceFrame

render_step : Rendered → M Drawing (Unit {0})
unfolding finish_span
render_step (ok u, left) s =
    (ok tt, finish_span rasterize completed (record s { frame = some left }))
render_step (throw e, left) s = (throw e, record s { frame = some left })

present_step : SurfaceFrame → PresentStatus → M Drawing FrameOutcome
unfolding finish_span
present_step f status s =
    let t = record s { frame = some (present status f).1 } in
    elim (present status f).0 [
      | throw e ↦ (throw e, t)
      | ok PresentStatus.presented ↦
          (ok FrameOutcome.presented, finish_span surface_present completed t)
      | ok PresentStatus.out_of_date ↦
          (ok FrameOutcome.out_of_date, finish_span surface_present out_of_date t)
      | ok PresentStatus.lost ↦
          (throw runtime_error, finish_span raster_frame lost (finish_span surface_present lost t))
    ]

-- What follows once there is a frame, or not.
draw_frame : Rendered → PresentStatus → FrameOutcome → M Drawing FrameOutcome
unfolding with_span render_step present_step
draw_frame rendered status outcome s = elim s.frame [
  | none ↦ (ok outcome, s)
  | some f ↦
      (do
        with_span rasterize (render_step rendered)
        with_span surface_present (present_step rendered.1 status))
        s
]

-- The body of the `try`; `frame` is destroyed on the way out.
draw_body : Result SurfaceAcquisition → Rendered → PresentStatus → M Drawing FrameOutcome
unfolding with_span acquire_step draw_frame
draw_body acquired rendered status s =
    let r =
      (do
        outcome ← with_span surface_acquire (acquire_step acquired)
        draw_frame rendered status outcome)
        s in
    (r.0, record r.1 { frame = destroyed r.1.frame })

-- The switch after it.
abbrev pub outcome_of : FrameOutcome → TimelineOutcome
outcome_of FrameOutcome.presented = completed
outcome_of FrameOutcome.unavailable = unavailable
outcome_of FrameOutcome.out_of_date = out_of_date
outcome_of FrameOutcome.canceled = failed
outcome_of FrameOutcome.failed = failed

finish_round : Result FrameOutcome → Drawing → Drawing
unfolding finish_span
finish_round (ok outcome) s = finish_span raster_frame (outcome_of outcome) s
finish_round (throw e) s = finish_span raster_frame failed s

unfoldable pub draw :
    Result SurfaceAcquisition → Rendered → PresentStatus → Result FrameOutcome × Drawing
unfolding with_span draw_body finish_round
draw acquired rendered status =
    with_span raster_frame
      (λ s. let r = draw_body acquired rendered status s in (r.0, finish_round r.0 r.1))
      (record { open_spans = []; events = []; frame = none })
