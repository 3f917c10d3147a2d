-- ===== src/Raster/Draw/Tests.antt =====
-- A frame is acquired; the renderer throws, or leaves it to be presented.
use dui.Base.{◌≡◌, refl, inl, true, some, [], ◌∷◌}
use dui.Base.Outcome.{ok, throw, runtime_error}
use dui.Raster.Frame.{SurfaceFrame, maps, PresentStatus, abandon}
use dui.Raster.Frame.Once.{reads, run, IsTransaction}
use dui.Raster.Acquire.{SurfaceAcquisition, SurfaceAcquireStatus, take_frame}
use dui.Raster.Draw.{Rendered, begins, finishes, draw}
use dui.Timeline.{raster_frame, surface_acquire, rasterize, completed, failed}
use dui.Raster.Draw.Frames.{draw-IsTransaction}
use dui.Raster.Draw.Spans.{IsRound, draw-IsRound}

abbrev frame : SurfaceFrame
frame = record {
  descriptor = record { width = 3; height = 2; row_bytes = 16; generation = 1 };
  active = true;
  pixels = 32;
  calls = maps ∷ [];
}

abbrev acquired : SurfaceAcquisition
acquired = record { status = SurfaceAcquireStatus.ready; frame = some frame }

thrown : draw (ok acquired) (throw runtime_error, frame) PresentStatus.presented ≡ (
  throw runtime_error,
  record {
    open_spans = [];
    events =
        begins raster_frame
        ∷ begins surface_acquire
        ∷ finishes surface_acquire completed
        ∷ begins rasterize
        ∷ finishes rasterize failed
        ∷ finishes raster_frame failed
        ∷ [];
    frame = some (abandon frame);
  },
)
unfolding draw take_frame
thrown = refl

draw-IsTransaction_example :
    (g : SurfaceFrame) × ((draw
        (ok acquired)
        (throw runtime_error, run frame (reads ∷ []))
        PresentStatus.lost).1.frame
      ≡ some g)
    × IsTransaction g.calls
draw-IsTransaction_example =
    draw-IsTransaction frame (reads ∷ []) (throw runtime_error) PresentStatus.lost
      (inl (refl, refl))

abbrev painted : Rendered
painted = (ok tt, frame)

-- The surface is lost when the frame is presented, which makes the frame's own span end as lost.
draw-IsRound_example :
    IsRound true
      (draw (ok acquired) painted PresentStatus.lost).0
      (draw (ok acquired) painted PresentStatus.lost).1.events
draw-IsRound_example = draw-IsRound (ok acquired) painted PresentStatus.lost
