-- ===== src/Raster/Frame/Tests.antt =====
-- A frame of 3 by 2 pixels in rows of 16 bytes; 40 bytes are mapped, which is enough.
use dui.Base.{◌≡◌, refl, true, some, [], ◌∷◌}
use dui.Base.Outcome.{ok, throw, runtime_error}
use dui.Raster.Frame.{
  SurfaceDescriptor, lost, maps, presents, abandons, SurfaceFrame, make, open_frame, abandon,
}
use dui.Raster.Frame.Once.{
  reads, abandons_it, presents_it, perform, run, lifetime, IsTransaction, lifetime-IsTransaction,
}

abbrev descriptor : SurfaceDescriptor
descriptor = record { width = 3; height = 2; row_bytes = 16; generation = 1 }

abbrev opened : SurfaceFrame
opened = record { descriptor = descriptor; active = true; pixels = 32; calls = maps ∷ [] }

made : make descriptor (some (ok 40)) ≡ (ok tt, opened)
unfolding make open_frame
made = refl

-- A mapping that is too small, and one that throws: each frame is abandoned once.
too_small : (make descriptor (some (ok 31))).1.calls ≡ maps ∷ abandons ∷ []
unfolding make open_frame
too_small = refl

unmapped : (make descriptor (some (throw runtime_error))).1.calls ≡ maps ∷ abandons ∷ []
unfolding make open_frame
unmapped = refl

lifetime-IsTransaction_example :
    IsTransaction (lifetime descriptor (some (ok 40)) (reads ∷ presents_it lost ∷ abandons_it ∷ []))
lifetime-IsTransaction_example =
    lifetime-IsTransaction descriptor (ok 40) (reads ∷ presents_it lost ∷ abandons_it ∷ [])

presented_once :
    lifetime descriptor (some (ok 40)) (reads ∷ presents_it lost ∷ abandons_it ∷ [])
    ≡ maps ∷ presents ∷ []
unfolding lifetime make open_frame run perform abandon
presented_once = refl
