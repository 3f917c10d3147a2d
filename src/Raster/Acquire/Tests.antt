-- ===== src/Raster/Acquire/Tests.antt =====
-- Requests at whole coordinates, one physical pixel to one logical pixel.
use dui.Base.{false, ℕ, ◌+◌, ◌*◌, ◌≡◌, refl, ◌↔◌, true, ◌&&◌, not, none, some, [], ◌∷◌, leb, ◌==◌}
use dui.Base.Outcome.{Result, ok, throw, logic_error}
use dui.Raster.Frame.{SurfaceFrame, abandon}
use dui.Raster.Frame.{maps}
use dui.Raster.Acquire.{
  lost, assign_from, Doubles, SurfaceRequest, request_valid, ready, SurfaceAcquisition, acquire,
  move_from, check_acquired,
}
use dui.Raster.Acquire.Matching.{IsAcquired, acquire_iff}

abbrev whole : Doubles ℕ
whole = record {
  is_finite = λ x. true;
  is_nonnegative = λ x. true;
  is_positive = λ x. not (x == 0);
  is_zero = λ x. x == 0;
  is_close = λ p l r. leb p (l * r + 1) && leb (l * r) (p + 1);
}

abbrev request : SurfaceRequest ℕ
request = record {
  logical_width = 3;
  logical_height = 2;
  physical_width = 3;
  physical_height = 2;
  device_pixel_ratio = 1;
  generation = 1;
}

abbrev frame : SurfaceFrame
frame = record {
  descriptor = record { width = 3; height = 2; row_bytes = 16; generation = 1 };
  active = true;
  pixels = 32;
  calls = maps ∷ [];
}

abbrev acquired : SurfaceAcquisition
acquired = record { status = ready; frame = some frame }

acquire_iff_example : ((acquire whole request (ok acquired)).0 ≡ ok acquired) ↔ (
    (request_valid whole request ≡ true)
    × (Result.ok acquired ≡ ok acquired)
    × IsAcquired request acquired)
acquire_iff_example = acquire_iff whole request (ok acquired) acquired

returned_as_is : acquire whole request (ok acquired) ≡ (ok acquired, none)
unfolding acquire check_acquired request_valid
returned_as_is = refl

-- A frame of another generation is abandoned on the way out.
mismatched :
    acquire whole (record request { generation = 2 }) (ok acquired)
    ≡ (throw logic_error, some (abandon frame))
unfolding acquire check_acquired request_valid
mismatched = refl

-- What was moved from is returned as it is.
moved_from : (acquire whole request (ok (move_from acquired).1)).0 ≡ ok (move_from acquired).1
unfolding acquire check_acquired request_valid move_from
moved_from = refl

-- The frame that an assignment replaces is abandoned.
replaced :
    (assign_from false
      (record { status = ready; frame = some frame })
      (record { status = lost; frame = none })).1
    ≡ some (abandon frame)
unfolding assign_from
replaced = refl
