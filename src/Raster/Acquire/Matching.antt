-- ===== src/Raster/Acquire/Matching.antt =====
-- Which acquisitions acquire returns.
use dui.Base.{◌≡◌, refl, subst, ◌≢◌, ◌↔◌, inl, inr, true, none, some, arith, Option-cases}
use dui.Base.Outcome.{Result, ok, throw}
use dui.Raster.Frame.{SurfaceFrame}
use dui.Raster.Acquire.{
  Doubles, SurfaceRequest, request_valid, SurfaceAcquireStatus, ready, SurfaceAcquisition, acquire,
  check_acquired, is_ready,
}

-- A failure without a frame, or a ready frame that is active and is what was asked for. An
-- acquisition whose frame was taken away counts as a failure.
pub data IsAcquired {D : Type 0} (r : SurfaceRequest D) (a : SurfaceAcquisition) : Type 0 where
  failed : a.status ≢ ready → a.frame ≡ none → IsAcquired r a
  matching :
      (f : SurfaceFrame)
      → a.status ≡ ready
      → a.frame ≡ some f
      → f.active ≡ true
      → f.descriptor.width ≡ r.physical_width
      → f.descriptor.height ≡ r.physical_height
      → f.descriptor.generation ≡ r.generation
      → IsAcquired r a

is_ready_iff : (s : SurfaceAcquireStatus) → (is_ready s ≡ true) ↔ (s ≡ ready)
is_ready_iff s = ground arith

checked :
    {D : Type 0} (r : SurfaceRequest D) (a b : SurfaceAcquisition)
    → (check_acquired r a).0 ≡ ok b
    → (a ≡ b) × IsAcquired r a
unfolding check_acquired
checked r a b h = elim (Option-cases a.frame) [
  | inl e ↦ (ground arith, failed (ground arith) e)
  | inr (f, e) ↦ (
    ground arith,
    matching f (ground arith) e (ground arith) (ground arith) (ground arith) (ground arith),
  )
]

unchecked :
    {D : Type 0} (r : SurfaceRequest D) (a : SurfaceAcquisition)
    → IsAcquired r a
    → (check_acquired r a).0 ≡ ok a
unfolding check_acquired
unchecked r a (failed s f) = ground (arith, (is_ready_iff a.status).0)
unchecked r a (matching f s e act w h g) = ground arith

acquired_valid :
    {D : Type 0} (d : Doubles D) (r : SurfaceRequest D) (acquired : Result SurfaceAcquisition)
    (a : SurfaceAcquisition)
    → (acquire d r acquired).0 ≡ ok a
    → (request_valid d r ≡ true)
      × ((b : SurfaceAcquisition) × (acquired ≡ ok b) × ((check_acquired r b).0 ≡ ok a))
unfolding acquire
acquired_valid d r (ok b) a h = (ground arith, (b, refl, ground arith))
acquired_valid d r (throw e) a h = ground arith

-- acquire returns an acquisition exactly when the request is valid and do_acquire returned just that
-- acquisition: without a frame if it is not ready, and else with an active frame of the extent and
-- generation asked for.
pub acquire_iff :
    {D : Type 0} (d : Doubles D) (r : SurfaceRequest D) (acquired : Result SurfaceAcquisition)
    (a : SurfaceAcquisition)
    → ((acquire d r acquired).0 ≡ ok a)
      ↔ ((request_valid d r ≡ true) × (acquired ≡ ok a) × IsAcquired r a)
acquire_iff d r acquired a = (
  λ h.
      let (valid, (b, e, c)) = acquired_valid d r acquired a h in
      let (same, is_acquired) = checked r b a c in
      (valid, rw (← same) e, subst (IsAcquired r) same is_acquired),
  λ (valid, e, is_acquired). unfold acquire in ground (arith, unchecked r a is_acquired),
)
