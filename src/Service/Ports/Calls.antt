-- ===== src/Service/Ports/Calls.antt =====
-- Inversion of calls that return a value.
use service_scheduler.Prelude.{◌≡◌, refl, String, Bool, true, false, if◌then◌else◌}
use service_scheduler.Domain.Errors.{GoError, Result, ok, err}
use service_scheduler.Service.Ports.{Call, continue, fail, rewrap, wrapped, ◌>>=◌}

module _ {S A : Type 0} where
  continue-ok :
      {B : Type 0} (r : Result A × S) (f : A → Call S B) (b : B) (u : S)
      → continue r f ≡ (ok b, u)
      → (a : A) × (t : S) × (r ≡ (ok a, t)) × (f a t ≡ (ok b, u))
  continue-ok (ok a, t) f b u h = (a, t, refl, h)
  continue-ok (err e, t) f b u h = absurd (cc)

  pub bind-ok :
      {B : Type 0} (m : Call S A) (f : A → Call S B) (s u : S) (b : B)
      → (m >>= f) s ≡ (ok b, u)
      → (a : A) × (t : S) × (m s ≡ (ok a, t)) × (f a t ≡ (ok b, u))
  bind-ok m f s u b h = continue-ok (m s) f b u h

  rewrap-ok :
      (text : String) (r : Result A × S) (a : A) (t : S) → rewrap text r ≡ (ok a, t) → r ≡ (ok a, t)
  rewrap-ok text (ok x, s) a t h = h
  rewrap-ok text (err e, s) a t h = absurd (cc)

  pub wrapped-ok :
      (text : String) (m : Call S A) (s t : S) (a : A)
      → wrapped text m s ≡ (ok a, t)
      → m s ≡ (ok a, t)
  wrapped-ok text m s t a h = rewrap-ok text (m s) a t h

  -- A guard that was passed.
  pub guarded-ok :
      (b : Bool) (e : GoError) (m : Call S A) (s t : S) (a : A)
      → (if b then fail e else m) s ≡ (ok a, t)
      → (b ≡ false) × (m s ≡ (ok a, t))
  guarded-ok true e m s t a h = absurd (cc)
  guarded-ok false e m s t a h = (refl, h)
