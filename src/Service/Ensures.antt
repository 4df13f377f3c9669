-- ===== src/Service/Ensures.antt =====
-- What holds after a call, where it returns a value and where it fails.
use service_scheduler.Prelude.{String}
use service_scheduler.Domain.Errors.{Result, ok, err}
use service_scheduler.Service.Ports.{Call, continue, return, rewrap, wrapped, ◌>>=◌}
use service_scheduler.Service.Keeps.{Keeps}

abbrev pub Post : {S A : Type 0} → (A → S → Type 0) → (S → Type 0) → Result A × S → Type 0
Post Q E (ok a, s) = Q a s
Post Q E (err e, s) = E s

-- From a state of `P` the call returns a value and a state of `Q`, or fails in a state of `E`.
pub record Ensures {S A : Type 0} (P : S → Type 0) (m : Call S A) (Q : A → S → Type 0)
    (E : S → Type 0) : Type 0 where
  pub at : (s : S) → P s → Post Q E (m s)

module _ {S A : Type 0} where
  kept_post : (P : S → Type 0) (r : Result A × S) → P r.1 → Post (λ a. P) P r
  kept_post P (ok a, s) h = h
  kept_post P (err e, s) h = h

  rewrap_post :
      (Q : A → S → Type 0) (E : S → Type 0) (text : String) (r : Result A × S)
      → Post Q E r
      → Post Q E (rewrap text r)
  rewrap_post Q E text (ok a, s) h = h
  rewrap_post Q E text (err e, s) h = h

  weaker_post :
      (Q Q' : A → S → Type 0) (E E' : S → Type 0) (r : Result A × S)
      → ((a : A) (s : S) → Q a s → Q' a s)
      → ((s : S) → E s → E' s)
      → Post Q E r
      → Post Q' E' r
  weaker_post Q Q' E E' (ok a, s) f g h = f a s h
  weaker_post Q Q' E E' (err e, s) f g h = g s h

module _ {S A : Type 0} {P : S → Type 0} where
  -- A call that keeps `P`.
  pub Ensures-Keeps : (m : Call S A) → Keeps P m → Ensures P m (λ a. P) P
  Ensures-Keeps m k = record { at = λ s h. kept_post P (m s) (k.at s h) }

  pub Ensures-return :
      {Q : A → S → Type 0} {E : S → Type 0} (a : A)
      → ((s : S) → P s → Q a s)
      → Ensures P (return a) Q E
  Ensures-return a f = record { at = f }

  pub Ensures-wrapped :
      {Q : A → S → Type 0} {E : S → Type 0} (text : String) (m : Call S A)
      → Ensures P m Q E
      → Ensures P (wrapped text m) Q E
  Ensures-wrapped {Q = Q} {E = E} text m k = record {
    at = λ s h. rewrap_post Q E text (m s) (k.at s h);
  }

  pub Ensures-weaker :
      {Q Q' : A → S → Type 0} {E E' : S → Type 0} (m : Call S A)
      → Ensures P m Q E
      → ((a : A) (s : S) → Q a s → Q' a s)
      → ((s : S) → E s → E' s)
      → Ensures P m Q' E'
  Ensures-weaker {Q = Q} {Q' = Q'} {E = E} {E' = E'} m k f g = record {
    at = λ s h. weaker_post Q Q' E E' (m s) f g (k.at s h);
  }

module _ {S A B : Type 0} {Q : A → S → Type 0} {R : B → S → Type 0} {E : S → Type 0} where
  continue_post :
      (r : Result A × S) (f : A → Call S B)
      → Post Q E r
      → ((a : A) → Ensures (Q a) (f a) R E)
      → Post R E (continue r f)
  continue_post (ok a, s) f h k = (k a).at s h
  continue_post (err e, s) f h k = h

  pub Ensures-bind :
      {P : S → Type 0} (m : Call S A) (f : A → Call S B)
      → Ensures P m Q E
      → ((a : A) → Ensures (Q a) (f a) R E)
      → Ensures P (m >>= f) R E
  Ensures-bind m f km kf = record { at = λ s h. continue_post (m s) f (km.at s h) kf }
