-- ===== src/Prelude/Text.antt =====
-- Go's order on strings: `compare` on code points, which is the order of the UTF-8 bytes.
use Prim.Native.Nat.{Ordering}
use Prim.Native.String.{String, compare}
use Prim.Native.String.compare as Clauses
use mathlib.Core.Path.{◌≡◌, refl}
use mathlib.Core.Bool.{Bool, true, false}
use mathlib.Core.Logic.{inl, inr}
use mathlib.Core.HLevel.{hedberg}
use package.service_scheduler.Prelude.Tests.{str_eq, str_eq_iff, Bool-cases}
use native.Mathlib.Omega.{arith}
use text.Mathlib.TextEquality.{path_by_compare}

abbrev pub str_ltb : String → String → Bool
str_ltb s t = elim (compare s t) [ Ordering.lt ↦ true | _ ↦ false ]

abbrev flip : Ordering → Ordering
flip Ordering.lt = Ordering.gt
flip Ordering.eq = Ordering.eq
flip Ordering.gt = Ordering.lt

compare-flip : (s t : String) → compare t s ≡ flip (compare s t)
compare-flip String.[] String.[] = refl
compare-flip String.[] (String.◌∷◌ d t) = cc (Clauses.nil-cons d t, Clauses.cons-nil d t)
compare-flip (String.◌∷◌ c s) String.[] = cc (Clauses.nil-cons c s, Clauses.cons-nil c s)
compare-flip (String.◌∷◌ c s) (String.◌∷◌ d t) =
    ground (arith, Clauses.cons-cons c d s t, Clauses.cons-cons d c t s, compare-flip s t)

compare_trans :
    (s t u : String)
    → compare s t ≡ Ordering.lt
    → compare t u ≡ Ordering.lt
    → compare s u ≡ Ordering.lt
compare_trans String.[] String.[] u p q = absurd (ground (arith, Clauses.nil-nil))
compare_trans String.[] (String.◌∷◌ d t) String.[] p q =
    absurd (ground (arith, Clauses.cons-nil d t))
compare_trans String.[] (String.◌∷◌ d t) (String.◌∷◌ e u) p q = Clauses.nil-cons e u
compare_trans (String.◌∷◌ c s) String.[] u p q = absurd (ground (arith, Clauses.cons-nil c s))
compare_trans (String.◌∷◌ c s) (String.◌∷◌ d t) String.[] p q =
    absurd (ground (arith, Clauses.cons-nil d t))
compare_trans (String.◌∷◌ c s) (String.◌∷◌ d t) (String.◌∷◌ e u) p q = ground (
  arith,
  Clauses.cons-cons c d s t,
  Clauses.cons-cons d e t u,
  Clauses.cons-cons c e s u,
  compare_trans s t u,
)

pub str_ltb-asymm : (s t : String) → str_ltb s t ≡ true → str_ltb t s ≡ false
str_ltb-asymm s t h = ground (arith, compare-flip s t)

pub str_ltb_trans : (s t u : String) → str_ltb s t ≡ true → str_ltb t u ≡ true → str_ltb s u ≡ true
str_ltb_trans s t u p q = ground (arith, compare_trans s t u)

pub str_ltb-total : (s t : String) → str_ltb s t ≡ false → str_ltb t s ≡ false → s ≡ t
str_ltb-total s t p q = path_by_compare s t (ground (arith, compare-flip s t))

String-discrete : Discrete String
String-discrete s t = elim (Bool-cases (str_eq s t)) [
  | inl e ↦ yes ((str_eq_iff s t).0 e)
  | inr e ↦ no (λ p. absurd (ground (arith, (str_eq_iff s t).1 p)))
]

pub String-set : IsSet String
String-set = hedberg String-discrete
