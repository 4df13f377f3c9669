-- ===== src/Prelude/Pattern.antt =====
-- The regular expressions of the program: fixed runs of a class of characters, with dashes between.
use Prim.Native.Char.{code}
use package.service_scheduler.Prelude.Tests.{leb, ◌==◌}
use Prim.Native.Nat.{ℕ, zero, suc}
use Prim.Native.String.{String}
use mathlib.Core.Bool.{Bool, true, false, ◌&&◌, ◌||◌}
use mathlib.Core.List.{List, [], ◌∷◌}

abbrev pub codes : String → List ℕ
codes String.[] = []
codes (String.◌∷◌ c s) = code c ∷ codes s

-- [0-9a-fA-F]
pub is_hex : ℕ → Bool
is_hex c = (leb 48 c && leb c 57) || (leb 97 c && leb c 102) || (leb 65 c && leb c 70)

-- \d
pub is_digit : ℕ → Bool
is_digit c = leb 48 c && leb c 57

-- So many characters of a class, and then the rest of the pattern.
pub run : (ℕ → Bool) → ℕ → (List ℕ → Bool) → List ℕ → Bool
run class zero rest cs = rest cs
run class (suc n) rest [] = false
run class (suc n) rest (c ∷ cs) = class c && run class n rest cs

pub dash : (List ℕ → Bool) → List ℕ → Bool
dash rest [] = false
dash rest (c ∷ cs) = (c == 45) && rest cs

pub at_end : List ℕ → Bool
at_end [] = true
at_end (c ∷ cs) = false

-- `uuidRe.MatchString`, of handlers.go and of repository.go.
unfoldable pub is_uuid : String → Bool
unfolding is_hex run dash at_end
is_uuid s =
    run is_hex 8
      (dash
        (run is_hex 4 (dash (run is_hex 4 (dash (run is_hex 4 (dash (run is_hex 12 at_end))))))))
      (codes s)

-- `dateRe.MatchString`.
unfoldable pub is_date_text : String → Bool
unfolding is_digit run dash at_end
is_date_text s = run is_digit 4 (dash (run is_digit 2 (dash (run is_digit 2 at_end)))) (codes s)
