-- ===== src/Observability/Logging.antt =====
-- internal/observability/logging.go: correlation identifiers, log levels and the status writer.
pub mod Laws
use service_scheduler.Prelude.{
  ℕ, zero, suc, ◌+◌, String, Bool, true, false, not, ◌&&◌, ◌||◌, List, [], ◌∷◌, length, leb, ◌==◌,
  if◌then◌else◌,
}
use service_scheduler.Prelude.Pattern.{codes}

-- [A-Za-z0-9._:-]
is_correlation_char : ℕ → Bool
is_correlation_char c =
    (leb 65 c && leb c 90)
    || (leb 97 c && leb c 122)
    || (leb 48 c && leb c 57)
    || (c == 46)
    || (c == 95)
    || (c == 58)
    || (c == 45)

all_chars : (ℕ → Bool) → List ℕ → Bool
all_chars class [] = true
all_chars class (c ∷ cs) = class c && all_chars class cs

-- `correlationIDRe.MatchString`.
unfoldable pub is_correlation_id : String → Bool
unfolding is_correlation_char all_chars
is_correlation_id id =
    let cs = codes id in
    all_chars is_correlation_char cs && leb 1 (length cs) && leb (length cs) 128

-- `CorrelationMiddleware`: the identifier that the response's header and the context get, from the
-- request's header. `fresh` is `newID`.
unfoldable pub correlation_id_for : String → String → String
correlation_id_for fresh header = if not (is_correlation_id header) then fresh else header

pub data Level : Type 0 where
  level_info level_warn level_error : Level

unfoldable pub level_for : ℕ → Level
level_for status =
    if leb 500 status then level_error else if leb 400 status then level_warn else level_info

-- `statusWriter`, over a writer of net/http.
pub record StatusWriter (W : Type 0) : Type 0 where
  pub inner : W
  pub status : ℕ
  pub bytes : ℕ
  pub written : Bool

abbrev pub new_status_writer : {W : Type 0} → W → StatusWriter W
new_status_writer w = record { inner = w; status = 200; bytes = 0; written = false }

-- A writer's two methods: `Write` takes the bytes' number and answers with how many were written.
pub record Writer (W : Type 0) : Type 0 where
  pub write_header : ℕ → W → W
  pub write : ℕ → W → ℕ × W

-- What a handler does with its writer.
pub data WriterCall : Type 0 where
  header : ℕ → WriterCall
  body : ℕ → WriterCall

module _ {W : Type 0} (writer : Writer W) where
  unfoldable pub write_header : ℕ → StatusWriter W → StatusWriter W
  write_header code w = record w {
    inner = writer.write_header code w.inner;
    status = if not w.written then code else w.status;
    written = true;
  }

  unfoldable pub write : ℕ → StatusWriter W → StatusWriter W
  write count w =
      let (n, inner) = writer.write count w.inner in
      record w { inner = inner; bytes = w.bytes + n; written = true }

-- `statusWriter` is itself a writer.
abbrev pub status_writer : {W : Type 0} → Writer W → Writer (StatusWriter W)
status_writer writer = record {
  write_header = write_header writer;
  write = λ count w. let (n, inner) = writer.write count w.inner in (n, write writer count w);
}

-- The calls of a handler on a writer, one after the other.
unfoldable pub play : {W : Type 0} → Writer W → List WriterCall → W → W
play writer [] w = w
play writer (header code ∷ calls) w = play writer calls (writer.write_header code w)
play writer (body count ∷ calls) w = play writer calls (writer.write count w).1
