-- ===== src/Http/Requests.antt =====
-- internal/httpapi/handlers.go: the checks of fields, and decoding of a body.
use Prim.Native.Char.{Char, code}
use Prim.Native.Nat.{◌-◌}
use service_scheduler.Prelude.Pattern.{is_uuid}
use service_scheduler.Prelude.{
  ℕ, zero, suc, String, Bool, true, false, not, ◌&&◌, List, [], ◌∷◌, leb, str_eq, if◌then◌else◌,
}
use Prim.Native.String.{◌++◌ as ◌<>◌}

letter : ℕ → String → Char → Char
letter n String.[] other = other
letter zero (String.◌∷◌ c s) other = c
letter (suc n) (String.◌∷◌ c s) other = letter n s other

-- `strings.ToLower`, which only reads texts of ASCII here.
unfoldable pub to_lower : String → String
unfolding letter
to_lower String.[] = String.[]
to_lower (String.◌∷◌ c s) =
    String.◌∷◌
      (if leb 65 (code c) && leb (code c) 90
        then letter (code c - 65) "abcdefghijklmnopqrstuvwxyz" c
        else c)
      (to_lower s)

-- The map of details, as the list of its entries.
abbrev pub Details : Type 0
Details = List (String × String)

unfoldable pub require_uuid : String → String → Details
require_uuid field value =
    if str_eq value ""
    then (field, "required") ∷ []
    else if not (is_uuid value)
    then (field, "must be a UUID") ∷ []
    else []

-- The errors of `json.Decoder.Decode` that are told apart.
pub data DecodeError : Type 0 where
  eof syntax too_large other : DecodeError
  wrong_type : String → DecodeError
  unknown_field : String → DecodeError

unfoldable pub decode_message : DecodeError → String
decode_message DecodeError.eof = "request body is required"
decode_message DecodeError.syntax = "malformed JSON"
decode_message (DecodeError.wrong_type field) = "field " <> field <> " has the wrong type"
decode_message DecodeError.too_large = "request body too large"
decode_message (DecodeError.unknown_field field) = "unknown field " <> field
decode_message DecodeError.other = "malformed request body"

-- What the decoder makes of a body: an error, or a value and whether there is more.
pub data Decoded (A : Type 0) : Type 0 where
  undecodable : DecodeError → Decoded A
  decoded : A → Bool → Decoded A

pub data Body (A : Type 0) : Type 0 where
  bad_body : String → Body A
  body : A → Body A

unfoldable pub decode_json : {A : Type 0} → Decoded A → Body A
unfolding decode_message
decode_json (undecodable e) = bad_body (decode_message e)
decode_json (decoded a true) = bad_body "request body must contain a single JSON object"
decode_json (decoded a false) = body a
