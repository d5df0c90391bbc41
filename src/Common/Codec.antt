-- ===== src/Common/Codec.antt =====
-- What stands between the wire and a consumer: `json.loads`, and the `jsonschema` package, which the
-- source calls through `iter_errors`. Both are parameters; `_validate_schema` is the source's own.
use Prim.Native.String
use Prim.Native.String.{String}
use mathlib.Core.Bool.{Bool, false, not}
use mathlib.Core.Option.{Option, none, some}
use mathlib.Core.List.{List, [], ◌∷◌}
use text.Mathlib.Text.{◌==◌ as str_eq}
use adaptive_advertisement.Common.Tests.{if◌then◌else◌}
use adaptive_advertisement.Common.Lists.{take}

pub record Codec (Msg : Type 0) : Type 1 where
  pub Raw : Type 0
  pub Json : Type 0
  -- `json.loads`: `none` is a JSONDecodeError
  pub loads : Raw → Option Json
  -- the messages of the validator's errors
  pub iter_errors : Json → List String
  -- the keys that the source reads of a valid object
  pub read : Json → Msg

-- `"; ".join(parts)`
unfoldable pub join : List String → String
join [] = ""
join (s ∷ []) = s
join (s ∷ t ∷ rest) = String.◌++◌ s (String.◌++◌ "; " (join (t ∷ rest)))

unfoldable pub validate_schema : List String → Option String
validate_schema [] = none
validate_schema (e ∷ es) = some (join (take 3 (e ∷ es)))

-- `if err:` for an `Optional[str]`
abbrev pub truthy : Option String → Bool
truthy none = false
truthy (some s) = not (str_eq s "")

pub data Received (Msg : Type 0) : Type 0 where
  invalid_json : Received Msg
  invalid_schema : Received Msg
  message : Msg → Received Msg

decoded : {Msg : Type 0} (c : Codec Msg) → Option (c.Json) → Received Msg
decoded c none = invalid_json
decoded c (some j) =
    if truthy (validate_schema (c.iter_errors j)) then invalid_schema else message (c.read j)

-- The two checks that each consumer makes first.
unfoldable pub receive : {Msg : Type 0} (c : Codec Msg) → c.Raw → Received Msg
unfolding decoded
receive c raw = decoded c (c.loads raw)

-- Every message is itself and is valid.
abbrev pub plain : (Msg : Type 0) → Codec Msg
plain Msg = record {
  Raw = Msg;
  Json = Msg;
  loads = λ m. some m;
  iter_errors = λ m. [];
  read = λ m. m;
}
