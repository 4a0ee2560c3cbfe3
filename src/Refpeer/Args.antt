-- ===== src/Refpeer/Args.antt =====
-- crates/rtc-tunnel-refpeer/src/answerer.rs and main.rs: their command lines and what else they call.
use rtc_tunnel.Base.{
  ℕ, Option, none, some, List, [], ◌∷◌, Bytes, Text, Result, if◌then◌else◌, or_default,
}
use rtc_tunnel.Str.{text_eq}

-- `base64`, and `str::parse` into numbers.
pub record Codecs : Type 0 where
  pub b64_encode : Bytes → Text
  pub b64_decode : Text → Result Text Bytes
  pub parse_u16 : Text → Option ℕ
  pub parse_u64 : Text → Option ℕ

abbrev first : List Text → Option Text
first [] = none
first (a ∷ _) = some a

-- The argument behind the first one that is the key.
unfoldable pub arg_value : List Text → Text → Option Text
arg_value [] key = none
arg_value (a ∷ args) key = if text_eq a key then first args else arg_value args key

-- `.and_then(|v| v.parse().ok()).unwrap_or(default)`
unfoldable pub number_or : (Text → Option ℕ) → Option Text → ℕ → ℕ
number_or parse none default = default
number_or parse (some v) default = or_default (parse v) default
