-- ===== src/Logger.antt =====
-- internal/logger/logger.go: the configuration of the logger and the ids on a context. zap is a
-- parameter; of its production encoder the fields that the code sets are modelled.
use ingress_api_gateway.Prelude.{
  String, ◌≡◌, refl, Bool, true, false, not, Option, none, some, List, [], ◌∷◌, ◌==◌, if◌then◌else◌,
}
use ingress_api_gateway.Domain.Result.{Result, ok, err}
use ingress_api_gateway.Config.{LogConfig}

-- zap's levels.
pub data Level : Type 0 where
  debug_level info_level warn_level error_level dpanic_level panic_level fatal_level : Level

-- The fields of a zap.Config that the code sets.
pub record ZapConfig : Type 0 where
  pub level : Level
  pub development : Bool
  pub encoding : String
  pub time_key : String
  pub encode_time : String
  pub encode_duration : String
  pub output_paths : List String
  pub error_output_paths : List String

-- `UnmarshalText` of a level.
unfoldable pub parse_level : (String → Result Level) → String → Level
parse_level unmarshal_text s = elim (unmarshal_text s) [ ok l ↦ l | err e ↦ info_level ]

unfoldable pub encoding : String → String
encoding format = if format == "console" then "console" else "json"

-- `New`; `build` is that of zap.
unfoldable pub new_logger :
    {L : Type 0} → (String → Result Level) → (ZapConfig → Result L) → LogConfig → Result L
unfolding parse_level encoding
new_logger unmarshal_text build cfg = build (record {
  level = parse_level unmarshal_text cfg.level;
  development = not (cfg.format == "json");
  encoding = encoding cfg.format;
  time_key = "ts";
  encode_time = "ISO8601";
  encode_duration = "millis";
  output_paths = "stdout" ∷ [];
  error_output_paths = "stderr" ∷ [];
})

pub data CtxKey : Type 0 where
  request_id_key trace_id_key : CtxKey

-- A value of a context, a text or of another type.
pub data ContextValue : Type 0 where
  string_value other_value : String → ContextValue

-- The values under this package's keys, the last first.
abbrev pub Context : Type 0
Context = List (CtxKey × ContextValue)

abbrev pub same_key : CtxKey → CtxKey → Bool
same_key request_id_key request_id_key = true
same_key request_id_key trace_id_key = false
same_key trace_id_key request_id_key = false
same_key trace_id_key trace_id_key = true

-- `ctx.Value`
unfoldable pub value : Context → CtxKey → Option ContextValue
value [] k = none
value ((j, v) ∷ rest) k = if same_key j k then some v else value rest k

abbrev pub as_string : Option ContextValue → String
as_string (some (string_value s)) = s
as_string other = ""

unfoldable pub string_from : Context → CtxKey → String
string_from ctx k = as_string (value ctx k)

unfoldable pub with_ids : Context → String → String → Context
with_ids ctx rid tid = (trace_id_key, string_value tid) ∷ (request_id_key, string_value rid) ∷ ctx

unfoldable pub request_id_of : Context → String
unfolding string_from
request_id_of ctx = string_from ctx request_id_key

unfoldable pub trace_id_of : Context → String
unfolding string_from
trace_id_of ctx = string_from ctx trace_id_key

-- `with` is zap's, which adds fields to a logger.
unfoldable pub from_context : {L : Type 0} → (List (String × String) → L → L) → Context → L → L
unfolding request_id_of trace_id_of
from_context add_fields ctx base =
    add_fields (("request_id", request_id_of ctx) ∷ ("trace_id", trace_id_of ctx) ∷ []) base

-- The ids that WithIDs sets are those that RequestID, TraceID and a logger of FromContext read, whatever
-- the context held before.
pub from_context-with_ids :
    {L : Type 0} (add_fields : List (String × String) → L → L) (ctx : Context) (rid tid : String)
    (base : L)
    → (request_id_of (with_ids ctx rid tid) ≡ rid)
      × (trace_id_of (with_ids ctx rid tid) ≡ tid)
      × (from_context add_fields (with_ids ctx rid tid) base
          ≡ add_fields (("request_id", rid) ∷ ("trace_id", tid) ∷ []) base)
unfolding with_ids request_id_of trace_id_of from_context string_from value
from_context-with_ids add_fields ctx rid tid base = (refl, refl, refl)
