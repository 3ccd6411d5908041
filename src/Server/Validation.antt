-- ===== src/Server/Validation.antt =====
-- src/server/connection_validation.rs. The query of the request's URI and the parser of
-- form_urlencoded are arguments.
use Prim.Native.String.{len}
use bevy_simplenet.Common.{
  ℕ, String, List, [], ◌∷◌, Option, none, some, not, ltb, leb, if◌then◌else◌,
}
use bevy_simplenet.Common.Text.{str_eq}
use bevy_simplenet.Common.Result.{Result, ok, err, ◌>>=◌, ◌>>◌, map_err}
use bevy_simplenet.Common.Frames.{CloseFrame}
use bevy_simplenet.Protocol.{
  EnvType, env_type_as_str, env_type_from_str, version_msg_key, type_msg_key,
}
use bevy_simplenet.Server.Counter.{Counter, load}

-- `axum::http::StatusCode`, as far as it is used.
pub data StatusCode : Type 0 where
  service_unavailable bad_request payload_too_large : StatusCode

abbrev pub Element : Type 0
Element = String × String

unfoldable pub check_protocol_version : Option Element → String → Result String (Unit {0})
check_protocol_version none protocol_version = err "Version message missing."
check_protocol_version (some (key, value)) protocol_version =
    if not (str_eq key version_msg_key)
    then err "Version message missing."
    else if ltb 20 (len value)
    then err "Version oversized."
    else if not (str_eq value protocol_version)
    then err "Version mismatch."
    else ok tt

-- The environment type behind its text.
known_env : Option EnvType → Result String EnvType
known_env none = err "Unknown env type."
known_env (some env) = ok env

unfoldable pub try_extract_client_env : Option Element → Result String EnvType
unfolding known_env
try_extract_client_env none = err "Env type missing."
try_extract_client_env (some (key, value)) =
    if not (str_eq key type_msg_key)
    then err "Env type missing."
    else known_env (env_type_from_str value)

pub record ConnectionPrevalidator : Type 0 where
  pub protocol_version : String
  pub max_pending : ℕ  -- u32
  pub max_connections : ℕ  -- u32
  pub heartbeat_interval : ℕ
  pub keepalive_timeout : ℕ

-- The iterator's `next`, and what is left.
abbrev pub next_element : List Element → Option Element
next_element [] = none
next_element (e ∷ es) = some e

abbrev pub rest_elements : List Element → List Element
rest_elements [] = []
rest_elements (e ∷ es) = es

-- There should be no more elements.
no_excess : List Element → EnvType → Result (StatusCode × String) EnvType
no_excess [] env = ok env
no_excess (_ ∷ _) env = err (payload_too_large, "Excess query elements.")

-- The checks of the query's elements.
unfoldable pub check_elements : List Element → String → Result (StatusCode × String) EnvType
unfolding no_excess
check_elements elements protocol_version = do
  map_err (λ reason. (bad_request, reason))
      (check_protocol_version (next_element elements) protocol_version)
  env ←
      map_err (λ reason. (bad_request, reason))
        (try_extract_client_env (next_element (rest_elements elements)))
  no_excess (rest_elements (rest_elements elements)) env

unfoldable pub check_query :
    (String → List Element) → Option String → String → Result (StatusCode × String) EnvType
unfolding check_elements
check_query parse none protocol_version = err (bad_request, "Invalid query.")
check_query parse (some query) protocol_version = check_elements (parse query) protocol_version

unfoldable pub prevalidate_connection_request :
    (String → List Element)
    → Option String
    → Counter
    → Counter
    → ConnectionPrevalidator
    → Result (StatusCode × String) EnvType
unfolding check_query
prevalidate_connection_request parse query num_pending num_connections prevalidator =
    if leb prevalidator.max_pending (load num_pending)
    then err (service_unavailable, "Max pending connections.")
    else if leb prevalidator.max_connections (load num_connections)
    then err (service_unavailable, "Max connections.")
    else check_query parse query prevalidator.protocol_version

-- `extract_connection_info`; `ConnectionInfo` holds the environment type alone.
pub record ConnectionInfo : Type 0 where
  pub client_env_type : EnvType

unfoldable pub extract_connection_info :
    (String → List Element) → Option String → Result (Option CloseFrame) ConnectionInfo
extract_connection_info parse none = err none
extract_connection_info parse (some query) = do
  env ← map_err (λ _. none) (try_extract_client_env (next_element (rest_elements (parse query))))
  ok (record { client_env_type = env })

-- The elements that `ClientFactory::new_client` puts into the query of its URL.
unfoldable pub client_elements : String → EnvType → List Element
client_elements protocol_version env =
    (version_msg_key, protocol_version) ∷ (type_msg_key, env_type_as_str env) ∷ []
