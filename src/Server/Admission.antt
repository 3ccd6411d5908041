-- ===== src/Server/Admission.antt =====
-- Which requests src/server/connection_validation.rs lets through.
use Prim.Native.String.{len}
use bevy_simplenet.Common.{
  ◌≤◌, ◌<◌, ◌≡◌, ◌↔◌, refl, String, List, [], ◌∷◌, Option, some, arith, inl, inr, Option-cases,
}
use bevy_simplenet.Common.Text.{eq_iff}
use bevy_simplenet.Common.Result.{ok}
use bevy_simplenet.Protocol.{EnvType, native, wasm, env_type_as_str, env_type_from_str}
use bevy_simplenet.Server.Counter.{Counter, load}
use bevy_simplenet.Server.Validation.{
  Element, ConnectionPrevalidator, check_protocol_version, try_extract_client_env, check_elements,
  check_query, prevalidate_connection_request, extract_connection_info, client_elements,
}

env_type_from_str_sound :
    (s : String) (env : EnvType) → env_type_from_str s ≡ some env → s ≡ env_type_as_str env
unfolding env_type_from_str env_type_as_str
env_type_from_str_sound s native h = ground (arith, eq_iff s "0", eq_iff s "1")
env_type_from_str_sound s wasm h = ground (arith, eq_iff s "0", eq_iff s "1")

env_type_from_str_complete : (env : EnvType) → env_type_from_str (env_type_as_str env) ≡ some env
unfolding env_type_from_str env_type_as_str
env_type_from_str_complete native = refl
env_type_from_str_complete wasm = refl

check_elements_sound :
    (es : List Element) (v : String) (env : EnvType)
    → check_elements es v ≡ ok env
    → (es ≡ client_elements v env) × (len v ≤ 20)
unfolding check_elements check_protocol_version try_extract_client_env client_elements
check_elements_sound [] v env h = absurd (ground arith)
check_elements_sound ((k, x) ∷ []) v env h = absurd (ground (arith, eq_iff k "v", eq_iff x v))
check_elements_sound ((k, x) ∷ (j, y) ∷ []) v env h =
    ground (arith, eq_iff k "v", eq_iff x v, eq_iff j "t", env_type_from_str_sound y env)
check_elements_sound ((k, x) ∷ (j, y) ∷ e ∷ es) v env h =
    absurd (ground (arith, eq_iff k "v", eq_iff x v, eq_iff j "t"))

check_elements_complete :
    (v : String) (env : EnvType) → len v ≤ 20 → check_elements (client_elements v env) v ≡ ok env
unfolding check_elements check_protocol_version try_extract_client_env client_elements
check_elements_complete v env h = ground (arith, eq_iff v v, env_type_from_str_complete env)

-- What the prevalidation asks for: room among the pending and the authenticated connections, and a
-- query of exactly the two elements that a client of this protocol version sends, in this order,
-- with a version of at most 20 bytes.
pub record Admits (parse : String → List Element) (query : Option String)
    (num_pending num_connections : Counter) (p : ConnectionPrevalidator) (env : EnvType)
    : Type 0 where
  pub room_pending : load num_pending < p.max_pending
  pub room_connections : load num_connections < p.max_connections
  pub text : String
  pub present : query ≡ some text
  pub elements : parse text ≡ client_elements p.protocol_version env
  pub short : len p.protocol_version ≤ 20

module _ (parse : String → List Element) (query : Option String)
    (num_pending num_connections : Counter) (p : ConnectionPrevalidator) (env : EnvType) where
  prevalidate-Admits :
      prevalidate_connection_request parse query num_pending num_connections p ≡ ok env
      → Admits parse query num_pending num_connections p env
  unfolding prevalidate_connection_request check_query
  prevalidate-Admits h = elim (Option-cases query) [
    | inl e ↦ absurd (ground arith)
    | inr (text, e) ↦
        let sound = check_elements_sound (parse text) p.protocol_version env in
        record {
          room_pending = ground arith;
          room_connections = ground arith;
          text = text;
          present = e;
          elements = (sound (ground arith)).0;
          short = (sound (ground arith)).1;
        }
  ]

  Admits-prevalidate :
      Admits parse query num_pending num_connections p env
      → prevalidate_connection_request parse query num_pending num_connections p ≡ ok env
  unfolding prevalidate_connection_request check_query
  Admits-prevalidate a =
      let complete = check_elements_complete p.protocol_version env a.short in
      let roomy = a.room_pending in
      let roomy' = a.room_connections in
      let present = a.present in let elements = a.elements in ground arith

  -- A request passes the prevalidation, for an environment type, exactly if it is admitted.
  pub prevalidate_iff :
      (prevalidate_connection_request parse query num_pending num_connections p ≡ ok env)
      ↔ Admits parse query num_pending num_connections p env
  prevalidate_iff = (prevalidate-Admits, Admits-prevalidate)

  -- What passes the prevalidation is read again with the same environment type.
  pub prevalidate-extract :
      prevalidate_connection_request parse query num_pending num_connections p ≡ ok env
      → extract_connection_info parse query ≡ ok (record { client_env_type = env })
  unfolding extract_connection_info try_extract_client_env client_elements
  prevalidate-extract h =
      let a = prevalidate-Admits h in
      let present = a.present in
      let elements = a.elements in let known = env_type_from_str_complete env in ground arith
