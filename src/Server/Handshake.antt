-- ===== src/Server/Handshake.antt =====
-- The request of a client of `ClientFactory` at a server of `ServerFactory`.
use Prim.Native.String.{len}
use bevy_simplenet.Common.{
  ◌≤◌, ◌<◌, ◌≡◌, ◌↔◌, refl, sym, ap, ◌∙◌, String, List, [], ◌∷◌, ◌++◌, Option, some, some_inj,
  arith, length, length-append, inl, inr,
}
use bevy_simplenet.Common.Text.{eq_iff}
use bevy_simplenet.Common.Result.{ok, Result-cases}
use bevy_simplenet.Authentication.{Authenticator, AuthRequest}
use bevy_simplenet.Protocol.{EnvType, native, wasm, env_type_as_str}
use bevy_simplenet.Server.Counter.{Counter, load}
use bevy_simplenet.Server.Validation.{
  Element, client_elements, ConnectionPrevalidator, prevalidate_connection_request,
}
use bevy_simplenet.Server.Admission.{prevalidate_iff}
use bevy_simplenet.Server.Connection.{ServerConfig, ConnectionHandler}
use bevy_simplenet.Server.Factory.{Assembly, new_server, websocket_handler, socket_config}
use bevy_simplenet.Client.State.{ClientConfig}
use bevy_simplenet.Client.Factory.{new_client}
use bevy_simplenet.TextPingPong.{SocketConfig}

env_type_as_str_inj : (env env' : EnvType) → env_type_as_str env ≡ env_type_as_str env' → env ≡ env'
unfolding env_type_as_str
env_type_as_str_inj native native h = refl
env_type_as_str_inj wasm wasm h = refl
env_type_as_str_inj native wasm h = absurd (ground (arith, eq_iff "0" "1", h))
env_type_as_str_inj wasm native h = absurd (ground (arith, eq_iff "1" "0", h))

-- Two elements behind others are two elements alone only if there are no others.
own_elements :
    (others : List Element) (v w : String) (env env' : EnvType)
    → others ++ client_elements v env ≡ client_elements w env'
    → (others ≡ []) × (v ≡ w) × (env ≡ env')
unfolding client_elements
own_elements [] v w env env' h =
    (refl, ground (arith, h), env_type_as_str_inj env env' (ground (arith, h)))
own_elements (x ∷ others) v w env env' h =
    absurd (omega (arith, ap length h, length-append others (client_elements v env)))

-- The upgrade is that of a request that passes the prevalidation.
upgrade :
    {ConnectMsg ClientMsg ClientRequest ServerMsg ServerResponse : Type 0} (default : SocketConfig)
    (parse : String → List Element) (query : Option String)
    (a : Assembly ConnectMsg ClientMsg ClientRequest ServerMsg ServerResponse)
    (socket : SocketConfig)
    → websocket_handler default parse query a ≡ ok socket
    → (env : EnvType) × (prevalidate_connection_request parse query a.handler.pending_counter
          a.handler.connection_counter a.prevalidator
        ≡ ok env)
      × (socket_config default a.prevalidator env ≡ socket)
unfolding websocket_handler
upgrade default parse query a socket up =
    elim (Result-cases (
      prevalidate_connection_request parse query a.handler.pending_counter
        a.handler.connection_counter a.prevalidator)) [
          | inl (env, passed) ↦ (env, passed, ground (arith, up, passed))
          | inr (e, refused) ↦ absurd (ground (arith, up, refused))
        ]

upgraded :
    {ConnectMsg ClientMsg ClientRequest ServerMsg ServerResponse : Type 0} (default : SocketConfig)
    (parse : String → List Element) (query : Option String)
    (a : Assembly ConnectMsg ClientMsg ClientRequest ServerMsg ServerResponse) (env : EnvType)
    → prevalidate_connection_request parse query a.handler.pending_counter
        a.handler.connection_counter a.prevalidator
      ≡ ok env
    → websocket_handler default parse query a ≡ ok (socket_config default a.prevalidator env)
unfolding websocket_handler
upgraded default parse query a env passed = ground (arith, passed)

module _ (ConnectMsg ClientMsg ClientRequest ServerMsg ServerResponse : Type 0)
    (encode : List Element → String) (parse : String → List Element) where
  sent_elements :
      (num_pending num_connections : Counter) (p : ConnectionPrevalidator) (own : List Element)
      (version : String) (env env' : EnvType)
      → parse (encode (own ++ client_elements version env)) ≡ own ++ client_elements version env
      → prevalidate_connection_request parse
          (some (encode (own ++ client_elements version env)))
          num_pending
          num_connections
          p
        ≡ ok env'
      → ((load num_pending < p.max_pending)
          × (load num_connections < p.max_connections)
          × (own ≡ [])
          × (version ≡ p.protocol_version)
          × (len p.protocol_version ≤ 20))
        × (env ≡ env')
  sent_elements num_pending num_connections p own version env env' reads passed =
      let a =
        (prevalidate_iff parse (some (encode (own ++ client_elements version env))) num_pending
            num_connections p env').0
          passed in
      let text : encode (own ++ client_elements version env) ≡ a.text = some_inj a.present in
      let elements = sym reads ∙ ap parse text ∙ a.elements in
      let (none_own, same, env_same) =
        own_elements own version p.protocol_version env env' elements in
      ((a.room_pending, a.room_connections, none_own, same, a.short), env_same)

  -- A client connects to a server, which reads the elements of the query as they were written. In
  -- whatever state its counters are, the server upgrades the request exactly if it has room among
  -- the pending and among the authenticated connections, the URL that the client was given has no
  -- query of its own, and both factories have one protocol version of at most 20 bytes. The socket
  -- then has the intervals of the server's configuration and the heartbeats for the client's
  -- environment type.
  pub handshake_iff :
      (default : SocketConfig) (env : EnvType) (client_version server_version base : String)
      (own : List Element) (auth : AuthRequest) (client_config : ClientConfig) (msg : ConnectMsg)
      (authenticator : Authenticator) (config : ServerConfig)
      (h : ConnectionHandler ConnectMsg ClientMsg ClientRequest)
      → parse (encode (own ++ client_elements client_version env))
        ≡ own ++ client_elements client_version env
      → let client =
          new_client {ServerMsg = ServerMsg} {ServerResponse = ServerResponse} default env
            client_version
            (base, own)
            auth
            client_config
            msg in
        let assembled : Assembly ConnectMsg ClientMsg ClientRequest ServerMsg ServerResponse =
          new_server server_version authenticator config in
        let running = record assembled { handler = h } in
        let response =
          websocket_handler default parse (some (encode client.connect.query)) running in
        (((socket : SocketConfig) × (response ≡ ok socket)) ↔ (
          (load h.pending_counter < config.max_pending)
          × (load h.connection_counter < config.max_connections)
          × (own ≡ [])
          × (client_version ≡ server_version)
          × (len server_version ≤ 20)))
        × ((socket : SocketConfig)
            → response ≡ ok socket
            → socket ≡ socket_config default assembled.prevalidator env)
  unfolding websocket_handler new_client new_server
  handshake_iff default env client_version server_version base own auth client_config msg
        authenticator config h reads =
      let query = some (encode (own ++ client_elements client_version env)) in
      let assembled : Assembly ConnectMsg ClientMsg ClientRequest ServerMsg ServerResponse =
        new_server server_version authenticator config in
      let running = record assembled { handler = h } in
      (
        (
          λ (socket, up).
              let (env', passed, _) = upgrade default parse query running socket up in
              (sent_elements h.pending_counter h.connection_counter running.prevalidator own
                client_version env env' reads passed).0,
          λ (pending, connections, alone, same, short).
              let passes =
                (prevalidate_iff parse query h.pending_counter h.connection_counter
                    running.prevalidator env).1
                  (record {
                    room_pending = pending;
                    room_connections = connections;
                    text = _;
                    present = refl;
                    elements =
                        reads
                        ∙ ap (λ (es : List Element). es ++ client_elements client_version env) alone
                        ∙ ap (λ (v : String). client_elements v env) same;
                    short = short;
                  }) in
              (
                socket_config default running.prevalidator env,
                upgraded default parse query running env passes,
              ),
        ),
        λ socket up.
            let (env', passed, is) = upgrade default parse query running socket up in
            let same =
              (sent_elements h.pending_counter h.connection_counter running.prevalidator own
                client_version env env' reads passed).1 in
            sym is ∙ ap (socket_config default running.prevalidator) (sym same),
      )
