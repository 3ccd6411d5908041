-- ===== src/Server/Upkeep.antt =====
-- The calls of the handler of src/server/connection_handler.rs keep its maps and counters in order.
use bevy_simplenet.Common.{
  ℕ, ◌+◌, ◌-◌, ◌%◌, ◌^◌, ◌<◌, ◌≡◌, Bool, true, String, List, Option, none, some, arith, length,
  count, inl, inr, ◌⊎◌, Option-cases, Bool-cases,
}
use bevy_simplenet.Common.Bytes.{Bytes}
use bevy_simplenet.Common.Frames.{CloseFrame}
use bevy_simplenet.Common.Result.{Result}
use bevy_simplenet.Common.Map.{lookup, remove, insert, keys, contains_key, lookup-count}
use bevy_simplenet.Protocol.{EnvType, ClientMetaEvent}
use bevy_simplenet.Server.Counter.{increment, decrement, decrement_pos, increment_small}
use bevy_simplenet.Server.Validation.{Element}
use bevy_simplenet.Server.Token.{Deaths, SessionCommand}
use bevy_simplenet.Server.Session.{SessionHandler}
use bevy_simplenet.Server.Connection.{
  ServerConfig, ConnectionHandler, on_connect, register, on_disconnect, add_client, command,
  command_for, on_call,
}
use bevy_simplenet.Server.Inverse.{session_of}
use bevy_simplenet.Server.Registry.{
  limit, Registered, register-Registered, pending_pos, forget-Registered, leave-Registered,
  join-Registered,
}

-- The maps and counters of a handler that agree.
abbrev pub IsRegistered : {C M R : Type 0} → ConnectionHandler C M R → Type 0
IsRegistered h =
    Registered h.config h.pending_counter.counter h.connection_counter.counter h.session_counter
      h.session_registry h.client_to_session h.session_to_client

module _ (ConnectMsg ClientMsg ClientRequest ServerMsg ServerResponse : Type 0) where
  limit_small : (c : ServerConfig) → limit c < 2 ^ 32
  limit_small c = omega arith

  -- The handler with one more pending session.
  abbrev registered :
      ConnectionHandler ConnectMsg ClientMsg ClientRequest
      → ConnectionHandler ConnectMsg ClientMsg ClientRequest
  registered h = record h {
    pending_counter = increment h.pending_counter;
    session_counter = h.session_counter + 1;
    session_registry = insert (h.session_counter + 1) (h.session_counter + 1) h.session_registry;
  }

  on_connect-cases :
      (h h' : ConnectionHandler ConnectMsg ClientMsg ClientRequest) (parse : String → List Element)
      (query : Option String)
      (r : Result
        (Option CloseFrame)
        (SessionHandler ConnectMsg ClientMsg ClientRequest ServerMsg ServerResponse))
      → on_connect parse query h ≡ some (h', r)
      → (h' ≡ h) ⊎ (length h.session_registry < limit h.config) × (h' ≡ registered h)
  unfolding on_connect register
  on_connect-cases h h' parse query r e = ground arith

  registered-IsRegistered :
      (h : ConnectionHandler ConnectMsg ClientMsg ClientRequest)
      → length h.session_registry < limit h.config
      → IsRegistered h
      → IsRegistered (registered h)
  registered-IsRegistered h k reg =
      let small = limit_small h.config in
      let sum = reg.all_sessions in
      let e : (increment h.pending_counter).counter ≡ h.pending_counter.counter + 1 =
        increment_small h.pending_counter (omega arith) in
      rw e (
        register-Registered h.config h.pending_counter.counter h.connection_counter.counter
          h.session_counter h.session_registry h.client_to_session h.session_to_client k reg)

  pub on_connect-IsRegistered :
      (h h' : ConnectionHandler ConnectMsg ClientMsg ClientRequest) (parse : String → List Element)
      (query : Option String)
      (r : Result
        (Option CloseFrame)
        (SessionHandler ConnectMsg ClientMsg ClientRequest ServerMsg ServerResponse))
      → on_connect parse query h ≡ some (h', r)
      → IsRegistered h
      → IsRegistered h'
  on_connect-IsRegistered h h' parse query r e reg = elim (on_connect-cases h h' parse query r e) [
    | inl same ↦ rw same reg
    | inr (k, same) ↦ rw same (registered-IsRegistered h k reg)
  ]

  contains-count :
      (h : ConnectionHandler ConnectMsg ClientMsg ClientRequest) (id : ℕ)
      → contains_key id h.session_registry ≡ true
      → IsRegistered h
      → count id (keys h.session_registry) ≡ 1
  contains-count h id k reg =
      let once = reg.registry_map id in ground (arith, lookup-count id h.session_registry)

  pub on_disconnect-IsRegistered :
      (h : ConnectionHandler ConnectMsg ClientMsg ClientRequest) (accepts : Bool) (id : ℕ)
      → contains_key id h.session_registry ≡ true
      → IsRegistered h
      → IsRegistered (on_disconnect accepts id h).0
  unfolding on_disconnect
  on_disconnect-IsRegistered h accepts id k reg =
      let one = contains-count h id k reg in
      let small = limit_small h.config in
      let sum = reg.all_sessions in
      let room = reg.room in
      let p = h.pending_counter.counter in
      let c = h.connection_counter.counter in
      elim (Option-cases (lookup id h.session_to_client)) [
        | inl absent ↦
            let pos =
              pending_pos h.config p c h.session_counter h.session_registry h.client_to_session
                h.session_to_client id one absent reg in
            let less : (decrement h.pending_counter).counter ≡ p - 1 =
              decrement_pos h.pending_counter pos (omega arith) in
            let same : (on_disconnect accepts id h).0 ≡ record h {
              session_registry = remove id h.session_registry;
              pending_counter = decrement h.pending_counter;
            } =
              ground arith in
            rw same (
              rw less (
                forget-Registered h.config p c h.session_counter h.session_registry
                  h.client_to_session h.session_to_client id one absent reg))
        | inr (client, held) ↦
            let (pos, left) =
              leave-Registered h.config p c h.session_counter h.session_registry h.client_to_session
                h.session_to_client id client one held reg in
            let less : (decrement h.connection_counter).counter ≡ c - 1 =
              decrement_pos h.connection_counter pos (omega arith) in
            let same : (on_disconnect accepts id h).0 ≡ record h {
              session_registry = remove id h.session_registry;
              session_to_client = remove id h.session_to_client;
              connection_counter = decrement h.connection_counter;
              client_to_session = remove client h.client_to_session;
              events = (on_disconnect accepts id h).0.events;
            } =
              ground arith in
            rw same (rw less left)
      ]

  -- The handler with one more authenticated client, before its events.
  add_client-IsRegistered :
      (h : ConnectionHandler ConnectMsg ClientMsg ClientRequest) (accepts : Bool) (id session : ℕ)
      (msg : ConnectMsg) (env : EnvType)
      → contains_key session h.session_registry ≡ true
      → lookup session h.session_to_client ≡ none
      → IsRegistered h
      → IsRegistered (add_client accepts id session msg env h)
  unfolding add_client session_of
  add_client-IsRegistered h accepts id session msg env k absent reg =
      let one = contains-count h session k reg in
      let small = limit_small h.config in
      let sum = reg.all_sessions in
      let room = reg.room in
      let p = h.pending_counter.counter in
      let c = h.connection_counter.counter in
      elim (Option-cases (lookup id h.client_to_session)) [
        | inr (held, e) ↦
            let same : add_client accepts id session msg env h
                ≡ record h { actions = (add_client accepts id session msg env h).actions } =
              ground arith in
            rw same reg
        | inl e ↦
            let free : session_of id h.client_to_session ≡ none = ground arith in
            let pos =
              pending_pos h.config p c h.session_counter h.session_registry h.client_to_session
                h.session_to_client session one absent reg in
            let less : (decrement h.pending_counter).counter ≡ p - 1 =
              decrement_pos h.pending_counter pos (omega arith) in
            let more : (increment h.connection_counter).counter ≡ c + 1 =
              increment_small h.connection_counter (omega arith) in
            let joined =
              join-Registered h.config p c h.session_counter h.session_registry h.client_to_session
                h.session_to_client session id ((h.total_connections_count + 1) % 2 ^ 64) one absent
                free reg in
            let same : add_client accepts id session msg env h ≡ record h {
              pending_counter = decrement h.pending_counter;
              connection_counter = increment h.connection_counter;
              total_connections_count = (h.total_connections_count + 1) % 2 ^ 64;
              client_to_session =
                  insert id (session, (h.total_connections_count + 1) % 2 ^ 64) h.client_to_session;
              session_to_client = insert session id h.session_to_client;
              events = (add_client accepts id session msg env h).events;
              actions = (add_client accepts id session msg env h).actions;
            } =
              ground arith in
            rw same (rw less (rw more joined))
      ]

  pub on_call_add-IsRegistered :
      (h h' : ConnectionHandler ConnectMsg ClientMsg ClientRequest)
      (serialize : ClientMetaEvent ServerMsg ServerResponse → Option Bytes) (deaths : Deaths)
      (accepts : Bool) (id session : ℕ) (msg : ConnectMsg) (env : EnvType)
      → lookup session h.session_to_client ≡ none
      → on_call serialize deaths accepts
          (record { id = id; msg = SessionCommand.add session msg env })
          h
        ≡ some h'
      → IsRegistered h
      → IsRegistered h'
  unfolding on_call
  on_call_add-IsRegistered h h' serialize deaths accepts id session msg env absent e reg =
      elim (Bool-cases (contains_key session h.session_registry)) [
        | inl there ↦
            let same : h' ≡ add_client accepts id session msg env h = ground arith in
            rw same (add_client-IsRegistered h accepts id session msg env there absent reg)
        | inr gone ↦ let same : h' ≡ h = ground arith in rw same reg
      ]

  command_for-actions :
      (h h' : ConnectionHandler ConnectMsg ClientMsg ClientRequest)
      (serialize : ClientMetaEvent ServerMsg ServerResponse → Option Bytes) (deaths : Deaths)
      (id : ℕ) (c : SessionCommand ConnectMsg ServerMsg ServerResponse)
      → command_for serialize deaths id c h ≡ some h'
      → h' ≡ record h { actions = h'.actions }
  unfolding command_for command
  command_for-actions h h' serialize deaths id (SessionCommand.add _ _ _) e = ground arith
  command_for-actions h h' serialize deaths id (SessionCommand.send _ _ _) e = ground arith
  command_for-actions h h' serialize deaths id (SessionCommand.close _) e = ground arith

  pub command_for-IsRegistered :
      (h h' : ConnectionHandler ConnectMsg ClientMsg ClientRequest)
      (serialize : ClientMetaEvent ServerMsg ServerResponse → Option Bytes) (deaths : Deaths)
      (id : ℕ) (c : SessionCommand ConnectMsg ServerMsg ServerResponse)
      → command_for serialize deaths id c h ≡ some h'
      → IsRegistered h
      → IsRegistered h'
  command_for-IsRegistered h h' serialize deaths id c e reg =
      rw (command_for-actions h h' serialize deaths id c e) reg
