-- ===== src/Server/Duplicate.antt =====
-- A second session of a client that is connected: the handler of src/server/connection_handler.rs
-- refuses it and closes it, and what it has asked for by then is answered all the same.
use bevy_simplenet.Common.{ℕ, ◌≡◌, Bool, true, false, [], ◌∷◌, ◌++◌, Option, none, some, arith}
use bevy_simplenet.Common.Bytes.{Bytes}
use bevy_simplenet.Common.Map.{lookup, contains_key}
use bevy_simplenet.Authentication.{SignatureScheme}
use bevy_simplenet.Protocol.{EnvType, ClientMetaEvent, ServerMetaEvent}
use bevy_simplenet.Server.Token.{
  Deaths, SessionCommand, ClientTargetMsg, ServerEvent, ClientSourceMsg, destination_is_dead, take,
}
use bevy_simplenet.Server.Token
use bevy_simplenet.Server.Session.{SessionHandler, on_message, forward}
use bevy_simplenet.Server.Session
use bevy_simplenet.Server.Connection.{
  Action, ConnectionHandler, on_call, add_client, command_for, command, may_send,
  already_connected_frame,
}
use bevy_simplenet.Server.Api.{Server, Outside, respond, answer, call}
use bevy_simplenet.Server.Api

module _ {ConnectMsg ClientMsg ClientRequest : Type 0} where
  -- The handler after a refusal.
  abbrev pub refused :
      ConnectionHandler ConnectMsg ClientMsg ClientRequest
      → ℕ
      → ConnectionHandler ConnectMsg ClientMsg ClientRequest
  refused h session = record h {
    actions = h.actions ++ Action.close session (some already_connected_frame) ∷ [];
  }

module _ {ConnectMsg ClientMsg ClientRequest ServerMsg ServerResponse : Type 0} where
  -- Where client `c` is connected by one session, and a session `s` that lives is authenticated for
  -- `c` too: the handler refuses and closes `s`; a request that `s` receives before it ends is
  -- forwarded with a token of `s`, where the event channel accepts it; and the response to that
  -- token, by a server that lives and whose call channel accepts it, is handed to the first session,
  -- which is not `s` unless both are one, where it can be serialized.
  pub answer_misrouted :
      (scheme : SignatureScheme) (so : Session.Outside) (o : Outside)
      (serialize : ClientMetaEvent ServerMsg ServerResponse → Option Bytes) (accepts : Bool)
      (h : ConnectionHandler ConnectMsg ClientMsg ClientRequest)
      (s : SessionHandler ConnectMsg ClientMsg ClientRequest ServerMsg ServerResponse)
      (server : Server ConnectMsg ServerMsg ServerResponse) (c first idx r : ℕ) (msg : ConnectMsg)
      (env : EnvType) (q : ClientRequest) (x : ServerResponse) (bytes : Bytes)
      → lookup c h.client_to_session ≡ some (first, idx)
      → contains_key first h.session_registry ≡ true
      → contains_key s.id h.session_registry ≡ true
      → s.client ≡ some c
      → so.accepts_event ≡ true
      → o.deaths s.id ≡ false
      → Api.is_dead o ≡ false
      → o.accepts ≡ true
      → serialize (ClientMetaEvent.response x r) ≡ some bytes
      → let token = Token.new c r s.id s.id in
        let reply : ClientTargetMsg ConnectMsg ServerMsg ServerResponse = record {
          id = c;
          msg = SessionCommand.send (ClientMetaEvent.response x r) none (some s.id);
        } in
        (on_call serialize o.deaths accepts
            (record { id = c; msg = SessionCommand.add s.id msg env })
            h
          ≡ some (refused h s.id))
        × (on_message scheme so (ServerMetaEvent.request q r) s
            ≡ some (record s {
              events = s.events ++ record { id = c; msg = ServerEvent.request token q } ∷ [];
            }))
        × (respond o token x server
            ≡ some (record server { calls = server.calls ++ reply ∷ [] }, []))
        × (on_call serialize o.deaths accepts reply (refused h s.id)
            ≡ some (record (refused h s.id) {
              actions = (refused h s.id).actions ++ Action.binary first bytes ∷ [];
            }))
  unfolding on_call add_client command_for command may_send on_message forward respond answer call
      Token.new Token.drop destination_is_dead take Token.is_dead
  answer_misrouted scheme so o serialize accepts h s server c first idx r msg env q x bytes
        connected there known client events alive live calls good =
      (ground arith, ground arith, ground arith, ground arith)
