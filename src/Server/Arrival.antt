-- ===== src/Server/Arrival.antt =====
-- When a message of src/server/server.rs is handed to a session.
use bevy_simplenet.Common.{
  ℕ, ◌+◌, ◌-◌, ◌^◌, ◌<◌, ◌≤◌, ◌≡◌, refl, sym, ◌∙◌, subst, ap, Bool, true, String, List, [], ◌∷◌,
  ◌++◌, Option, some, arith, All, All-middle, inl, inr, ◌⊎◌, Option-cases, Bool-cases, append-nil,
  ◌&&◌,
}
use bevy_simplenet.Common.Bytes.{Bytes}
use bevy_simplenet.Common.Frames.{CloseFrame}
use bevy_simplenet.Common.Result.{Result}
use bevy_simplenet.Common.Map.{lookup, contains_key}
use bevy_simplenet.Authentication.{Authenticator}
use bevy_simplenet.Protocol.{EnvType, ClientMetaEvent}
use bevy_simplenet.Server.Validation.{Element}
use bevy_simplenet.Server.Token.{Deaths, SessionCommand, ClientTargetMsg}
use bevy_simplenet.Server.Session.{SessionHandler}
use bevy_simplenet.Server.Connection.{
  ServerConfig, Action, ConnectionHandler, on_connect, register, on_disconnect, add_client,
  may_send, command, command_for, on_call,
}
use bevy_simplenet.Server.Api.{respond, ack}
use bevy_simplenet.Server.Runs.{initial}
use bevy_simplenet.Server.Order.{
  at, at_prefix, connected_ids, connected_ids-append, on_connect-IsOrdered, on_disconnect-IsOrdered,
  add_client-IsOrdered,
}
use bevy_simplenet.Server.Delivery.{World, start, Step, Reach, here, more}
use bevy_simplenet.Server.Stamps.{
  Stamped, Inv, handler-Inv, command_for-actions, answer-Inv, takes-Inv, send-Inv,
  disconnect_client-Inv,
}

module _ (ConnectMsg ClientMsg ClientRequest ServerMsg ServerResponse : Type 0) where
  on_connect-count :
      (h h' : ConnectionHandler ConnectMsg ClientMsg ClientRequest) (parse : String → List Element)
      (query : Option String)
      (r : Result
        (Option CloseFrame)
        (SessionHandler ConnectMsg ClientMsg ClientRequest ServerMsg ServerResponse))
      → on_connect parse query h ≡ some (h', r)
      → h'.total_connections_count ≡ h.total_connections_count
  unfolding on_connect register
  on_connect-count h h' parse query r e = ground arith

  on_disconnect-count :
      (h : ConnectionHandler ConnectMsg ClientMsg ClientRequest) (accepts : Bool) (id : ℕ)
      → (on_disconnect accepts id h).0.total_connections_count ≡ h.total_connections_count
  unfolding on_disconnect
  on_disconnect-count h accepts id = ground arith

  add_client-count :
      (h : ConnectionHandler ConnectMsg ClientMsg ClientRequest) (id session : ℕ) (msg : ConnectMsg)
      (env : EnvType)
      → h.total_connections_count + 1 < 2 ^ 64
      → (add_client true id session msg env h).total_connections_count < 2 ^ 64
  unfolding add_client
  add_client-count h id session msg env small = ground arith

  Step-Inv :
      (w w' : World ConnectMsg ClientMsg ClientRequest ServerMsg ServerResponse)
      → Step ConnectMsg ClientMsg ClientRequest ServerMsg ServerResponse w w'
      → Inv w
      → Inv w'
  unfolding on_call respond ack
  Step-Inv w w' (Step.connects _ h' parse query r e) i =
      let (es, ordered) =
        on_connect-IsOrdered ConnectMsg ClientMsg ClientRequest ServerMsg ServerResponse w.handler
          h' parse query r e in
      handler-Inv w h' [] (es ∙ sym (append-nil w.handler.events))
        (rw (on_connect-count w.handler h' parse query r e) i.small) (ordered i.ordered) i
  Step-Inv w w' (Step.disconnects _ accepts id) i =
      let (fs, es, ordered) =
        on_disconnect-IsOrdered ConnectMsg ClientMsg ClientRequest ServerMsg ServerResponse
          w.handler accepts id in
      handler-Inv w (on_disconnect accepts id w.handler).0 fs es
        (rw (on_disconnect-count w.handler accepts id) i.small) (ordered i.ordered) i
  Step-Inv w w' (Step.adds _ h' serialize deaths id session msg env small e) i =
      elim (Bool-cases (contains_key session w.handler.session_registry)) [
        | inr gone ↦ let same : h' ≡ w.handler = ground arith in rw same i
        | inl there ↦
            let same : h' ≡ add_client true id session msg env w.handler = ground arith in
            let (fs, es, ordered) =
              add_client-IsOrdered ConnectMsg ClientMsg ClientRequest ServerMsg ServerResponse
                w.handler id session msg env small in
            rw same (
              handler-Inv w (add_client true id session msg env w.handler) fs es
                (add_client-count w.handler id session msg env small) (ordered i.ordered) i)
      ]
  Step-Inv w w' (Step.commands _ h' serialize deaths id m e) i =
      rw (command_for-actions w.handler h' serialize deaths id m e) (
        handler-Inv w (record (w.handler) { actions = h'.actions }) []
          (sym (append-nil w.handler.events)) i.small i.ordered i)
  Step-Inv w w' (Step.sends _ o id msg) i = send-Inv w o id msg i
  Step-Inv w w' (Step.responds _ s' o token response rejections e) i =
      answer-Inv w o token (ClientMetaEvent.response response) s' rejections e i
  Step-Inv w w' (Step.acknowledges _ s' o token rejections e) i =
      answer-Inv w o token ClientMetaEvent.ack s' rejections e i
  Step-Inv w w' (Step.closes _ o id frame) i = disconnect_client-Inv w o id frame i
  Step-Inv w w' (Step.takes _ e rest log) i = takes-Inv w e rest log i

  start-Inv :
      (authenticator : Authenticator) (config : ServerConfig)
      → Inv (start ConnectMsg ClientMsg ClientRequest ServerMsg ServerResponse authenticator config)
  unfolding start initial lookup connected_ids
  start-Inv authenticator config = record {
    ordered = (refl, λ c s i e. absurd (ground arith));
    small = omega arith;
    rest = [];
    log = refl;
    consumed = refl;
    stamped = tt;
  }

  Reach-Inv :
      (authenticator : Authenticator) (config : ServerConfig)
      (w : World ConnectMsg ClientMsg ClientRequest ServerMsg ServerResponse)
      → Reach ConnectMsg ClientMsg ClientRequest ServerMsg ServerResponse
          (start ConnectMsg ClientMsg ClientRequest ServerMsg ServerResponse authenticator config)
          w
      → Inv w
  Reach-Inv authenticator config w here = start-Inv authenticator config
  Reach-Inv authenticator config w (more r step) =
      Step-Inv _ w step (Reach-Inv authenticator config _ r)

  -- A report whose index the server has consumed was taken by the server.
  taken :
      (w : World ConnectMsg ClientMsg ClientRequest ServerMsg ServerResponse) (id session idx : ℕ)
      → Inv w
      → lookup id w.handler.client_to_session ≡ some (session, idx)
      → idx ≤ w.server.consumed_connection_events
      → at (idx - 1) (connected_ids w.received) ≡ some id
  taken w id session idx i there early =
      let (pos, placed) = i.ordered.1 id session idx there in
      let consumed = i.consumed in
      sym (at_prefix (idx - 1) (connected_ids w.received) (connected_ids i.rest) (omega arith))
      ∙ ap (at (idx - 1)) (sym (connected_ids-append w.received i.rest))
      ∙ ap (λ es. at (idx - 1) (connected_ids es)) (sym i.log)
      ∙ placed

  -- In every run of a server whose event channel accepts the reports and whose count of connections
  -- does not wrap: when a message of `send` is handled, it changes nothing, or it is handed,
  -- serialized, to the session of its client, and then the server has taken the report of that very
  -- connection, which stands among the taken ones at the index that the session is kept with.
  pub Reach-send :
      (authenticator : Authenticator) (config : ServerConfig)
      (w : World ConnectMsg ClientMsg ClientRequest ServerMsg ServerResponse)
      (before after : List (ClientTargetMsg ConnectMsg ServerMsg ServerResponse))
      (serialize : ClientMetaEvent ServerMsg ServerResponse → Option Bytes) (deaths : Deaths)
      (accepts : Bool) (id consumed : ℕ) (event : ClientMetaEvent ServerMsg ServerResponse)
      (death : Option ℕ)
      → Reach ConnectMsg ClientMsg ClientRequest ServerMsg ServerResponse
          (start ConnectMsg ClientMsg ClientRequest ServerMsg ServerResponse authenticator config)
          w
      → w.server.calls
        ≡ before
          ++ record { id = id; msg = SessionCommand.send event (some consumed) death } ∷ after
      → (on_call serialize deaths accepts
            (record { id = id; msg = SessionCommand.send event (some consumed) death })
            w.handler
          ≡ some w.handler)
        ⊎ (session : ℕ) × (idx : ℕ) × (bytes : Bytes) × (lookup id w.handler.client_to_session
            ≡ some (session, idx))
          × (serialize event ≡ some bytes)
          × (on_call serialize deaths accepts
                (record { id = id; msg = SessionCommand.send event (some consumed) death })
                w.handler
              ≡ some (record (w.handler) {
                actions = w.handler.actions ++ Action.binary session bytes ∷ [];
              }))
          × (at (idx - 1) (connected_ids w.received) ≡ some id)
  unfolding on_call command_for command may_send
  Reach-send authenticator config w before after serialize deaths accepts id consumed event death r
        e =
      let i = Reach-Inv authenticator config w r in
      let stamped : consumed ≤ w.server.consumed_connection_events =
        All-middle (Stamped w.server.consumed_connection_events) before after
          (record { id = id; msg = SessionCommand.send event (some consumed) death })
          (subst (All (Stamped w.server.consumed_connection_events)) e i.stamped) in
      elim (Option-cases (lookup id w.handler.client_to_session)) [
        | inl absent ↦ inl (ground arith)
        | inr ((session, idx), there) ↦
            elim (Bool-cases (
              contains_key session w.handler.session_registry
              && may_send deaths (some consumed) death idx)) [
                | inr refused ↦ inl (ground arith)
                | inl sent ↦ elim (Option-cases (serialize event)) [
                  | inl bad ↦ inl (ground arith)
                  | inr (bytes, good) ↦
                      let early : idx ≤ consumed = ground arith in
                      inr (
                        session,
                        idx,
                        bytes,
                        there,
                        good,
                        ground arith,
                        taken w id session idx i there (omega arith),
                      )
                ]
              ]
      ]
