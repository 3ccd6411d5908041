-- ===== src/Server/Stamps.antt =====
-- What one step of a server does to the commands and to the taken reports.
use bevy_simplenet.Common.{
  ℕ, ◌+◌, ◌^◌, ◌<◌, ◌≤◌, ◌≡◌, refl, sym, ◌∙◌, ap, List, [], ◌∷◌, ◌++◌, Option, none, some, arith,
  length, All, All-append, inl, inr, ◌⊎◌, Option-cases, Bool-cases, append_assoc, length-append,
}
use bevy_simplenet.Common.Bytes.{Bytes}
use bevy_simplenet.Common.Frames.{CloseFrame}
use bevy_simplenet.Protocol.{ClientMetaEvent}
use bevy_simplenet.Server.Token.{
  Deaths, RequestToken, Rejection, SessionCommand, ClientTargetMsg, ClientSourceMsg, ServerEvent,
  ServerReport,
}
use bevy_simplenet.Server.Token
use bevy_simplenet.Server.Connection.{ConnectionHandler, command, command_for}
use bevy_simplenet.Server.Api.{
  Server, Outside, call, answer, respond, ack, send, disconnect_client, next,
}
use bevy_simplenet.Server.Api
use bevy_simplenet.Server.Order.{connected_ids, connected_ids-append, IsOrdered}
use bevy_simplenet.Server.Delivery.{World}

-- A command goes out with no more reports consumed than there are.
abbrev pub IsStamped : {C M R : Type 0} → ℕ → SessionCommand C M R → Type 0
IsStamped consumed (SessionCommand.send _ (some n) _) = n ≤ consumed
IsStamped consumed (SessionCommand.send _ none _) = Unit
IsStamped consumed (SessionCommand.add _ _ _) = Unit
IsStamped consumed (SessionCommand.close _) = Unit

abbrev pub Stamped : {C M R : Type 0} → ℕ → ClientTargetMsg C M R → Type 0
Stamped consumed m = IsStamped consumed m.msg

IsStamped-mono :
    {C M R : Type 0} (n k : ℕ) (c : SessionCommand C M R) → n ≤ k → IsStamped n c → IsStamped k c
IsStamped-mono n k (SessionCommand.send _ (some _) _) h a = omega arith
IsStamped-mono n k (SessionCommand.send _ none _) h a = tt
IsStamped-mono n k (SessionCommand.add _ _ _) h a = tt
IsStamped-mono n k (SessionCommand.close _) h a = tt

Stamped-mono :
    {ConnectMsg ServerMsg ServerResponse : Type 0} (n k : ℕ)
    (ms : List (ClientTargetMsg ConnectMsg ServerMsg ServerResponse))
    → n ≤ k
    → All (Stamped n) ms
    → All (Stamped k) ms
Stamped-mono n k [] h a = tt
Stamped-mono n k (m ∷ ms) h a = (IsStamped-mono n k m.msg h a.0, Stamped-mono n k ms h a.1)

module _ {ConnectMsg ClientMsg ClientRequest ServerMsg ServerResponse : Type 0} where
  -- What holds in between: the handler's map is ordered, the taken events are the first of its
  -- events, and the server counts the reports of connections among them.
  pub record Inv (w : World ConnectMsg ClientMsg ClientRequest ServerMsg ServerResponse)
      : Type 0 where
    pub ordered : IsOrdered ConnectMsg ClientMsg ClientRequest ServerMsg ServerResponse w.handler
    pub small : w.handler.total_connections_count < 2 ^ 64
    pub rest : List (ClientSourceMsg ConnectMsg ClientMsg ClientRequest)
    pub log : w.handler.events ≡ w.received ++ rest
    pub consumed : w.server.consumed_connection_events ≡ length (connected_ids w.received)
    pub stamped : All (Stamped w.server.consumed_connection_events) w.server.calls

  -- A change of the handler that adds events.
  pub handler-Inv :
      (w : World ConnectMsg ClientMsg ClientRequest ServerMsg ServerResponse)
      (h' : ConnectionHandler ConnectMsg ClientMsg ClientRequest)
      (fs : List (ClientSourceMsg ConnectMsg ClientMsg ClientRequest))
      → h'.events ≡ w.handler.events ++ fs
      → h'.total_connections_count < 2 ^ 64
      → IsOrdered ConnectMsg ClientMsg ClientRequest ServerMsg ServerResponse h'
      → Inv w
      → Inv (record w { handler = h' })
  handler-Inv w h' fs e small ordered i = record {
    ordered = ordered;
    small = small;
    rest = i.rest ++ fs;
    log = e ∙ ap (λ es. es ++ fs) i.log ∙ append_assoc w.received i.rest fs;
    consumed = i.consumed;
    stamped = i.stamped;
  }

  -- A change of the server that adds commands.
  server-Inv :
      (w : World ConnectMsg ClientMsg ClientRequest ServerMsg ServerResponse)
      (s' : Server ConnectMsg ServerMsg ServerResponse)
      → s'.consumed_connection_events ≡ w.server.consumed_connection_events
      → All (Stamped w.server.consumed_connection_events) s'.calls
      → Inv w
      → Inv (record w { server = s' })
  server-Inv w s' e stamped i = record {
    ordered = i.ordered;
    small = i.small;
    rest = i.rest;
    log = i.log;
    consumed = e ∙ i.consumed;
    stamped = rw e stamped;
  }

  pub command_for-actions :
      (h h' : ConnectionHandler ConnectMsg ClientMsg ClientRequest)
      (serialize : ClientMetaEvent ServerMsg ServerResponse → Option Bytes) (deaths : Deaths)
      (id : ℕ) (c : SessionCommand ConnectMsg ServerMsg ServerResponse)
      → command_for serialize deaths id c h ≡ some h'
      → h' ≡ record h { actions = h'.actions }
  unfolding command_for command
  command_for-actions h h' serialize deaths id (SessionCommand.add _ _ _) e = ground arith
  command_for-actions h h' serialize deaths id (SessionCommand.send _ _ _) e = ground arith
  command_for-actions h h' serialize deaths id (SessionCommand.close _) e = ground arith

  call-Inv :
      (w : World ConnectMsg ClientMsg ClientRequest ServerMsg ServerResponse) (o : Outside) (id : ℕ)
      (c : SessionCommand ConnectMsg ServerMsg ServerResponse)
      → Stamped w.server.consumed_connection_events (record { id = id; msg = c })
      → Inv w
      → Inv (record w { server = call o id c w.server })
  unfolding call
  call-Inv w o id c k i = elim (Bool-cases o.accepts) [
    | inr refused ↦
        let same : call o id c w.server ≡ w.server = ground arith in
        rw same (server-Inv w w.server refl i.stamped i)
    | inl accepted ↦
        let m : ClientTargetMsg ConnectMsg ServerMsg ServerResponse = record { id = id; msg = c } in
        let same : call o id c w.server ≡ record (w.server) { calls = w.server.calls ++ m ∷ [] } =
          ground arith in
        rw same (
          server-Inv w (record (w.server) { calls = w.server.calls ++ m ∷ [] }) refl
            (All-append (Stamped w.server.consumed_connection_events) w.server.calls (m ∷ [])
              i.stamped (k, tt))
            i)
  ]

  pub answer-Inv :
      (w : World ConnectMsg ClientMsg ClientRequest ServerMsg ServerResponse) (o : Outside)
      (token : RequestToken) (event : ℕ → ClientMetaEvent ServerMsg ServerResponse)
      (s' : Server ConnectMsg ServerMsg ServerResponse) (rejections : List Rejection)
      → answer o token event w.server ≡ some (s', rejections)
      → Inv w
      → Inv (record w { server = s' })
  unfolding answer Token.take Token.destination_is_dead
  answer-Inv w o token event s' rejections e i = elim (Option-cases token.death_signal) [
    | inl absent ↦
        let same : s' ≡ w.server = ground arith in rw same (server-Inv w w.server refl i.stamped i)
    | inr (signal, present) ↦
        let c : SessionCommand ConnectMsg ServerMsg ServerResponse =
          SessionCommand.send (event token.request_id) none (some signal) in
        let outcomes : (s' ≡ w.server) ⊎ (s' ≡ call o token.client_id c w.server) = ground arith in
        elim outcomes [
          | inl same ↦ rw same (server-Inv w w.server refl i.stamped i)
          | inr same ↦ rw same (call-Inv w o token.client_id c tt i)
        ]
  ]

  -- The consumed reports are not more than all of them.
  consumed-small :
      (w : World ConnectMsg ClientMsg ClientRequest ServerMsg ServerResponse)
      (e : ClientSourceMsg ConnectMsg ClientMsg ClientRequest)
      (rest : List (ClientSourceMsg ConnectMsg ClientMsg ClientRequest))
      → w.handler.events ≡ w.received ++ e ∷ rest
      → Inv w
      → length (connected_ids w.received) + length (connected_ids (e ∷ rest))
        ≡ w.handler.total_connections_count
  consumed-small w e rest log i =
      sym (length-append (connected_ids w.received) (connected_ids (e ∷ rest)))
      ∙ ap length (sym (connected_ids-append w.received (e ∷ rest)))
      ∙ ap (λ es. length (connected_ids es)) (sym log)
      ∙ i.ordered.0

  next-consumed :
      (s : Server ConnectMsg ServerMsg ServerResponse)
      (e : ClientSourceMsg ConnectMsg ClientMsg ClientRequest)
      (rest : List (ClientSourceMsg ConnectMsg ClientMsg ClientRequest))
      → s.consumed_connection_events + length (connected_ids (e ∷ rest)) < 2 ^ 64
      → ((next (some e) s).0.consumed_connection_events
          ≡ s.consumed_connection_events + length (connected_ids (e ∷ [])))
        × ((next (some e) s).0.calls ≡ s.calls)
  unfolding next connected_ids
  next-consumed s e rest h = (ground arith, ground arith)

  pub takes-Inv :
      (w : World ConnectMsg ClientMsg ClientRequest ServerMsg ServerResponse)
      (e : ClientSourceMsg ConnectMsg ClientMsg ClientRequest)
      (rest : List (ClientSourceMsg ConnectMsg ClientMsg ClientRequest))
      → w.handler.events ≡ w.received ++ e ∷ rest
      → Inv w
      → Inv (record w { server = (next (some e) w.server).0; received = w.received ++ e ∷ [] })
  takes-Inv w e rest log i =
      let sum = consumed-small w e rest log i in
      let small = i.small in
      let consumed = i.consumed in
      let (now, calls) = next-consumed w.server e rest (omega arith) in
      record {
        ordered = i.ordered;
        small = i.small;
        rest = rest;
        log = log ∙ sym (append_assoc w.received (e ∷ []) rest);
        consumed = omega (
          arith,
          length-append (connected_ids w.received) (connected_ids (e ∷ [])),
          ap length (connected_ids-append w.received (e ∷ [])),
        );
        stamped = rw calls (
            rw now (
              Stamped-mono w.server.consumed_connection_events
                (w.server.consumed_connection_events + length (connected_ids (e ∷ [])))
                w.server.calls (omega arith) i.stamped));
      }

  pub send-Inv :
      (w : World ConnectMsg ClientMsg ClientRequest ServerMsg ServerResponse) (o : Outside) (id : ℕ)
      (msg : ServerMsg)
      → Inv w
      → Inv (record w { server = send o id msg w.server })
  unfolding send
  send-Inv w o id msg i =
      let c : SessionCommand ConnectMsg ServerMsg ServerResponse =
        SessionCommand.send (ClientMetaEvent.msg msg) (some w.server.consumed_connection_events)
          none in
      elim (Bool-cases (Api.is_dead o)) [
        | inl dead ↦ let same : send o id msg w.server ≡ w.server = ground arith in rw same i
        | inr alive ↦
            let same : send o id msg w.server ≡ call o id c w.server = ground arith in
            rw same (call-Inv w o id c (omega arith) i)
      ]

  pub disconnect_client-Inv :
      (w : World ConnectMsg ClientMsg ClientRequest ServerMsg ServerResponse) (o : Outside) (id : ℕ)
      (frame : Option CloseFrame)
      → Inv w
      → Inv (record w { server = disconnect_client o id frame w.server })
  unfolding disconnect_client
  disconnect_client-Inv w o id frame i =
      let c : SessionCommand ConnectMsg ServerMsg ServerResponse = SessionCommand.close frame in
      elim (Bool-cases (Api.is_dead o)) [
        | inl dead ↦
            let same : disconnect_client o id frame w.server ≡ w.server = ground arith in rw same i
        | inr alive ↦
            let same : disconnect_client o id frame w.server ≡ call o id c w.server =
              ground arith in
            rw same (call-Inv w o id c tt i)
      ]
