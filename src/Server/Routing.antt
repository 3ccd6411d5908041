-- ===== src/Server/Routing.antt =====
-- Where the answers to requests go: what holds in every run of the server with its sessions.
use bevy_simplenet.Common.{
  ℕ, ◌≤◌, ◌≡◌, sym, ◌∙◌, subst, Bool, true, false, String, List, [], ◌∷◌, ◌++◌, Option, none, some,
  ◌==◌, if◌then◌else◌, arith, All, inl, inr, Option-cases, Bool-cases,
}
use bevy_simplenet.Common.Bytes.{Bytes}
use bevy_simplenet.Common.Map.{lookup, insert, contains_key, lookup-insert}
use bevy_simplenet.Common.Result.{ok}
use bevy_simplenet.Authentication.{SignatureScheme}
use bevy_simplenet.Protocol.{EnvType, ClientMetaEvent}
use bevy_simplenet.Server.Validation.{Element}
use bevy_simplenet.Server.Token.{SessionCommand, ClientTargetMsg}
use bevy_simplenet.Server.Session.{SessionHandler}
use bevy_simplenet.Server.Connection.{
  ConnectionHandler, on_connect, on_disconnect, command_for, on_call,
}
use bevy_simplenet.Server.Api.{Server}
use bevy_simplenet.Server.Stamps.{command_for-actions}
use bevy_simplenet.Server.Sessions.{IsAttested}
use bevy_simplenet.Server.Upkeep.{
  IsRegistered, on_connect-IsRegistered, on_disconnect-IsRegistered, on_call_add-IsRegistered,
}
use bevy_simplenet.Server.System.{System, admits}
use bevy_simplenet.Server.Clients.{
  client_of, client_of-insert, client_of-eq, client_of_absent, Routed, Grows, Routed-mono,
  Routed-middle, Continues,
}
use bevy_simplenet.Server.Handled.{
  on_connect-ok, on_disconnect-maps, on_call_add-maps, on_call-command_for, new-IsAttested,
  sent_client,
}

module _ (scheme : SignatureScheme)
    (ConnectMsg ClientMsg ClientRequest ServerMsg ServerResponse : Type 0) where
  -- The sessions of a system do as `Run-IsAttested` says, under their ids; admitted sessions know
  -- their clients; the handler maps admitted sessions alone, and all of those that live; answers go
  -- to the clients of the sessions that asked.
  pub record Inv (w : System scheme ConnectMsg ClientMsg ClientRequest ServerMsg ServerResponse)
      : Type 0 where
    pub registered : IsRegistered w.handler
    pub attested :
        (b : ℕ) (s : SessionHandler ConnectMsg ClientMsg ClientRequest ServerMsg ServerResponse)
        → lookup b w.sessions ≡ some s
        → IsAttested ConnectMsg ClientMsg ClientRequest ServerMsg ServerResponse scheme s
          × (s.id ≡ b)
          × (b ≤ w.handler.session_counter)
    pub known : (b c : ℕ) → lookup b w.added ≡ some c → client_of b w.sessions ≡ some c
    pub mapped :
        (b c : ℕ) → lookup b w.handler.session_to_client ≡ some c → lookup b w.added ≡ some c
    pub kept :
        (b c : ℕ)
        → lookup b w.added ≡ some c
        → w.deaths b ≡ false
        → lookup b w.handler.session_to_client ≡ some c
    pub routed : All (Routed w.sessions) w.server.calls

  pub connects-Inv :
      (w : System scheme ConnectMsg ClientMsg ClientRequest ServerMsg ServerResponse)
      (h' : ConnectionHandler ConnectMsg ClientMsg ClientRequest) (parse : String → List Element)
      (query : Option String)
      (s : SessionHandler ConnectMsg ClientMsg ClientRequest ServerMsg ServerResponse)
      → on_connect parse query w.handler ≡ some (h', ok s)
      → Inv w
      → Inv (record w {
        handler = h';
        sessions = insert s.id s w.sessions;
        deaths = λ b. if b == s.id then false else w.deaths b;
      })
  connects-Inv w h' parse query s e i =
      let (id, client, commands, events, counter, maps) =
        on_connect-ok scheme ConnectMsg ClientMsg ClientRequest ServerMsg ServerResponse w.handler
          h' parse query s e in
      let absent : lookup s.id w.sessions ≡ none = elim (Option-cases (lookup s.id w.sessions)) [
        | inl free ↦ free
        | inr (t, there) ↦ absurd (let (a, same, le) = i.attested s.id t there in omega arith)
      ] in
      let unknown = client_of_absent s.id w.sessions absent in
      let grows : Grows w.sessions (insert s.id s w.sessions) =
        λ b c k. ground (arith, client_of-insert s.id b s w.sessions, unknown) in
      record {
        registered =
            on_connect-IsRegistered ConnectMsg ClientMsg ClientRequest ServerMsg ServerResponse
              w.handler h' parse query (ok s) e i.registered;
        attested = λ b t k. elim (Bool-cases (s.id == b)) [
          | inl this ↦
              let same : t ≡ s = ground (arith, lookup-insert s.id b s w.sessions) in
              rw same (
                new-IsAttested scheme ConnectMsg ClientMsg ClientRequest ServerMsg ServerResponse s
                    (client, commands, events),
                ground arith,
                ground arith,
              )
          | inr other ↦
              let there : lookup b w.sessions ≡ some t =
                ground (arith, lookup-insert s.id b s w.sessions) in
              let (a, same, le) = i.attested b t there in (a, same, omega arith)
        ];
        known = λ b c k. grows b c (i.known b c k);
        mapped = λ b c k. i.mapped b c (rw (← maps) k);
        kept = λ b c k alive.
            let knows = i.known b c k in
            let was : w.deaths b ≡ false = ground arith in rw maps (i.kept b c k was);
        routed = Routed-mono w.sessions (insert s.id s w.sessions) w.server.calls grows i.routed;
      }

  -- A session goes on: it keeps its id and its client, and does as `Run-IsAttested` says.
  pub onward-Inv :
      (w : System scheme ConnectMsg ClientMsg ClientRequest ServerMsg ServerResponse)
      (s s' : SessionHandler ConnectMsg ClientMsg ClientRequest ServerMsg ServerResponse) (id : ℕ)
      → lookup id w.sessions ≡ some s
      → Continues s s'
      → (IsAttested ConnectMsg ClientMsg ClientRequest ServerMsg ServerResponse scheme s
          → IsAttested ConnectMsg ClientMsg ClientRequest ServerMsg ServerResponse scheme s')
      → Inv w
      → Inv (record w { sessions = insert id s' w.sessions })
  onward-Inv w s s' id there (same', keeps) f i =
      let (a, same, le) = i.attested id s there in
      let knew = client_of-eq id s w.sessions there in
      let grows : Grows w.sessions (insert id s' w.sessions) = λ b c k.
        let keep = keeps c in ground (arith, client_of-insert id b s' w.sessions, keep, knew) in
      record {
        registered = i.registered;
        attested = λ b t k. elim (Bool-cases (id == b)) [
          | inl this ↦
              let new : t ≡ s' = ground (arith, lookup-insert id b s' w.sessions) in
              rw new (f a, ground arith, ground arith)
          | inr other ↦
              let old : lookup b w.sessions ≡ some t =
                ground (arith, lookup-insert id b s' w.sessions) in
              i.attested b t old
        ];
        known = λ b c k. grows b c (i.known b c k);
        mapped = i.mapped;
        kept = i.kept;
        routed = Routed-mono w.sessions (insert id s' w.sessions) w.server.calls grows i.routed;
      }

  pub disconnects-Inv :
      (w : System scheme ConnectMsg ClientMsg ClientRequest ServerMsg ServerResponse)
      (accepts : Bool) (id : ℕ)
      → contains_key id w.handler.session_registry ≡ true
      → w.deaths id ≡ true
      → Inv w
      → Inv (record w { handler = (on_disconnect accepts id w.handler).0 })
  disconnects-Inv w accepts id there dead i =
      let counter =
        (on_disconnect-maps scheme ConnectMsg ClientMsg ClientRequest ServerMsg ServerResponse
          w.handler accepts id 0).0 in
      record {
        registered =
            on_disconnect-IsRegistered ConnectMsg ClientMsg ClientRequest ServerMsg ServerResponse
              w.handler accepts id there i.registered;
        attested = λ b s k. let (a, same, le) = i.attested b s k in (a, same, omega arith);
        known = i.known;
        mapped = λ b c k.
            let maps =
              (on_disconnect-maps scheme ConnectMsg ClientMsg ClientRequest ServerMsg ServerResponse
                w.handler accepts id b).1 in
            let was : lookup b w.handler.session_to_client ≡ some c = ground arith in
            i.mapped b c was;
        kept = λ b c k alive.
            let maps =
              (on_disconnect-maps scheme ConnectMsg ClientMsg ClientRequest ServerMsg ServerResponse
                w.handler accepts id b).1 in
            let was = i.kept b c k alive in ground arith;
        routed = i.routed;
      }

  pub adds-Inv :
      (w : System scheme ConnectMsg ClientMsg ClientRequest ServerMsg ServerResponse)
      (h' : ConnectionHandler ConnectMsg ClientMsg ClientRequest)
      (serialize : ClientMetaEvent ServerMsg ServerResponse → Option Bytes) (accepts : Bool)
      (s : SessionHandler ConnectMsg ClientMsg ClientRequest ServerMsg ServerResponse)
      (client session : ℕ) (msg : ConnectMsg) (env : EnvType)
      → lookup session w.sessions ≡ some s
      → s.commands ≡ record { id = client; msg = SessionCommand.add session msg env } ∷ []
      → lookup session w.added ≡ none
      → on_call serialize w.deaths accepts
          (record { id = client; msg = SessionCommand.add session msg env })
          w.handler
        ≡ some h'
      → Inv w
      → Inv (record w {
        handler = h';
        added =
            if admits scheme ConnectMsg ClientMsg ClientRequest ServerMsg ServerResponse w.handler
              client session
            then (session, client) ∷ w.added
            else w.added;
      })
  unfolding lookup
  adds-Inv w h' serialize accepts s client session msg env there sent new e i =
      let (a, same, le) = i.attested session s there in
      let known : client_of session w.sessions ≡ some client =
        client_of-eq session s w.sessions there
        ∙ sent_client scheme ConnectMsg ClientMsg ClientRequest ServerMsg ServerResponse s client
            session msg env a sent in
      let (counter, maps) =
        on_call_add-maps scheme ConnectMsg ClientMsg ClientRequest ServerMsg ServerResponse
          w.handler h' serialize w.deaths accepts client session msg env e in
      let unmapped : lookup session w.handler.session_to_client ≡ none =
        elim (Option-cases (lookup session w.handler.session_to_client)) [
          | inl free ↦ free
          | inr (c, k) ↦ let was = i.mapped session c k in absurd (ground arith)
        ] in
      record {
        registered =
            on_call_add-IsRegistered ConnectMsg ClientMsg ClientRequest ServerMsg ServerResponse
              w.handler h' serialize w.deaths accepts client session msg env unmapped e
              i.registered;
        attested = λ b t k. let (a, same, le) = i.attested b t k in (a, same, omega arith);
        known = λ b c k. let was = i.known b c in ground arith;
        mapped = λ b c k.
            let was = i.mapped b c in
            ground (arith, lookup-insert session b client w.handler.session_to_client);
        kept = λ b c k alive.
            let was = i.kept b c in
            ground (arith, lookup-insert session b client w.handler.session_to_client);
        routed = i.routed;
      }

  pub handles-Inv :
      (w : System scheme ConnectMsg ClientMsg ClientRequest ServerMsg ServerResponse)
      (h' : ConnectionHandler ConnectMsg ClientMsg ClientRequest)
      (serialize : ClientMetaEvent ServerMsg ServerResponse → Option Bytes) (accepts : Bool)
      (before after : List (ClientTargetMsg ConnectMsg ServerMsg ServerResponse))
      (m : ClientTargetMsg ConnectMsg ServerMsg ServerResponse)
      → w.server.calls ≡ before ++ m ∷ after
      → on_call serialize w.deaths accepts m w.handler ≡ some h'
      → Inv w
      → Inv (record w { handler = h' })
  handles-Inv w h' serialize accepts before after m calls e i =
      let r : Routed w.sessions m =
        Routed-middle w.sessions before after m (subst (All (Routed w.sessions)) calls i.routed) in
      let plain : command_for serialize w.deaths m.id m.msg w.handler ≡ some h' =
        sym (
          on_call-command_for scheme ConnectMsg ClientMsg ClientRequest ServerMsg ServerResponse
            w.sessions w.handler serialize w.deaths accepts m.id m.msg r)
        ∙ e in
      rw (command_for-actions w.handler h' serialize w.deaths m.id m.msg plain) (record {
        registered = i.registered;
        attested = i.attested;
        known = i.known;
        mapped = i.mapped;
        kept = i.kept;
        routed = i.routed;
      })

  -- A change of the server alone.
  pub server-Inv :
      (w : System scheme ConnectMsg ClientMsg ClientRequest ServerMsg ServerResponse)
      (s' : Server ConnectMsg ServerMsg ServerResponse)
      → All (Routed w.sessions) s'.calls
      → Inv w
      → Inv (record w { server = s' })
  server-Inv w s' routed i = record {
    registered = i.registered;
    attested = i.attested;
    known = i.known;
    mapped = i.mapped;
    kept = i.kept;
    routed = routed;
  }
