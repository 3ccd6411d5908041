-- ===== src/Server/Conversation.antt =====
-- A run of the server with a session: a client connects, is authenticated, asks, and is answered.
-- Then a second session of a client.
use bevy_simplenet.Common.{
  ℕ, ◌≡◌, ◌⊎◌, refl, true, false, [], ◌∷◌, ◌++◌, Option, none, some, if◌then◌else◌, ◌==◌,
}
use bevy_simplenet.Common.Bytes.{Bytes}
use bevy_simplenet.Common.Map.{lookup, insert}
use bevy_simplenet.Common.Result.{ok}
use bevy_simplenet.Authentication.{Authenticator}
use bevy_simplenet.Protocol.{native, ClientMetaEvent, ServerMetaEvent}
use bevy_simplenet.Server.Token.{SessionCommand, ClientTargetMsg, ClientSourceMsg, ServerEvent}
use bevy_simplenet.Server.Token
use bevy_simplenet.Server.Session.{SessionHandler, on_message}
use bevy_simplenet.Server.Connection.{
  Action, ConnectionHandler, default_config, add_client, on_call, on_connect,
}
use bevy_simplenet.Server.Api.{respond}
use bevy_simplenet.Server.System.{System, admits, start, Step, Reach, here, more}
use bevy_simplenet.Server.Answers.{Reach-answer}
use bevy_simplenet.Server.Duplicate.{refused, answer_misrouted}
use bevy_simplenet.Server.Examples.{
  toy, deserialize, during, session, authenticated, requested, begun, one_pending, parse, alive,
  authenticates, requests,
}

abbrev pub began : System toy ℕ ℕ ℕ ℕ ℕ
began = start toy ℕ ℕ ℕ ℕ ℕ Authenticator.none default_config

abbrev serialize : ClientMetaEvent ℕ ℕ → Option Bytes
serialize _ = some (9 ∷ [])

abbrev connected : System toy ℕ ℕ ℕ ℕ ℕ
connected = record began {
  handler = one_pending;
  sessions = insert session.id session began.sessions;
  deaths = λ b. if b == session.id then false else began.deaths b;
}

abbrev authorized : System toy ℕ ℕ ℕ ℕ ℕ
authorized = record connected { sessions = insert 1 authenticated connected.sessions }

abbrev pub joined : System toy ℕ ℕ ℕ ℕ ℕ
joined = record authorized {
  handler = add_client true 3 1 8 native one_pending;
  added =
      if admits toy ℕ ℕ ℕ ℕ ℕ authorized.handler 3 1
      then (1, 3) ∷ authorized.added
      else authorized.added;
}

abbrev asked : System toy ℕ ℕ ℕ ℕ ℕ
asked = record joined { sessions = insert 1 requested joined.sessions }

abbrev reply : ClientTargetMsg ℕ ℕ ℕ
reply = record { id = 3; msg = SessionCommand.send (ClientMetaEvent.response 5 7) none (some 1) }

abbrev answered : System toy ℕ ℕ ℕ ℕ ℕ
answered = record asked { server = record (asked.server) { calls = reply ∷ [] } }

is_there : lookup session.id connected.sessions ≡ some session
unfolding lookup insert bevy_simplenet.Server.Connection.new_session
is_there = refl

connects :
    on_connect {ServerMsg = ℕ} {ServerResponse = ℕ} parse (some "v=1&t=0") began.handler
    ≡ some (one_pending, ok session)
unfolding on_connect start default_config bevy_simplenet.Server.Validation.extract_connection_info
    bevy_simplenet.Server.Validation.try_extract_client_env
    bevy_simplenet.Server.Validation.client_elements bevy_simplenet.Protocol.env_type_from_str
    bevy_simplenet.Protocol.env_type_as_str bevy_simplenet.Server.Counter.increment insert
connects = refl

adds :
    on_call {ServerMsg = ℕ} {ServerResponse = ℕ} serialize authorized.deaths true
      (record { id = 3; msg = SessionCommand.add 1 8 native })
      authorized.handler
    ≡ some (add_client true 3 1 8 native one_pending)
unfolding on_call lookup
adds = refl

pub is_authenticated : lookup 1 authorized.sessions ≡ some authenticated
unfolding lookup insert
is_authenticated = refl

is_requested : lookup 1 asked.sessions ≡ some requested
unfolding lookup insert
is_requested = refl

responds :
    respond alive (Token.new 3 7 1 1) 5 asked.server
    ≡ some (record (asked.server) { calls = reply ∷ [] }, [])
unfolding respond Token.destination_is_dead Token.new Token.take Token.drop start
responds = refl

new : lookup 1 authorized.added ≡ none
unfolding lookup start
new = refl

pub alive_still : connected.deaths 1 ≡ false
unfolding bevy_simplenet.Server.Connection.new_session
alive_still = refl

pub joined-Reach : Reach toy ℕ ℕ ℕ ℕ ℕ began joined
unfolding bevy_simplenet.Server.Connection.new_session
joined-Reach =
    more
      (more (more here (Step.connects began one_pending parse (some "v=1&t=0") session connects)) (
        Step.receives connected session authenticated 1 deserialize during (0 ∷ []) is_there
          alive_still authenticates))
      (Step.adds authorized (add_client true 3 1 8 native one_pending) serialize true authenticated
        3 1 8 native is_authenticated refl new adds)

reached : Reach toy ℕ ℕ ℕ ℕ ℕ began answered
unfolding bevy_simplenet.Server.Connection.new_session
reached =
    more
      (more joined-Reach (
        Step.receives joined authenticated requested 1 deserialize during (1 ∷ []) is_authenticated
          alive_still requests))
      (Step.responds asked (record (asked.server) { calls = reply ∷ [] }) alive requested 1 [] []
        (record { id = 3; msg = ServerEvent.request (Token.new 3 7 1 1) 9 }) (Token.new 3 7 1 1) 9 5
        [] is_requested refl refl responds)

called : answered.server.calls ≡ [] ++ reply ∷ []
called = refl

pub admitted_before : lookup 1 joined.added ≡ some 3
unfolding lookup bevy_simplenet.Server.Runs.initial
admitted_before = refl

admitted : lookup 1 answered.added ≡ some 3
unfolding lookup bevy_simplenet.Server.Runs.initial
admitted = refl

Reach-answer_example :
    (on_call serialize answered.deaths true reply answered.handler ≡ some answered.handler)
    ⊎ (bytes : Bytes) × (serialize (ClientMetaEvent.response 5 7) ≡ some bytes)
      × (answered.deaths 1 ≡ false)
      × (lookup 1 answered.handler.session_to_client ≡ some 3)
      × (on_call serialize answered.deaths true reply answered.handler
          ≡ some (record (answered.handler) {
            actions = answered.handler.actions ++ Action.binary 1 bytes ∷ [];
          }))
Reach-answer_example =
    Reach-answer toy ℕ ℕ ℕ ℕ ℕ Authenticator.none default_config answered [] [] serialize true 3 3 1
      (ClientMetaEvent.response 5 7) reached called admitted

-- Client 3 is connected by session 1; session 2 is authenticated for it too.
abbrev held : ConnectionHandler ℕ ℕ ℕ
held = record begun {
  pending_counter = record { counter = 1 };
  connection_counter = record { counter = 1 };
  session_counter = 2;
  total_connections_count = 1;
  session_registry = (2, 2) ∷ (1, 1) ∷ [];
  client_to_session = (3, (1, 1)) ∷ [];
  session_to_client = (1, 3) ∷ [];
}

abbrev second : SessionHandler ℕ ℕ ℕ ℕ ℕ
second = record session { id = 2; client = some 3 }

abbrev misrouted : ClientTargetMsg ℕ ℕ ℕ
misrouted = record {
  id = 3;
  msg = SessionCommand.send (ClientMetaEvent.response 5 0) none (some 2);
}

is_held : lookup 3 held.client_to_session ≡ some (1, 1)
unfolding lookup
is_held = refl

answer_misrouted_example :
    (on_call serialize
        (λ _. false)
        true
        (record { id = 3; msg = SessionCommand.add 2 8 native })
        held
      ≡ some (refused held 2))
    × (on_message toy during (ServerMetaEvent.request 9 0) second
        ≡ some (record second {
          events = record { id = 3; msg = ServerEvent.request (Token.new 3 0 2 2) 9 } ∷ [];
        }))
    × (respond alive (Token.new 3 0 2 2) 5 began.server
        ≡ some (record (began.server) { calls = misrouted ∷ [] }, []))
    × (on_call serialize (λ _. false) true misrouted (refused held 2)
        ≡ some (record (refused held 2) {
          actions = (refused held 2).actions ++ Action.binary 1 (9 ∷ []) ∷ [];
        }))
unfolding lookup bevy_simplenet.Server.Api.is_dead bevy_simplenet.Server.Connection.new_session
    start
answer_misrouted_example =
    answer_misrouted toy during alive serialize true held second began.server 3 1 1 0 8 native 9 5
      (9 ∷ []) is_held refl refl refl refl refl refl refl refl
