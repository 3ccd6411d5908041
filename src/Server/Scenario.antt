-- ===== src/Server/Scenario.antt =====
-- A run of a server: a client connects, its report is taken, and a message is sent to it.
use bevy_simplenet.Common.{
  ℕ, ◌+◌, ◌-◌, ◌^◌, ◌<◌, arith, ◌≡◌, ◌⊎◌, refl, true, false, String, List, [], ◌∷◌, ◌++◌, Option,
  none, some,
}
use bevy_simplenet.Common.Bytes.{Bytes}
use bevy_simplenet.Common.Map.{lookup, insert}
use bevy_simplenet.Common.Result.{ok}
use bevy_simplenet.Authentication.{Authenticator}
use bevy_simplenet.Protocol.{EnvType, native, ClientMetaEvent}
use bevy_simplenet.Server.Counter.{default}
use bevy_simplenet.Server.Validation.{Element, client_elements}
use bevy_simplenet.Server.Token.{
  SessionCommand, ClientTargetMsg, ClientSourceMsg, ServerEvent, ServerReport,
}
use bevy_simplenet.Server.Connection.{
  Action, default_config, on_connect, add_client, new_session, on_call,
}
use bevy_simplenet.Server.Api.{Outside, send, next}
use bevy_simplenet.Server.Order.{at, connected_ids}
use bevy_simplenet.Server.Delivery.{World, start, Step, Reach, here, more}
use bevy_simplenet.Server.Arrival.{Reach-send}

abbrev parse : String → List Element
parse _ = client_elements "1" native

abbrev begun : World ℕ ℕ ℕ ℕ ℕ
begun = start ℕ ℕ ℕ ℕ ℕ Authenticator.none default_config

abbrev pending : World ℕ ℕ ℕ ℕ ℕ
pending = record begun {
  handler = record (begun.handler) {
    pending_counter = record { counter = 1 };
    session_counter = 1;
    session_registry = (1, 1) ∷ [];
  };
}

-- Client 3 is authenticated.
abbrev joined : World ℕ ℕ ℕ ℕ ℕ
joined = record pending { handler = add_client true 3 1 8 native pending.handler }

abbrev report : ClientSourceMsg ℕ ℕ ℕ
report = record { id = 3; msg = ServerEvent.report (ServerReport.connected native 8) }

abbrev told : World ℕ ℕ ℕ ℕ ℕ
told = record joined { server = (next (some report) joined.server).0; received = report ∷ [] }

abbrev alive : Outside
alive = record { worker_done = false; runner_done = false; accepts = true; deaths = λ _. false }

abbrev sent : World ℕ ℕ ℕ ℕ ℕ
sent = record told { server = send alive 3 5 told.server }

abbrev serialize : ClientMetaEvent ℕ ℕ → Option Bytes
serialize _ = some (9 ∷ [])

connects :
    on_connect parse (some "v=1&t=0") begun.handler
    ≡ some (
      pending.handler,
      ok (new_session {ServerMsg = ℕ} {ServerResponse = ℕ} begun.handler 1 native),
    )
unfolding on_connect start default_config bevy_simplenet.Server.Validation.extract_connection_info
    bevy_simplenet.Server.Validation.try_extract_client_env client_elements
    bevy_simplenet.Protocol.env_type_from_str bevy_simplenet.Protocol.env_type_as_str
    bevy_simplenet.Server.Counter.increment insert
connects = refl

adds :
    on_call {ServerMsg = ℕ} {ServerResponse = ℕ} serialize
      (λ _. false)
      true
      (record { id = 3; msg = SessionCommand.add 1 8 native })
      pending.handler
    ≡ some joined.handler
unfolding on_call lookup
adds = refl

reported : joined.handler.events ≡ [] ++ report ∷ []
unfolding add_client lookup start
reported = refl

counted : pending.handler.total_connections_count + 1 < 2 ^ 64
unfolding start
counted = omega arith

reached : Reach ℕ ℕ ℕ ℕ ℕ begun sent
unfolding start
reached =
    more
      (more
        (more
          (more here (
            Step.connects begun pending.handler parse (some "v=1&t=0")
              (ok (new_session begun.handler 1 native)) connects))
          (Step.adds pending joined.handler serialize (λ _. false) 3 1 8 native counted adds))
        (Step.takes joined report [] reported))
      (Step.sends told alive 3 5)

abbrev command : ClientTargetMsg ℕ ℕ ℕ
command = record { id = 3; msg = SessionCommand.send (ClientMetaEvent.msg 5) (some 1) none }

called : sent.server.calls ≡ [] ++ command ∷ []
unfolding send next start
called = refl

Reach-send_example :
    (on_call serialize (λ _. false) true command sent.handler ≡ some sent.handler)
    ⊎ (session : ℕ) × (idx : ℕ) × (bytes : Bytes) × (lookup 3 sent.handler.client_to_session
        ≡ some (session, idx))
      × (serialize (ClientMetaEvent.msg 5) ≡ some bytes)
      × (on_call serialize (λ _. false) true command sent.handler
          ≡ some (record (sent.handler) {
            actions = sent.handler.actions ++ Action.binary session bytes ∷ [];
          }))
      × (at (idx - 1) (connected_ids sent.received) ≡ some 3)
Reach-send_example =
    Reach-send ℕ ℕ ℕ ℕ ℕ Authenticator.none default_config sent [] [] serialize (λ _. false) true 3
      1 (ClientMetaEvent.msg 5) none reached called
