-- ===== src/Conversation/Examples.antt =====
-- A client that asks 7 and is answered 9.
use bevy_simplenet.Common.{
  ℕ, ◌+◌, ◌^◌, ◌<◌, ◌≡◌, refl, subst, true, ◌≤◌, [], ◌∷◌, ◌++◌, Option, none, some, some_inj, arith,
}
use bevy_simplenet.Common.Codec.{Codec}
use bevy_simplenet.RateLimiter.{try_count_msg}
use bevy_simplenet.Authentication.{Authenticator}
use bevy_simplenet.Common.Bytes.{Bytes}
use bevy_simplenet.Protocol.{ServerMetaEvent, ClientMetaEvent}
use bevy_simplenet.Client.Signal.{RequestStatus, MessageStatus, Snapshot, message_status}
use bevy_simplenet.Client.Signal
use bevy_simplenet.Client.State.{ClientEvent, ClientState, ok}
use bevy_simplenet.Client.Api.{request}
use bevy_simplenet.Client.Handler
use bevy_simplenet.Client.Settle.{results}
use bevy_simplenet.Client.Run.{World, Runs, online}
use bevy_simplenet.Client.Examples.{fine, aware_world, aware_connected, aware_Reach}
use bevy_simplenet.Server.Token
use bevy_simplenet.Server.Session.{on_binary}
use bevy_simplenet.Server.Api.{respond}
use bevy_simplenet.Server.Connection.{new_session, default_config, on_call}
use bevy_simplenet.Server.System
use bevy_simplenet.Server.Served
use bevy_simplenet.Server.Examples.{alive, during, toy, authenticated}
use bevy_simplenet.Server.Conversation.{
  joined, joined-Reach, is_authenticated, alive_still, admitted_before,
}
use bevy_simplenet.Conversation.{ask, request_answered}

abbrev write_request : ServerMetaEvent ℕ ℕ ℕ → Option Bytes
write_request (ServerMetaEvent.request q id) = some (q ∷ id ∷ [])
write_request _ = none

abbrev read_request : Bytes → Option (ServerMetaEvent ℕ ℕ ℕ)
read_request (q ∷ id ∷ []) = some (ServerMetaEvent.request q id)
read_request _ = none

reads_request :
    (e : ServerMetaEvent ℕ ℕ ℕ) (bytes : Bytes)
    → write_request e ≡ some bytes
    → read_request bytes ≡ some e
reads_request (ServerMetaEvent.request q id) bytes h =
    subst (λ (b : Bytes). read_request b ≡ some (ServerMetaEvent.request q id)) (some_inj h) refl
reads_request (ServerMetaEvent.msg m) bytes h = absurd (ground (arith, h))
reads_request (ServerMetaEvent.authenticate m) bytes h = absurd (ground (arith, h))

abbrev write_response : ClientMetaEvent ℕ ℕ → Option Bytes
write_response (ClientMetaEvent.response x id) = some (x ∷ id ∷ [])
write_response _ = none

abbrev read_response : Bytes → Option (ClientMetaEvent ℕ ℕ)
read_response (x ∷ id ∷ []) = some (ClientMetaEvent.response x id)
read_response _ = none

reads_response :
    (e : ClientMetaEvent ℕ ℕ) (bytes : Bytes)
    → write_response e ≡ some bytes
    → read_response bytes ≡ some e
reads_response (ClientMetaEvent.response x id) bytes h =
    subst (λ (b : Bytes). read_response b ≡ some (ClientMetaEvent.response x id)) (some_inj h) refl
reads_response (ClientMetaEvent.msg m) bytes h = absurd (ground (arith, h))
reads_response (ClientMetaEvent.ack id) bytes h = absurd (ground (arith, h))
reads_response (ClientMetaEvent.reject id) bytes h = absurd (ground (arith, h))

abbrev to_server : Codec (ServerMetaEvent ℕ ℕ ℕ)
to_server = record { serialize = write_request; deserialize = read_request; same = reads_request }

abbrev to_client : Codec (ClientMetaEvent ℕ ℕ)
to_client = record {
  serialize = write_response;
  deserialize = read_response;
  same = reads_response;
}

-- The id that the request takes.
abbrev id : ℕ
id = aware_world.state.tracker.request_counter

abbrev asked : ClientState ℕ ℕ × Signal.RequestSignal
asked = ask toy to_server to_client fine 7 aware_world.state

abbrev asked_aware : World ℕ ℕ
asked_aware = record aware_world { state = asked.0 }

asked_sent : message_status (λ _. MessageStatus.sent) asked.1.message_signal ≡ MessageStatus.sent
unfolding request bevy_simplenet.Client.Api.next Handler.on_connect
    bevy_simplenet.Client.State.initial Handler.fail_aborted Handler.final_request_cleanup
    Handler.final_loop bevy_simplenet.Client.Tracker.abort_all
    bevy_simplenet.Client.Tracker.abort_loop bevy_simplenet.Client.Tracker.default
    Handler.send_or_fail bevy_simplenet.Client.State.send_event
    bevy_simplenet.Client.State.send_binary bevy_simplenet.Client.Tracker.add_request Signal.new
    bevy_simplenet.Client.Api.is_connected
asked_sent = refl

within_rate : (try_count_msg authenticated.rate_limit_tracker 0).1 ≡ true
unfolding try_count_msg new_session bevy_simplenet.RateLimiter.new
    bevy_simplenet.Server.Runs.initial bevy_simplenet.Server.Connection.default_config
    bevy_simplenet.RateLimiter.default_config
within_rate = refl

within_size : 2 ≤ authenticated.max_msg_size
unfolding new_session bevy_simplenet.Server.Runs.initial
    bevy_simplenet.Server.Connection.default_config
within_size = omega arith

aware_id : id ≡ 0
unfolding bevy_simplenet.Client.Api.next Handler.on_connect bevy_simplenet.Client.State.initial
    Handler.fail_aborted Handler.final_request_cleanup Handler.final_loop
    bevy_simplenet.Client.Tracker.abort_all bevy_simplenet.Client.Tracker.abort_loop
    bevy_simplenet.Client.Tracker.default Handler.send_or_fail
    bevy_simplenet.Client.State.send_event bevy_simplenet.Client.State.send_binary
aware_id = refl

small_id : id + 1 < 2 ^ 64
small_id = rw aware_id (omega arith)

unsettled : results id asked_aware.state.sent ≡ 0
unfolding request bevy_simplenet.Client.Api.next Handler.on_connect
    bevy_simplenet.Client.State.initial Handler.fail_aborted Handler.final_request_cleanup
    Handler.final_loop bevy_simplenet.Client.Tracker.abort_all
    bevy_simplenet.Client.Tracker.abort_loop bevy_simplenet.Client.Tracker.default
    Handler.send_or_fail bevy_simplenet.Client.State.send_event
    bevy_simplenet.Client.State.send_binary bevy_simplenet.Client.Api.is_connected
unsettled = refl

asked_online : asked_aware.phase ≡ online
unfolding Handler.on_connect bevy_simplenet.Client.State.initial Handler.fail_aborted
    Handler.final_request_cleanup Handler.final_loop bevy_simplenet.Client.Tracker.abort_all
    bevy_simplenet.Client.Tracker.abort_loop bevy_simplenet.Client.Tracker.default
    Handler.send_or_fail bevy_simplenet.Client.State.send_event
asked_online = refl

request_answered_example :
    let b_asked = Served.asked toy to_server to_client during authenticated 3 id 1 7 joined in
    let b_answered = Served.answered toy to_server to_client 3 id 1 9 b_asked in
    let Steps = System.Step toy ℕ ℕ ℕ ℕ ℕ in
    (asked.0.outbox ≡ aware_world.state.outbox ++ (7 ∷ id ∷ []) ∷ [])
    × (on_binary toy read_request during (7 ∷ id ∷ []) authenticated
        ≡ some (Served.forwarded toy to_server to_client during authenticated 3 id 1 7))
    × Steps joined b_asked
    × (respond alive (Token.new 3 id 1 1) 9 joined.server ≡ some (b_answered.server, []))
    × Steps b_asked b_answered
    × (on_call write_response joined.deaths true
          (Served.reply toy to_server to_client 3 id 1 9)
          joined.handler
        ≡ some (Served.delivered toy to_server to_client 1 (9 ∷ id ∷ []) b_answered).handler)
    × Steps b_answered (Served.delivered toy to_server to_client 1 (9 ∷ id ∷ []) b_answered)
    × ((t : ClientState ℕ ℕ) × (Handler.on_binary fine
            (read_response (9 ∷ id ∷ []))
            asked_aware.state
          ≡ some (t, ok tt))
        × (t.sent ≡ asked_aware.state.sent ++ ClientEvent.response 9 id ∷ [])
        × (Signal.status (λ _. MessageStatus.sent) t.cells asked.1 ≡ RequestStatus.responded))
unfolding bevy_simplenet.Server.Api.is_dead
request_answered_example =
    request_answered toy to_server to_client Authenticator.none default_config joined
      (Served.asked toy to_server to_client during authenticated 3 id 1 7 joined)
      (Served.answered toy to_server to_client 3 id 1 9
        (Served.asked toy to_server to_client during authenticated 3 id 1 7 joined))
      fine fine 0 (λ _. MessageStatus.sent) authenticated during alive true 3 1 7 9 (7 ∷ id ∷ [])
      (9 ∷ id ∷ []) aware_Reach small_id aware_connected refl refl joined-Reach is_authenticated
      admitted_before alive_still within_rate within_size refl System.Reach.here refl refl refl
      System.Reach.here alive_still refl Runs.here asked_online unsettled (λ _. refl) asked_sent
