-- ===== src/Client/Handler.antt =====
-- src/client/client_handler.rs: the callbacks of the socket. Each runs within the lock of the
-- tracker, so each is one step. `bincode` is the pair of functions `serialize`, `deserialize`.
use bevy_simplenet.Common.{ℕ, Bool, true, false, List, [], ◌∷◌, Option, none, some, if◌then◌else◌}
use bevy_simplenet.Common.Bytes.{Bytes}
use bevy_simplenet.Common.Frames.{CloseFrame}
use bevy_simplenet.Authentication.{AuthRequest, is_expired}
use bevy_simplenet.Protocol.{ClientMetaEvent}
use bevy_simplenet.Client.Signal.{RequestSignal, RequestStatus}
use bevy_simplenet.Client.Signal
use bevy_simplenet.Client.Tracker
use bevy_simplenet.Client.State.{
  ClientReport, ClientEvent, ClientError, Result, ok, err, ClientCloseMode, ClientConfig,
  ClientState, Outside, send_event, count_disconnect, send_binary,
}

-- The token of the request, if it has one, is expired.
unfoldable pub token_is_expired : ℕ → AuthRequest → Bool
token_is_expired now (AuthRequest.token t) = is_expired now t
token_is_expired now _ = false

abbrev close_mode : Bool → ClientCloseMode
close_mode true = ClientCloseMode.reconnect
close_mode false = ClientCloseMode.close

-- The end of the callbacks that lose a connection.
unfoldable pub choose_close_mode : ℕ → AuthRequest → Bool → ClientCloseMode
unfolding token_is_expired
choose_close_mode now auth reconnects =
    if token_is_expired now auth then ClientCloseMode.close else close_mode reconnects

module _ {ServerMsg ServerResponse : Type 0} where
  -- The event for a drained request, by its status; none is sent for an unexpected status.
  unfoldable pub failure_event : RequestStatus → ℕ → Option (ClientEvent ServerMsg ServerResponse)
  failure_event RequestStatus.send_failed id = some (ClientEvent.send_failed id)
  failure_event RequestStatus.response_lost id = some (ClientEvent.response_lost id)
  failure_event _ id = none

  -- Sends one event and goes on whether or not that succeeds.
  unfoldable pub try_send :
      Outside ServerMsg ServerResponse
      → Option (ClientEvent ServerMsg ServerResponse)
      → ClientState ServerMsg ServerResponse
      → ClientState ServerMsg ServerResponse
  try_send o none s = s
  try_send o (some event) s = (send_event o event s).0

  -- The loop of `clean_pending_requests`. The statuses are read after the drain.
  unfoldable pub clean_loop :
      Outside ServerMsg ServerResponse
      → List RequestSignal
      → ClientState ServerMsg ServerResponse
      → ClientState ServerMsg ServerResponse
  clean_loop o [] s = s
  clean_loop o (r ∷ rs) s =
      clean_loop o rs
        (try_send o (failure_event (Signal.status o.statuses_later s.cells r) r.request_id) s)

  unfoldable pub clean_pending_requests :
      Outside ServerMsg ServerResponse
      → ClientState ServerMsg ServerResponse
      → ClientState ServerMsg ServerResponse
  clean_pending_requests o s =
      let (tracker, cells, drained) = Tracker.drain_failed_requests o.statuses s.tracker s.cells in
      clean_loop o drained (record s { tracker = tracker; cells = cells })

  -- `aborted_reqs.push(id)` for a request without a failure event.
  abbrev pub abort_unless : Option (ClientEvent ServerMsg ServerResponse) → ℕ → List ℕ → List ℕ
  abort_unless none id aborted = id ∷ aborted
  abort_unless (some _) id aborted = aborted

  -- The loop of `final_request_cleanup`, with the ids that it aborts.
  unfoldable pub final_loop :
      Outside ServerMsg ServerResponse
      → List RequestSignal
      → ClientState ServerMsg ServerResponse
      → ClientState ServerMsg ServerResponse × List ℕ
  final_loop o [] s = (s, [])
  final_loop o (r ∷ rs) s =
      let event = failure_event (Signal.status o.statuses_later s.cells r) r.request_id in
      let (s', aborted) = final_loop o rs (try_send o event s) in
      (s', abort_unless event r.request_id aborted)

  unfoldable pub final_request_cleanup :
      Outside ServerMsg ServerResponse
      → ClientState ServerMsg ServerResponse
      → ClientState ServerMsg ServerResponse × List ℕ
  final_request_cleanup o s =
      let (tracker, cells, drained) = Tracker.abort_all s.tracker s.cells in
      final_loop o drained (record s { tracker = tracker; cells = cells })

  -- The loop over aborted sends in `on_connect`, which stops where a send fails.
  unfoldable pub fail_aborted :
      Outside ServerMsg ServerResponse
      → List ℕ
      → ClientState ServerMsg ServerResponse
      → ClientState ServerMsg ServerResponse × Bool
  fail_aborted o [] s = (s, true)
  fail_aborted o (id ∷ ids) s =
      let (s', sent) = send_event o (ClientEvent.send_failed id) s in
      let rest = fail_aborted o ids s' in if sent then rest else (s', false)

  -- The last send of a callback decides its result.
  unfoldable pub send_or_fail {ℓ} :
      {A : Type ℓ}
      → Outside ServerMsg ServerResponse
      → ClientEvent ServerMsg ServerResponse
      → A
      → ClientState ServerMsg ServerResponse
      → ClientState ServerMsg ServerResponse × Result A
  send_or_fail o event a s =
      let (s', sent) = send_event o event s in
      (s', if sent then ok a else err ClientError.send_error)

  -- The first message of a connection, once the requests of the one before are settled.
  unfoldable pub send_authentication :
      Outside ServerMsg ServerResponse
      → Option Bytes
      → ClientState ServerMsg ServerResponse
      → ClientState ServerMsg ServerResponse × Result (Unit {0})
  send_authentication o none s = (s, err ClientError.send_error)
  send_authentication o (some ser_msg) s =
      send_or_fail o (ClientEvent.report ClientReport.connected) tt (send_binary o ser_msg s).0

  -- `on_connect`, with the serialized authentication, `none` where serializing fails.
  unfoldable pub on_connect :
      Outside ServerMsg ServerResponse
      → Option Bytes
      → ClientState ServerMsg ServerResponse
      → ClientState ServerMsg ServerResponse × Result (Unit {0})
  unfolding send_authentication
  on_connect o auth s =
      if s.poisoned
      then (s, ok tt)
      else (let (s₁, aborted) = final_request_cleanup o s in
          let (s₂, sent) = fail_aborted o aborted s₁ in
          if sent then send_authentication o auth s₂ else (s₂, err ClientError.send_error))

  unfoldable pub on_connect_fail :
      ClientConfig
      → AuthRequest
      → Outside ServerMsg ServerResponse
      → ClientState ServerMsg ServerResponse
      → ClientState ServerMsg ServerResponse × Result ClientCloseMode
  on_connect_fail config auth o s = if s.poisoned then (s, ok ClientCloseMode.close) else (
    clean_pending_requests o s,
    ok (choose_close_mode o.now auth config.reconnect_on_disconnect),
  )

  -- The common body of `on_disconnect` and `on_close`, which differ in the report and in the flag.
  unfoldable pub lose_connection :
      ClientReport
      → Bool
      → AuthRequest
      → Outside ServerMsg ServerResponse
      → ClientState ServerMsg ServerResponse
      → ClientState ServerMsg ServerResponse × Result ClientCloseMode
  lose_connection report reconnects auth o s =
      if s.poisoned
      then (s, ok ClientCloseMode.close)
      else (let (s', sent) = send_event o (ClientEvent.report report) (count_disconnect s) in
          if sent
          then (clean_pending_requests o s', ok (choose_close_mode o.now auth reconnects))
          else (s', err ClientError.send_error))

  unfoldable pub on_disconnect :
      ClientConfig
      → AuthRequest
      → Outside ServerMsg ServerResponse
      → ClientState ServerMsg ServerResponse
      → ClientState ServerMsg ServerResponse × Result ClientCloseMode
  unfolding lose_connection
  on_disconnect config auth o s =
      lose_connection ClientReport.disconnected config.reconnect_on_disconnect auth o s

  unfoldable pub on_close :
      ClientConfig
      → AuthRequest
      → Option CloseFrame
      → Outside ServerMsg ServerResponse
      → ClientState ServerMsg ServerResponse
      → ClientState ServerMsg ServerResponse × Result ClientCloseMode
  unfolding lose_connection
  on_close config auth frame o s =
      lose_connection (ClientReport.closed_by_server frame) config.reconnect_on_server_close auth o
        s

  -- A reply to a request: the request is settled, or the reply is ignored. `none` is a panic.
  unfoldable pub settle :
      Outside ServerMsg ServerResponse
      → ℕ
      → RequestStatus
      → ClientEvent ServerMsg ServerResponse
      → ClientState ServerMsg ServerResponse
      → Option (ClientState ServerMsg ServerResponse × Result (Unit {0}))
  settle o id st event s =
      if s.poisoned
      then some (s, ok tt)
      else elim (Tracker.set_status_and_remove s.tracker s.cells id st) [
        | none ↦ none
        | some (tracker, cells, true) ↦
            some (send_or_fail o event tt (record s { tracker = tracker; cells = cells }))
        | some (tracker, cells, false) ↦ some (record s { tracker = tracker; cells = cells }, ok tt)
      ]

  -- `on_binary` behind the deserialization, whose failure is `none` in the argument.
  unfoldable pub on_binary :
      Outside ServerMsg ServerResponse
      → Option (ClientMetaEvent ServerMsg ServerResponse)
      → ClientState ServerMsg ServerResponse
      → Option (ClientState ServerMsg ServerResponse × Result (Unit {0}))
  unfolding settle
  on_binary o none s = some (s, ok tt)
  on_binary o (some (ClientMetaEvent.msg m)) s = some (send_or_fail o (ClientEvent.msg m) tt s)
  on_binary o (some (ClientMetaEvent.response r id)) s =
      settle o id RequestStatus.responded (ClientEvent.response r id) s
  on_binary o (some (ClientMetaEvent.ack id)) s =
      settle o id RequestStatus.acknowledged (ClientEvent.ack id) s
  on_binary o (some (ClientMetaEvent.reject id)) s =
      settle o id RequestStatus.rejected (ClientEvent.reject id) s

  -- `Drop` of the handler.
  unfoldable pub drop :
      Outside ServerMsg ServerResponse
      → ClientState ServerMsg ServerResponse
      → ClientState ServerMsg ServerResponse
  drop o s =
      if s.poisoned
      then s
      else (let (s₁, aborted) = final_request_cleanup o s in
          let s₂ =
            count_disconnect
              (try_send o (some (ClientEvent.report (ClientReport.is_dead aborted))) s₁) in
          record s₂ { client_closed_signal = true })
