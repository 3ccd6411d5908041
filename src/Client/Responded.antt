-- ===== src/Client/Responded.antt =====
-- A request of src/client/client.rs that is answered: from the request on, in any run, until the
-- response comes in.
use bevy_simplenet.Common.{
  ℕ, ◌+◌, ◌%◌, ◌^◌, ◌<◌, ◌≤◌, ◌≡◌, refl, false, List, [], ◌∷◌, ◌++◌, Option, some, arith,
  Option-cases, inl, inr,
}
use bevy_simplenet.Common.Bytes.{Bytes}
use bevy_simplenet.Common.Map.{lookup, remove, lookup-count}
use bevy_simplenet.Protocol.{ClientMetaEvent}
use bevy_simplenet.Client.Signal.{
  RequestSignal, RequestStatus, MessageStatus, Snapshot, message_status, write,
}
use bevy_simplenet.Client.Signal
use bevy_simplenet.Client.Tracker.{set_status_and_remove}
use bevy_simplenet.Client.State.{ClientReport, ClientEvent, ClientState, Outside, ok}
use bevy_simplenet.Client.Handler.{on_connect, on_disconnect, on_close, on_binary}
use bevy_simplenet.Client.Handler
use bevy_simplenet.Client.Api.{request, next, mark_closed}
use bevy_simplenet.Client.Settle.{Accepts, settles, results, send_event-Accepts}
use bevy_simplenet.Client.Effect.{pending}
use bevy_simplenet.Client.Callbacks.{
  on_connect-Effect, on_connect_fail-Effect, lose_connection-Effect,
}
use bevy_simplenet.Client.Operations.{on_binary-Effect, drop-Effect}
use bevy_simplenet.Client.Calls.{send-outbox, request-eq, report_close-eq}
use bevy_simplenet.Client.Run.{World, Step, Runs, Reach, here, more, online}
use bevy_simplenet.Client.Invariant.{Inv, Inv-IsMap, Step-Inv, Reach-Inv}
use bevy_simplenet.Client.Told.{verdict, outcome}
use bevy_simplenet.Client.Status.{request-signal, Reach-Agrees, Reach-status}

module _ {ServerMsg ServerResponse : Type 0} where
  next-tracker :
      (e : ClientEvent ServerMsg ServerResponse) (s : ClientState ServerMsg ServerResponse)
      → (next (some e) s).0.tracker ≡ s.tracker
  unfolding next
  next-tracker (ClientEvent.report ClientReport.connected) s = refl
  next-tracker e s = refl

  -- No id is given out twice: the counter of ids only grows.
  Step-grown :
      {w u : World ServerMsg ServerResponse}
      → Step w u
      → Inv w
      → w.state.tracker.request_counter ≤ u.state.tracker.request_counter
  unfolding on_disconnect on_close mark_closed
  Step-grown (Step.connects w o auth p h) v =
      let (es, e) = on_connect-Effect o auth w.state v.live h v.keyed in e.grown
  Step-grown (Step.fails_connecting w config auth o p h t) v =
      let (es, e) = on_connect_fail-Effect config auth o w.state v.live h t v.keyed in e.grown
  Step-grown (Step.disconnects w config auth o p h t) v =
      let (es, e) =
        lose_connection-Effect ClientReport.disconnected config.reconnect_on_disconnect auth o
          w.state refl (λ k. refl) v.live h t v.keyed in
      e.grown
  Step-grown (Step.server_closes w config auth frame o p h t) v =
      let (es, e) =
        lose_connection-Effect (ClientReport.closed_by_server frame)
          config.reconnect_on_server_close auth o w.state refl (λ k. refl) v.live h t v.keyed in
      e.grown
  Step-grown (Step.receives w o m s r p h e) v =
      let (es, eff) = on_binary-Effect o m w.state s r v.live h v.keyed (Inv-IsMap w v) e in
      eff.grown
  Step-grown (Step.dies w o p h) v = let (es, e) = drop-Effect o w.state v.live h v.keyed in e.grown
  Step-grown (Step.sends w o b) v = let (out, e) = send-outbox o b w.state in rw e (omega arith)
  Step-grown (Step.requests w o serialize small) v =
      let (out, m, e) = request-eq o serialize w.state v.live in rw e (omega arith)
  Step-grown (Step.begins_closing w c) v = omega arith
  Step-grown (Step.asks_to_close w o n c t) v = omega arith
  Step-grown (Step.fails_to_close w o n c t) v = omega arith
  Step-grown (Step.reports_close w o n c h) v = rw (report_close-eq o w.state h) (omega arith)
  Step-grown (Step.marks_closed w n c) v = omega arith
  Step-grown (Step.takes w e rest q) v = rw (next-tracker e w.state) (omega arith)

  Runs-grown :
      {w u : World ServerMsg ServerResponse}
      → Runs w u
      → Inv w
      → Inv u × (w.state.tracker.request_counter ≤ u.state.tracker.request_counter)
  Runs-grown here v = (v, omega arith)
  Runs-grown (more r st) v =
      let (inv, le) = Runs-grown r v in
      let one = Step-grown st inv in (Step-Inv st inv, omega arith)

  -- The response to a request that is pending is reported.
  on_binary-response :
      (o : Outside ServerMsg ServerResponse) (id : ℕ) (x : ServerResponse)
      (s : ClientState ServerMsg ServerResponse)
      → s.poisoned ≡ false
      → Accepts o
      → pending s id ≡ 1
      → (s' : ClientState ServerMsg ServerResponse) × (on_binary o
            (some (ClientMetaEvent.response x id))
            s
          ≡ some (s', ok tt))
        × (s'.sent ≡ s.sent ++ ClientEvent.response x id ∷ [])
  unfolding on_binary Handler.settle set_status_and_remove Handler.send_or_fail Signal.set
  on_binary-response o id x s live h one =
      elim (Option-cases (lookup id s.tracker.pending_requests)) [
        | inl gone ↦ absurd (ground (arith, lookup-count id s.tracker.pending_requests))
        | inr (signal, there) ↦
            let taken : ClientState ServerMsg ServerResponse = record s {
              tracker = record (s.tracker) {
                pending_requests = remove id s.tracker.pending_requests;
              };
              cells = write s.cells signal.request_signal 1;
            } in
            let told = send_event-Accepts o (ClientEvent.response x id) taken h in
            (record taken { sent = s.sent ++ ClientEvent.response x id ∷ [] }, ground arith, refl)
      ]

  -- The first event about a request decides.
  verdict-snoc :
      (id : ℕ) (es : List (ClientEvent ServerMsg ServerResponse))
      (e : ClientEvent ServerMsg ServerResponse)
      → results id es ≡ 0
      → settles id e ≡ 1
      → verdict id (es ++ e ∷ []) ≡ outcome e
  verdict-snoc id [] e h one = ground arith
  verdict-snoc id (f ∷ es) e h one = ground (arith, verdict-snoc id es e)

  -- A request of a reached client, and any run after it in which nothing settles the request: if
  -- the client is connected then, the response is reported, and the signal that was returned for
  -- the request says that it is responded, once its message is sent.
  pub Reach-responded :
      {w u : World ServerMsg ServerResponse} (o o' : Outside ServerMsg ServerResponse)
      (serialize : ℕ → Option Bytes) (now : Snapshot) (x : ServerResponse)
      → Reach w
      → w.state.tracker.request_counter + 1 < 2 ^ 64
      → Runs (record w { state = (request o serialize w.state).0 }) u
      → u.phase ≡ online
      → results w.state.tracker.request_counter u.state.sent ≡ 0
      → Accepts o'
      → message_status now (request o serialize w.state).1.message_signal ≡ MessageStatus.sent
      → let id = w.state.tracker.request_counter in
        (s' : ClientState ServerMsg ServerResponse) × (on_binary o'
            (some (ClientMetaEvent.response x id))
            u.state
          ≡ some (s', ok tt))
        × (s'.sent ≡ u.state.sent ++ ClientEvent.response x id ∷ [])
        × (Signal.status now s'.cells (request o serialize w.state).1 ≡ RequestStatus.responded)
  Reach-responded {w} {u} o o' serialize now x r small run up unsettled h arrived =
      let id = w.state.tracker.request_counter in
      let v = Reach-Inv r in
      let first = Step.requests w o serialize small in
      let (out, m, made) = request-eq o serialize w.state v.live in
      let (inv, grown) = Runs-grown run (Step-Inv first v) in
      let counted : (id + 1) % 2 ^ 64 ≤ u.state.tracker.request_counter = rw made at grown in
      let given : id < u.state.tracker.request_counter = omega arith in
      let (s', e, log) =
        on_binary-response o' id x u.state inv.live h (let one = inv.settled id in ground arith) in
      let says =
        Reach-status r o serialize _ _ now small refl (
          more run (Step.receives u o' (some (ClientMetaEvent.response x id)) s' (ok tt) up h e)) in
      let (named, cell) = request-signal o serialize w.state v.live (Reach-Agrees r) in
      (
        s',
        e,
        log,
        rw
            (
              arrived,
              named,
              log,
              verdict-snoc id u.state.sent (ClientEvent.response x id) unsettled (ground arith),
            )
            at says,
      )
