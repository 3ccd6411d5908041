-- ===== src/Client/Callbacks.antt =====
-- The effect of the callbacks of src/client/client_handler.rs and of the operations of
-- src/client/client.rs, while the event channel accepts events and the mutex is not poisoned.
use bevy_simplenet.Common.{
  ℕ, ◌≡◌, refl, sym, subst, Bool, false, List, [], ◌∷◌, ◌++◌, map, Option, none, some, arith, count,
  append-nil, append_assoc, Option-cases, inl, inr,
}
use bevy_simplenet.Common.Bytes.{Bytes}
use bevy_simplenet.Authentication.{AuthRequest}
use bevy_simplenet.Client.Tracker.{abort_loop}
use bevy_simplenet.Client.State.{
  ClientReport, ClientEvent, ClientConfig, ClientState, Outside, Result, ok, err, count_disconnect,
  send_binary,
}
use bevy_simplenet.Client.Handler.{
  clean_pending_requests, final_request_cleanup, send_authentication, send_or_fail, on_connect,
  on_connect_fail, lose_connection,
}
use bevy_simplenet.Client.Settle.{
  Keyed, failures, unfailed, settles, results, results-append, Accepts, logged, send_event-Accepts,
  fail_aborted-Accepts,
}
use bevy_simplenet.Client.Drain.{Terminal, abort_loop-count, failures-unfailed}
use bevy_simplenet.Client.Effect.{
  connects, connects-append, Effect, Effect-trans, logged-Effect, failures-connects, clean-Effect,
  final-eq,
}

-- 1 where a callback succeeds.
abbrev pub successes {ℓ} : {A : Type ℓ} → Result A → ℕ
successes (ok _) = 1
successes (err _) = 0

map_send_failed-results :
    (ServerMsg ServerResponse : Type 0) (k : ℕ) (dead : List ℕ)
    → results {ServerMsg = ServerMsg} {ServerResponse = ServerResponse} k
        (map ClientEvent.send_failed dead)
      ≡ count k dead
map_send_failed-results ServerMsg ServerResponse k [] = refl
map_send_failed-results ServerMsg ServerResponse k (i ∷ dead) =
    omega (arith, map_send_failed-results ServerMsg ServerResponse k dead)

map_send_failed-connects :
    (ServerMsg ServerResponse : Type 0) (dead : List ℕ)
    → connects {ServerMsg = ServerMsg} {ServerResponse = ServerResponse}
        (map ClientEvent.send_failed dead)
      ≡ 0
map_send_failed-connects ServerMsg ServerResponse [] = refl
map_send_failed-connects ServerMsg ServerResponse (i ∷ dead) =
    map_send_failed-connects ServerMsg ServerResponse dead

module _ {ServerMsg ServerResponse : Type 0} where
  pub same-Effect :
      (s : ClientState ServerMsg ServerResponse) (out : List Bytes)
      → Keyed s.tracker.pending_requests
      → Effect s (record s { outbox = out }) [] 0 0
  same-Effect s out h = record {
    poison_same = refl;
    log = sym (append-nil s.sent);
    connected = refl;
    counted = omega arith;
    grown = omega arith;
    keyed = h;
    settled = λ k. omega arith;
  }

  pub on_connect_fail-Effect :
      (config : ClientConfig) (auth : AuthRequest) (o : Outside ServerMsg ServerResponse)
      (s : ClientState ServerMsg ServerResponse)
      → s.poisoned ≡ false
      → Accepts o
      → Terminal o.statuses o.statuses_later
      → Keyed s.tracker.pending_requests
      → (es : List (ClientEvent ServerMsg ServerResponse)) × Effect s
          (on_connect_fail config auth o s).0
          es
          0
          0
  unfolding on_connect_fail
  on_connect_fail-Effect config auth o s p h t keyed =
      let (es, e) = clean-Effect o s h t keyed in
      let same : (on_connect_fail config auth o s).0 ≡ clean_pending_requests o s = ground arith in
      (es, subst (λ (u : ClientState ServerMsg ServerResponse). Effect s u es 0 0) (sym same) e)

  pub count_disconnect-Effect :
      (s : ClientState ServerMsg ServerResponse)
      → Keyed s.tracker.pending_requests
      → Effect s (count_disconnect s) [] 0 1
  unfolding count_disconnect
  count_disconnect-Effect s h = record {
    poison_same = refl;
    log = sym (append-nil s.sent);
    connected = refl;
    counted = omega arith;
    grown = omega arith;
    keyed = h;
    settled = λ k. omega arith;
  }

  -- Both reports of a lost connection are no reports of a connection.
  pub lose_connection-Effect :
      (report : ClientReport) (reconnects : Bool) (auth : AuthRequest)
      (o : Outside ServerMsg ServerResponse) (s : ClientState ServerMsg ServerResponse)
      → connects {ServerMsg = ServerMsg} {ServerResponse = ServerResponse}
          (ClientEvent.report report ∷ [])
        ≡ 0
      → ((k : ℕ)
          → settles {ServerMsg = ServerMsg} {ServerResponse = ServerResponse} k
              (ClientEvent.report report)
            ≡ 0)
      → s.poisoned ≡ false
      → Accepts o
      → Terminal o.statuses o.statuses_later
      → Keyed s.tracker.pending_requests
      → (es : List (ClientEvent ServerMsg ServerResponse)) × Effect s
          (lose_connection report reconnects auth o s).0
          es
          0
          1
  unfolding lose_connection
  lose_connection-Effect report reconnects auth o s n z p h t keyed =
      let counted = count_disconnect s in
      let told = logged counted (ClientEvent.report report ∷ []) in
      let e = count_disconnect-Effect s keyed in
      let f = logged-Effect counted (ClientEvent.report report) 0 e.keyed n z in
      let (es, g) = clean-Effect o told h t e.keyed in
      let accepted = send_event-Accepts o (ClientEvent.report report) counted h in
      let same : (lose_connection report reconnects auth o s).0 ≡ clean_pending_requests o told =
        ground arith in
      (
        (ClientEvent.report report ∷ []) ++ es,
        subst
            (λ (u : ClientState ServerMsg ServerResponse).
              Effect s u (ClientEvent.report report ∷ es) 0 1)
            (sym same)
            (Effect-trans s counted (clean_pending_requests o told) []
              (ClientEvent.report report ∷ es) 0 1 0 0 e
              (Effect-trans counted told (clean_pending_requests o told)
                (ClientEvent.report report ∷ []) es 0 0 0 0 f g)),
      )

  -- The state of `on_connect` once the old requests are settled.
  abbrev pub settled_all :
      Outside ServerMsg ServerResponse
      → ClientState ServerMsg ServerResponse
      → ClientState ServerMsg ServerResponse
  settled_all o s =
      let drained = abort_loop s.cells s.tracker.pending_requests in
      record s {
        tracker = record (s.tracker) { pending_requests = [] };
        cells = drained.0;
        sent =
            (s.sent ++ failures o.statuses_later drained.0 drained.1)
            ++ map ClientEvent.send_failed (unfailed o.statuses_later drained.0 drained.1);
      }

  abbrev settled_events :
      Outside ServerMsg ServerResponse
      → ClientState ServerMsg ServerResponse
      → List (ClientEvent ServerMsg ServerResponse)
  settled_events o s =
      let drained = abort_loop s.cells s.tracker.pending_requests in
      failures o.statuses_later drained.0 drained.1
      ++ map ClientEvent.send_failed (unfailed o.statuses_later drained.0 drained.1)

  settled_all-Effect :
      (o : Outside ServerMsg ServerResponse) (s : ClientState ServerMsg ServerResponse)
      → Keyed s.tracker.pending_requests
      → Effect s (settled_all o s) (settled_events o s) 0 0
  settled_all-Effect o s keyed =
      let drained = abort_loop s.cells s.tracker.pending_requests in
      let lost = unfailed o.statuses_later drained.0 drained.1 in
      let told =
        failures {ServerMsg = ServerMsg} {ServerResponse = ServerResponse} o.statuses_later
          drained.0 drained.1 in
      record {
        poison_same = refl;
        log = append_assoc s.sent told (map ClientEvent.send_failed lost);
        connected = omega (
          arith,
          connects-append told (map ClientEvent.send_failed lost),
          failures-connects ServerMsg ServerResponse o.statuses_later drained.0 drained.1,
          map_send_failed-connects ServerMsg ServerResponse lost,
        );
        counted = omega arith;
        grown = omega arith;
        keyed = tt;
        settled = λ k. omega (
          arith,
          results-append k told (map ClientEvent.send_failed lost),
          map_send_failed-results ServerMsg ServerResponse k lost,
          failures-unfailed ServerMsg ServerResponse k o.statuses_later drained.0 drained.1,
          abort_loop-count s.cells s.tracker.pending_requests k keyed,
        );
      }

  pub on_connect-eq :
      (o : Outside ServerMsg ServerResponse) (auth : Option Bytes)
      (s : ClientState ServerMsg ServerResponse)
      → s.poisoned ≡ false
      → Accepts o
      → on_connect o auth s ≡ send_authentication o auth (settled_all o s)
  unfolding on_connect
  on_connect-eq o auth s p h =
      let drained = abort_loop s.cells s.tracker.pending_requests in
      let first = final-eq o s h in
      let second =
        fail_aborted-Accepts o (unfailed o.statuses_later drained.0 drained.1)
          (final_request_cleanup o s).0 h in
      ground arith

  pub send_binary-Effect :
      (o : Outside ServerMsg ServerResponse) (b : Bytes) (s : ClientState ServerMsg ServerResponse)
      → Keyed s.tracker.pending_requests
      → Effect s (send_binary o b s).0 [] 0 0
  unfolding send_binary
  send_binary-Effect o b s keyed = elim (Option-cases (o.binary b)) [
    | inl e ↦ rw (e, send_binary) (same-Effect s s.outbox keyed)
    | inr (n, e) ↦ rw (e, send_binary) (same-Effect s (s.outbox ++ b ∷ []) keyed)
  ]

  -- `send_authentication` reports a connection exactly if it succeeds.
  send_authentication-Effect :
      (o : Outside ServerMsg ServerResponse) (auth : Option Bytes)
      (s : ClientState ServerMsg ServerResponse)
      → Accepts o
      → Keyed s.tracker.pending_requests
      → (es : List (ClientEvent ServerMsg ServerResponse)) × Effect s
          (send_authentication o auth s).0
          es
          (successes (send_authentication o auth s).1)
          0
  unfolding send_authentication send_or_fail
  send_authentication-Effect o none s h keyed = ([], same-Effect s s.outbox keyed)
  send_authentication-Effect o (some b) s h keyed =
      let s' = (send_binary o b s).0 in
      let e = send_binary-Effect o b s keyed in
      let report = ClientEvent.report ClientReport.connected in
      let accepted = send_event-Accepts o report s' h in
      (
        [] ++ report ∷ [],
        rw accepted (
            Effect-trans s s' (logged s' (report ∷ [])) [] (report ∷ []) 0 0 1 0 e
              (logged-Effect s' report 1 e.keyed refl (λ k. refl))),
      )

  pub on_connect-Effect :
      (o : Outside ServerMsg ServerResponse) (auth : Option Bytes)
      (s : ClientState ServerMsg ServerResponse)
      → s.poisoned ≡ false
      → Accepts o
      → Keyed s.tracker.pending_requests
      → (es : List (ClientEvent ServerMsg ServerResponse)) × Effect s
          (on_connect o auth s).0
          es
          (successes (on_connect o auth s).1)
          0
  on_connect-Effect o auth s p h keyed =
      let (es, e) = send_authentication-Effect o auth (settled_all o s) h tt in
      (
        settled_events o s ++ es,
        rw (on_connect-eq o auth s p h) (
            subst
              (λ (n : ℕ).
                Effect s (send_authentication o auth (settled_all o s)).0 (settled_events o s ++ es)
                  n 0)
              (omega arith)
              (Effect-trans s (settled_all o s) (send_authentication o auth (settled_all o s)).0
                (settled_events o s) es 0 0
                (successes (send_authentication o auth (settled_all o s)).1) 0
                (settled_all-Effect o s keyed) e)),
      )
