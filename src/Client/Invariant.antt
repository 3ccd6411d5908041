-- ===== src/Client/Invariant.antt =====
-- What holds in every run of a client.
use bevy_simplenet.Common.{
  ℕ, ◌+◌, ◌-◌, ◌%◌, ◌^◌, ◌<◌, ◌≤◌, ◌≡◌, ◌≢◌, refl, sym, ap, subst, ◌∙◌, Bool, true, false, List, [],
  ◌∷◌, ◌++◌, some, if◌then◌else◌, ltb, arith, append_assoc,
}
use bevy_simplenet.Common.Map.{IsMap}
use bevy_simplenet.Client.State.{ClientReport, ClientEvent, ClientState, Result, ok, err, initial}
use bevy_simplenet.Client.Handler.{on_connect, on_connect_fail, on_disconnect, on_close}
use bevy_simplenet.Client.Handler
use bevy_simplenet.Client.Tracker
use bevy_simplenet.Client.Api.{is_connected, next, mark_closed}
use bevy_simplenet.Client.Settle.{Keyed, logged, results, results-append}
use bevy_simplenet.Client.Effect.{
  connects, connects-append, reserved, pending, Effect, logged-Effect,
}
use bevy_simplenet.Client.Callbacks.{
  successes, on_connect-Effect, on_connect_fail-Effect, lose_connection-Effect,
}
use bevy_simplenet.Client.Operations.{on_binary-Effect, drop-eq, drop-Effect}
use bevy_simplenet.Client.Calls.{
  send-outbox, same-Effect', request-eq, requested-Effect, report_close-eq,
}
use bevy_simplenet.Client.Run.{
  Phase, offline, online, stopped, dead, phase_of, World, start, Step, Reach, here, more,
}

-- How the reports of connections stand to the losses of connections.
abbrev pub Balanced : Phase → ℕ → ℕ → Bool → Type 0
Balanced offline reports drops closed = reports ≡ drops
Balanced online reports drops closed = reports ≡ drops + 1
Balanced stopped reports drops closed = reports ≡ drops
Balanced dead reports drops closed = closed ≡ true

-- A call that reports nothing and leaves the phase.
quiet :
    (p : Phase) (n drops : ℕ) (closed closed' : Bool)
    → closed' ≡ closed
    → Balanced p n drops closed
    → Balanced p (n + 0) drops closed'
quiet offline n drops closed closed' e b = omega arith
quiet online n drops closed closed' e b = omega arith
quiet stopped n drops closed closed' e b = omega arith
quiet dead n drops closed closed' e b = e ∙ b

-- So too with any signal of death, before the handler is dropped.
alive_Balanced :
    (p : Phase) (n drops : ℕ) (closed closed' : Bool)
    → p ≢ dead
    → Balanced p n drops closed
    → Balanced p (n + 0) drops closed'
alive_Balanced offline n drops closed closed' e b = omega arith
alive_Balanced online n drops closed closed' e b = omega arith
alive_Balanced stopped n drops closed closed' e b = omega arith
alive_Balanced dead n drops closed closed' e b = absurd (e refl)

connect_Balanced :
    (r : Result (Unit {0})) (reports drops : ℕ) (closed : Bool)
    → reports ≡ drops
    → Balanced (phase_of r) (reports + successes r) drops closed
connect_Balanced (ok _) reports drops closed e = omega arith
connect_Balanced (err _) reports drops closed e = omega arith

lost_offline :
    (p : Phase) (n drops : ℕ) (closed : Bool)
    → p ≡ online
    → Balanced p n drops closed
    → n + 0 ≡ drops + 1
lost_offline offline n drops closed e b = cc
lost_offline online n drops closed e b = omega arith
lost_offline stopped n drops closed e b = cc
lost_offline dead n drops closed e b = cc

away_Balanced :
    (p : Phase) (n drops : ℕ) (closed : Bool) → p ≡ offline → Balanced p n drops closed → n ≡ drops
away_Balanced offline n drops closed e b = b
away_Balanced online n drops closed e b = cc
away_Balanced stopped n drops closed e b = cc
away_Balanced dead n drops closed e b = cc

connected_lem :
    (p : Phase) (count reports seen drops : ℕ) (closed : Bool)
    → Balanced p reports drops closed
    → (count + seen) % 2 ^ 16 ≡ (1 + drops) % 2 ^ 16
    → count ≡ 0
    → closed ≡ false
    → seen ≤ reports
    → reports < seen + (2 ^ 16 - 1)
    → (p ≡ online) × (reports ≡ seen)
connected_lem offline count reports seen drops closed b c z l h n = absurd (omega arith)
connected_lem online count reports seen drops closed b c z l h n = (refl, omega arith)
connected_lem stopped count reports seen drops closed b c z l h n = absurd (omega arith)
connected_lem dead count reports seen drops closed b c z l h n = cc

module _ {ServerMsg ServerResponse : Type 0} where
  pub record Inv (w : World ServerMsg ServerResponse) : Type 0 where
    pub live : w.state.poisoned ≡ false
    pub keyed : Keyed w.state.tracker.pending_requests
    -- A request that is reserved is pending or settled, and not both or twice.
    pub settled : (k : ℕ) → pending w.state k + results k w.state.sent ≡ reserved w.state k
    -- The count is the number of losses, and one, less the connections that the owner has seen.
    pub counted :
        (w.state.client_disconnected_count + connects w.received) % 2 ^ 16 ≡ (1 + w.drops) % 2 ^ 16
    pub in_order :
        (rest : List (ClientEvent ServerMsg ServerResponse)) × (w.state.sent ≡ w.received ++ rest)
    pub balanced : Balanced w.phase (connects w.state.sent) w.drops w.state.client_closed_signal

  start-Inv : Inv start
  unfolding initial Tracker.default
  start-Inv = record {
    live = refl;
    keyed = tt;
    settled = λ k. ground arith;
    counted = refl;
    in_order = ([], refl);
    balanced = refl;
  }

  -- An effect keeps the invariant, if the phase that it leaves is balanced.
  Effect-Inv :
      (w : World ServerMsg ServerResponse) (s : ClientState ServerMsg ServerResponse)
      (es : List (ClientEvent ServerMsg ServerResponse)) (c d : ℕ) (p : Phase) (drops : ℕ)
      → Inv w
      → Effect w.state s es c d
      → drops ≡ w.drops + d
      → Balanced p (connects w.state.sent + c) drops s.client_closed_signal
      → Inv (record w { state = s; phase = p; drops = drops })
  Effect-Inv w s es c d p drops v e same b = record {
    live = e.poison_same ∙ v.live;
    keyed = e.keyed;
    settled = λ k.
        omega
          (arith, ap (results k) e.log, results-append k w.state.sent es, v.settled k, e.settled k);
    counted = omega (arith, e.counted, v.counted);
    in_order = (
      v.in_order.0 ++ es,
      e.log
          ∙ ap (λ (l : List (ClientEvent ServerMsg ServerResponse)). l ++ es) v.in_order.1
          ∙ append_assoc w.received v.in_order.0 es,
    );
    balanced = subst (λ (n : ℕ). Balanced p n drops s.client_closed_signal) total b;
  }
    where
      total : connects w.state.sent + c ≡ connects s.sent
      total = omega (arith, ap connects e.log, connects-append w.state.sent es, e.connected)

  -- Every key stands once in the tracker.
  pub Inv-IsMap :
      (w : World ServerMsg ServerResponse) → Inv w → IsMap w.state.tracker.pending_requests
  Inv-IsMap w v k = let one = v.settled k in ground arith

  call-Inv :
      (w : World ServerMsg ServerResponse) (s : ClientState ServerMsg ServerResponse)
      (es : List (ClientEvent ServerMsg ServerResponse))
      → Inv w
      → Effect w.state s es 0 0
      → s.client_closed_signal ≡ w.state.client_closed_signal
      → Inv (record w { state = s })
  call-Inv w s es v e same = Effect-Inv w s es 0 0 w.phase w.drops v e (omega arith) (
      quiet w.phase (connects w.state.sent) w.drops w.state.client_closed_signal
        s.client_closed_signal same v.balanced)

  -- Where the calls of `close` stand does not matter to the invariant.
  closing-Inv :
      (w : World ServerMsg ServerResponse) (checked asked reported : ℕ)
      → Inv w
      → Inv (record w { checked = checked; asked = asked; reported = reported })
  closing-Inv w checked asked reported v = record {
    live = v.live;
    keyed = v.keyed;
    settled = v.settled;
    counted = v.counted;
    in_order = v.in_order;
    balanced = v.balanced;
  }

  next-Inv :
      (w : World ServerMsg ServerResponse) (e : ClientEvent ServerMsg ServerResponse)
      (rest : List (ClientEvent ServerMsg ServerResponse))
      → w.state.sent ≡ w.received ++ e ∷ rest
      → Inv w
      → Inv (record w { state = (next (some e) w.state).0; received = w.received ++ e ∷ [] })
  unfolding next
  next-Inv w (ClientEvent.report ClientReport.connected) rest q v = record {
    live = v.live;
    keyed = v.keyed;
    settled = v.settled;
    counted = omega (
      arith,
      v.counted,
      connects-append w.received (ClientEvent.report ClientReport.connected ∷ []),
    );
    in_order = (rest, q ∙ sym (append_assoc w.received _ rest));
    balanced = v.balanced;
  }
  next-Inv w e rest q v = record {
    live = v.live;
    keyed = v.keyed;
    settled = v.settled;
    counted = omega (arith, v.counted, connects-append w.received (e ∷ []));
    in_order = (rest, q ∙ sym (append_assoc w.received (e ∷ []) rest));
    balanced = v.balanced;
  }

  -- Every step keeps the invariant.
  pub Step-Inv : {w u : World ServerMsg ServerResponse} → Step w u → Inv w → Inv u
  unfolding on_disconnect on_close mark_closed
  Step-Inv (Step.connects w o auth p h) v =
      let (es, e) = on_connect-Effect o auth w.state v.live h v.keyed in
      let r = (on_connect o auth w.state).1 in
      Effect-Inv w (on_connect o auth w.state).0 es (successes r) 0 (phase_of r) w.drops v e
        (omega arith)
        (connect_Balanced r (connects w.state.sent) w.drops
          (on_connect o auth w.state).0.client_closed_signal
          (away_Balanced w.phase (connects w.state.sent) w.drops w.state.client_closed_signal p
            v.balanced))
  Step-Inv (Step.fails_connecting w config auth o p h t) v =
      let (es, e) = on_connect_fail-Effect config auth o w.state v.live h t v.keyed in
      let s = (on_connect_fail config auth o w.state).0 in
      Effect-Inv w s es 0 0 w.phase w.drops v e (omega arith) (
        alive_Balanced w.phase (connects w.state.sent) w.drops w.state.client_closed_signal
          s.client_closed_signal (λ d. cc) v.balanced)
  Step-Inv (Step.disconnects w config auth o p h t) v =
      let (es, e) =
        lose_connection-Effect ClientReport.disconnected config.reconnect_on_disconnect auth o
          w.state refl (λ k. refl) v.live h t v.keyed in
      Effect-Inv w _ es 0 1 offline (w.drops + 1) v e (omega arith) (
        lost_offline w.phase (connects w.state.sent) w.drops w.state.client_closed_signal p
          v.balanced)
  Step-Inv (Step.server_closes w config auth frame o p h t) v =
      let (es, e) =
        lose_connection-Effect (ClientReport.closed_by_server frame)
          config.reconnect_on_server_close auth o w.state refl (λ k. refl) v.live h t v.keyed in
      Effect-Inv w _ es 0 1 offline (w.drops + 1) v e (omega arith) (
        lost_offline w.phase (connects w.state.sent) w.drops w.state.client_closed_signal p
          v.balanced)
  Step-Inv (Step.receives w o m s r p h e) v =
      let (es, eff) = on_binary-Effect o m w.state s r v.live h v.keyed (Inv-IsMap w v) e in
      Effect-Inv w s es 0 0 w.phase w.drops v eff (omega arith) (
        alive_Balanced w.phase (connects w.state.sent) w.drops w.state.client_closed_signal
          s.client_closed_signal (λ d. cc) v.balanced)
  Step-Inv (Step.dies w o p h) v =
      let (es, e) = drop-Effect o w.state v.live h v.keyed in
      Effect-Inv w (Handler.drop o w.state) es 0 1 dead (w.drops + 1) v e (omega arith) (
        ap (λ (u : ClientState ServerMsg ServerResponse). u.client_closed_signal)
          (drop-eq o w.state v.live h))
  Step-Inv (Step.sends w o b) v =
      let (out, e) = send-outbox o b w.state in
      rw e (
        call-Inv w (record (w.state) { outbox = out }) [] v
          (same-Effect' w.state out w.state.closed_by_self v.keyed) refl)
  Step-Inv (Step.requests w o serialize small) v =
      let (out, m, e) = request-eq o serialize w.state v.live in
      let fresh = v.settled w.state.tracker.request_counter in
      rw e (call-Inv w _ [] v (requested-Effect w.state out m small (ground arith) v.keyed) refl)
  Step-Inv (Step.begins_closing w c) v = closing-Inv w (w.checked + 1) w.asked w.reported v
  Step-Inv (Step.asks_to_close w o n c t) v = closing-Inv w n (w.asked + 1) w.reported v
  Step-Inv (Step.fails_to_close w o n c t) v = closing-Inv w n w.asked w.reported v
  Step-Inv (Step.reports_close w o n c h) v =
      let told = ClientEvent.report ClientReport.closed_by_self in
      let s = logged w.state (told ∷ []) in
      rw (report_close-eq o w.state h) (
        closing-Inv (record w { state = s }) w.checked n (w.reported + 1)
          (call-Inv w s (told ∷ []) v (logged-Effect w.state told 0 v.keyed refl (λ k. refl)) refl))
  Step-Inv (Step.marks_closed w n c) v =
      let s = mark_closed w.state in
      closing-Inv (record w { state = s }) w.checked w.asked n
        (call-Inv w s [] v (same-Effect' w.state w.state.outbox true v.keyed) refl)
  Step-Inv (Step.takes w e rest q) v = next-Inv w e rest q v

  -- The invariant holds in every run.
  pub Reach-Inv : {w : World ServerMsg ServerResponse} → Reach w → Inv w
  Reach-Inv here = start-Inv
  Reach-Inv (more r st) = Step-Inv st (Reach-Inv r)

  -- In every run, a request whose id was handed out either is in the tracker, once, and settled by
  -- no event, or has left it and is settled exactly once: by a response, an ack, a rejection, a
  -- failed send, a lost response, or its place in the report of death. An id that was never handed
  -- out is neither in the tracker nor settled.
  pub Reach-settled :
      {w : World ServerMsg ServerResponse} (r : Reach w) (id : ℕ)
      → pending w.state id + results id w.state.sent
        ≡ (if ltb id w.state.tracker.request_counter then 1 else 0)
  Reach-settled r id = (Reach-Inv r).settled id

  -- While the client says that it is connected, its socket is connected and the owner has received
  -- every connection report, if fewer than 65,535 such reports wait.
  pub Reach-is_connected :
      {w : World ServerMsg ServerResponse} (r : Reach w)
      → connects w.state.sent < connects w.received + (2 ^ 16 - 1)
      → is_connected w.state ≡ true
      → (w.phase ≡ online) × (connects w.state.sent ≡ connects w.received)
  unfolding is_connected
  Reach-is_connected {w} r few yes_connected =
      let v = Reach-Inv r in
      connected_lem w.phase w.state.client_disconnected_count (connects w.state.sent)
        (connects w.received) w.drops w.state.client_closed_signal v.balanced v.counted
        (ground arith) (ground arith)
        (omega (arith, ap connects v.in_order.1, connects-append w.received v.in_order.0)) few
