-- ===== src/Client/Death.antt =====
-- A client whose handler is dropped: the end of its events, and the fate of later requests.
use bevy_simplenet.Common.{
  ℕ, zero, suc, ◌+◌, sym, append-nil, append_assoc, ◌≤◌, ◌≡◌, ◌≢◌, refl, ap, ◌∙◌, Bool, true, false,
  List, [], ◌∷◌, ◌++◌, some, arith,
}
use bevy_simplenet.Common.Map.{count-keys-insert}
use bevy_simplenet.Client.Signal
use bevy_simplenet.Client.State.{ClientReport, ClientEvent, ClientState, Outside, Result, ok, err}
use bevy_simplenet.Client.Api.{is_closed, next, mark_closed, closure_frame}
use bevy_simplenet.Client.Handler
use bevy_simplenet.Client.Settle.{results, Accepts}
use bevy_simplenet.Client.Effect.{pending}
use bevy_simplenet.Client.Operations.{drop-eq}
use bevy_simplenet.Client.Calls.{send-outbox, request-eq, requested, report_close-eq}
use bevy_simplenet.Client.Run.{Phase, dead, phase_of, World, Step, Runs, Reach, here, more}
use bevy_simplenet.Client.Invariant.{Balanced, Inv, Reach-Inv, Step-Inv}

dead_Balanced :
    (p : Phase) (n drops : ℕ) (closed : Bool) → p ≡ dead → Balanced p n drops closed → closed ≡ true
dead_Balanced Phase.offline n drops closed e b = cc
dead_Balanced Phase.online n drops closed e b = cc
dead_Balanced Phase.stopped n drops closed e b = cc
dead_Balanced Phase.dead n drops closed e b = b

phase_of-dead {ℓ} : {A : Type ℓ} (r : Result A) → phase_of r ≢ dead
phase_of-dead (ok _) e = cc
phase_of-dead (err _) e = cc

module _ {ServerMsg ServerResponse : Type 0} where
  -- The reports of `n` closes.
  abbrev pub closures : ℕ → List (ClientEvent ServerMsg ServerResponse)
  closures zero = []
  closures (suc n) = ClientEvent.report ClientReport.closed_by_self ∷ closures n

  closures-append : (n m : ℕ) → closures n ++ closures m ≡ closures (n + m)
  closures-append zero m = ap closures (omega arith)
  closures-append (suc n) m =
      ap
        (λ (l : List (ClientEvent ServerMsg ServerResponse)).
          ClientEvent.report ClientReport.closed_by_self ∷ l)
        (closures-append n m)
      ∙ ap closures {x = suc (n + m)} (omega arith)

  -- What the log has more, and how many calls of `close` have passed their test and not reported.
  abbrev pub Closes : World ServerMsg ServerResponse → World ServerMsg ServerResponse → Type 0
  Closes w u =
      (n : ℕ) × (u.state.sent ≡ w.state.sent ++ closures n)
      × (n + (u.checked + u.asked) ≤ w.checked + w.asked)

  -- What a step from a dropped handler leaves: the log but for reports of closes, and the pending
  -- requests.
  record Stays (w u : World ServerMsg ServerResponse) : Type 0 where
    same_phase : u.phase ≡ dead
    late : Closes w u
    still_pending : (k : ℕ) → pending w.state k ≤ pending u.state k

  quiet_Closes :
      (w u : World ServerMsg ServerResponse)
      → u.state.sent ≡ w.state.sent
      → u.checked + u.asked ≤ w.checked + w.asked
      → Closes w u
  quiet_Closes w u e h = (0, e ∙ sym (append-nil w.state.sent), omega arith)

  Closes-trans : (w v u : World ServerMsg ServerResponse) → Closes w v → Closes v u → Closes w u
  Closes-trans w v u (n, e, h) (m, f, k) = (
    n + m,
    f
        ∙ ap (λ (l : List (ClientEvent ServerMsg ServerResponse)). l ++ closures m) e
        ∙ append_assoc w.state.sent (closures n) (closures m)
        ∙ ap (λ (l : List (ClientEvent ServerMsg ServerResponse)). w.state.sent ++ l)
            (closures-append n m),
    omega arith,
  )

  closed_of_Inv :
      (w : World ServerMsg ServerResponse)
      → Inv w
      → w.phase ≡ dead
      → w.state.client_closed_signal ≡ true
  closed_of_Inv w v d = dead_Balanced w.phase _ w.drops w.state.client_closed_signal d v.balanced

  is_closed_dead :
      (s : ClientState ServerMsg ServerResponse)
      → s.client_closed_signal ≡ true
      → is_closed s ≡ true
  unfolding is_closed
  is_closed_dead s c = ground arith

  next_same :
      (e : ClientEvent ServerMsg ServerResponse) (s : ClientState ServerMsg ServerResponse)
      → ((next (some e) s).0.sent ≡ s.sent) × ((next (some e) s).0.tracker ≡ s.tracker)
  unfolding next
  next_same (ClientEvent.report ClientReport.connected) s = (refl, refl)
  next_same _ s = (refl, refl)

  Step-Stays :
      {w u : World ServerMsg ServerResponse} → Step w u → Inv w → w.phase ≡ dead → Stays w u
  unfolding mark_closed
  Step-Stays (Step.connects w o auth p h) v d = absurd (cc)
  Step-Stays (Step.fails_connecting w config auth o p h t) v d = absurd (cc)
  Step-Stays (Step.disconnects w config auth o p h t) v d = absurd (cc)
  Step-Stays (Step.server_closes w config auth frame o p h t) v d = absurd (cc)
  Step-Stays (Step.receives w o m s r p h e) v d = absurd (cc)
  Step-Stays (Step.dies w o p h) v d = absurd (p d)
  Step-Stays (Step.sends w o b) v d =
      let (out, e) = send-outbox o b w.state in
      rw e (record {
        same_phase = d;
        late =
            quiet_Closes w (record w { state = record (w.state) { outbox = out } }) refl
              (omega arith);
        still_pending = λ k. omega arith;
      })
  Step-Stays (Step.requests w o serialize small) v d =
      let (out, m, e) = request-eq o serialize w.state v.live in
      rw e (record {
        same_phase = d;
        late = quiet_Closes w (record w { state = requested w.state out m }) refl (omega arith);
        still_pending = λ k.
            let signal = (Signal.new w.state.cells w.state.tracker.request_counter m).1 in
            let added =
              count-keys-insert w.state.tracker.request_counter k signal
                w.state.tracker.pending_requests in
            let once = v.settled k in ground arith;
      })
  Step-Stays (Step.begins_closing w c) v d =
      absurd (let closed = is_closed_dead w.state (closed_of_Inv w v d) in cc)
  Step-Stays (Step.asks_to_close w o n c t) v d = record {
    same_phase = d;
    late = quiet_Closes w (record w { checked = n; asked = w.asked + 1 }) refl (omega arith);
    still_pending = λ k. omega arith;
  }
  Step-Stays (Step.fails_to_close w o n c t) v d = record {
    same_phase = d;
    late = quiet_Closes w (record w { checked = n }) refl (omega arith);
    still_pending = λ k. omega arith;
  }
  Step-Stays (Step.reports_close w o n c h) v d =
      rw (report_close-eq o w.state h)
        (record { same_phase = d; late = (1, refl, omega arith); still_pending = λ k. omega arith })
  Step-Stays (Step.marks_closed w n c) v d = record {
    same_phase = d;
    late =
        quiet_Closes w (record w { state = mark_closed w.state; reported = n }) refl (omega arith);
    still_pending = λ k. omega arith;
  }
  Step-Stays (Step.takes w e rest q) v d = record {
    same_phase = d;
    late =
        quiet_Closes w
          (record w { state = (next (some e) w.state).0; received = w.received ++ e ∷ [] })
          (next_same e w.state).0 (omega arith);
    still_pending = λ k. rw ((next_same e w.state).1) (omega arith);
  }

  Runs-Stays :
      {w u : World ServerMsg ServerResponse} → Runs w u → Inv w → w.phase ≡ dead → Inv u × Stays w u
  Runs-Stays {w} here v d = (
    v,
    record {
      same_phase = d;
      late = quiet_Closes w w refl (omega arith);
      still_pending = λ k. omega arith;
    },
  )
  Runs-Stays {w} {u} (more {v = x} r st) v d =
      let (inv, stays) = Runs-Stays r v d in
      let one = Step-Stays st inv stays.same_phase in
      (
        Step-Inv st inv,
        record {
          same_phase = one.same_phase;
          late = Closes-trans w x u stays.late one.late;
          still_pending = λ k. omega (arith, one.still_pending k, stays.still_pending k);
        },
      )

  -- A request that is pending once the handler is dropped, such as any request made then, stays
  -- pending and gets no event, whatever follows.
  pub Runs-dead-pending :
      {w u : World ServerMsg ServerResponse} (id : ℕ)
      → Reach w
      → w.phase ≡ dead
      → pending w.state id ≡ 1
      → Runs w u
      → (pending u.state id ≡ 1) × (results id u.state.sent ≡ 0)
  Runs-dead-pending {w} {u} id reach d p r =
      let (v, stays) = Runs-Stays r (Reach-Inv reach) d in
      let settled = v.settled id in
      let still = stays.still_pending id in (ground arith, ground arith)

  -- The client as dropping the handler leaves it.
  abbrev pub died :
      Outside ServerMsg ServerResponse
      → World ServerMsg ServerResponse
      → World ServerMsg ServerResponse
  died o w = record w { state = Handler.drop o w.state; phase = dead; drops = w.drops + 1 }

  -- In every run, from when the handler is dropped on, the log ends with the death report and
  -- nothing but reports of closes after it, at most as many as there were calls of `close` that had
  -- passed their test when the handler was dropped and have reported since.
  pub Reach-dead-last :
      {w u : World ServerMsg ServerResponse} (o : Outside ServerMsg ServerResponse)
      → Reach w
      → w.phase ≢ dead
      → Accepts o
      → Runs (died o w) u
      → (es : List (ClientEvent ServerMsg ServerResponse)) × (ids : List ℕ) × (n : ℕ)
        × (u.state.sent ≡ (es ++ ClientEvent.report (ClientReport.is_dead ids) ∷ []) ++ closures n)
        × (n + (u.checked + u.asked) ≤ w.checked + w.asked)
  Reach-dead-last {w} {u} o reach p h r =
      let v = Reach-Inv reach in
      let (inv, stays) = Runs-Stays r (Step-Inv (Step.dies w o p h) v) refl in
      let (n, log, few) = stays.late in
      (
        _,
        _,
        n,
        log
            ∙ ap (λ (s : ClientState ServerMsg ServerResponse). s.sent ++ closures n)
                (drop-eq o w.state v.live h),
        few,
      )

  -- A reached client that is not closed, and whose socket takes a close, can be run so that the
  -- handler is dropped while a call of `close` is under way, and then the report of that close
  -- follows the death report, as the last event.
  pub late_close :
      {w : World ServerMsg ServerResponse} (o : Outside ServerMsg ServerResponse)
      → Reach w
      → w.phase ≢ dead
      → Accepts o
      → is_closed w.state ≡ false
      → o.close (some closure_frame) ≡ true
      → (u : World ServerMsg ServerResponse) × Runs w u
        × (u.phase ≡ dead)
        × (es : List (ClientEvent ServerMsg ServerResponse)) × (ids : List ℕ) × (u.state.sent
            ≡ (es ++ ClientEvent.report (ClientReport.is_dead ids) ∷ [])
              ++ ClientEvent.report ClientReport.closed_by_self ∷ [])
  late_close {w} o reach p h free taken =
      let v = Reach-Inv reach in
      let begun = record w { checked = w.checked + 1 } in
      let told = record w { asked = w.asked + 1 } in
      let gone = died o told in
      let report = Step.reports_close gone o w.asked refl h in
      (
        _,
        more
            (more
              (more (more here (Step.begins_closing w free))
                (Step.asks_to_close begun o w.checked refl taken))
              (Step.dies told o p h))
            report,
        refl,
        _,
        _,
        ap (λ (s : ClientState ServerMsg ServerResponse). s.sent) (report_close-eq o gone.state h)
            ∙ ap
                (λ (s : ClientState ServerMsg ServerResponse).
                  s.sent ++ ClientEvent.report ClientReport.closed_by_self ∷ [])
                (drop-eq o w.state v.live h),
      )
