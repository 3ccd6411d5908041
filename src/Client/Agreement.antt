-- ===== src/Client/Agreement.antt =====
-- In runs of a client, the cells behind the request signals agree with the events.
use bevy_simplenet.Common.{
  ℕ, ◌≤◌, ◌≡◌, refl, ◌∙◌, Bool, false, List, [], ◌∷◌, ◌++◌, Option, none, some, arith, All,
  All-append, All-weaken, inl, inr, Option-cases,
}
use bevy_simplenet.Common.Bytes.{Bytes}
use bevy_simplenet.Authentication.{AuthRequest}
use bevy_simplenet.Client.Signal.{Cells, RequestSignal}
use bevy_simplenet.Client.Tracker.{drain_loop, abort_loop, drain_failed_requests}
use bevy_simplenet.Client.State.{
  ClientReport, ClientEvent, ClientConfig, ClientState, Outside, count_disconnect, send_binary,
}
use bevy_simplenet.Client.Handler.{
  clean_pending_requests, send_authentication, send_or_fail, on_connect, on_connect_fail,
  lose_connection,
}
use bevy_simplenet.Client.Callbacks.{settled_all, on_connect-eq}
use bevy_simplenet.Client.Operations.{dropped, drop-eq}
use bevy_simplenet.Client.Handler
use bevy_simplenet.Client.Settle.{
  Keyed, Accepts, logged, failures, unfailed, settles, send_event-Accepts, clean_loop-Accepts,
}
use bevy_simplenet.Client.Cells.{
  Waiting, IsLost, Drained, drain_loop-Drained, abort_loop-Drained, Drained-Keeps, Waiting-small,
}
use bevy_simplenet.Client.Told.{
  Tells, Keeps-Tells, failures-Tells, send_failed-Tells, unfailed-IsLost, count-IsLost,
}

module _ {ServerMsg ServerResponse : Type 0} where
  -- The ids are given out as the cells are, the pending requests have untouched cells, and the cells
  -- of settled ones hold what the events say.
  pub record Agrees (s : ClientState ServerMsg ServerResponse) : Type 0 where
    pub next : s.cells.next ≡ s.tracker.request_counter
    pub waiting : Waiting s.cells s.tracker.pending_requests
    pub blank : (a : ℕ) → s.cells.next ≤ a → s.cells.cell a ≡ 0
    pub told : All (Tells s.cells) s.sent

  -- What the other fields hold is of no matter.
  pub Agrees-same :
      (s s' : ClientState ServerMsg ServerResponse)
      → s'.tracker ≡ s.tracker
      → s'.cells ≡ s.cells
      → s'.sent ≡ s.sent
      → Agrees s
      → Agrees s'
  Agrees-same s s' t c e a = record {
    next = rw (t, c) a.next;
    waiting = rw (t, c) a.waiting;
    blank = rw c a.blank;
    told = rw (c, e) a.told;
  }

  -- An event that settles nothing.
  pub Agrees-logged :
      (s : ClientState ServerMsg ServerResponse) (e : ClientEvent ServerMsg ServerResponse)
      → ((k : ℕ) → settles k e ≡ 0)
      → Agrees s
      → Agrees (logged s (e ∷ []))
  Agrees-logged s e quiet a = record {
    next = a.next;
    waiting = a.waiting;
    blank = a.blank;
    told =
        All-append (Tells s.cells) s.sent (e ∷ []) a.told
          (λ k told. absurd (omega (arith, quiet k)), tt);
  }

  -- Requests are taken out, and the events that follow say so.
  pub Drained-Agrees :
      (s : ClientState ServerMsg ServerResponse) (c : Cells) (kept : List (ℕ × RequestSignal))
      (taken : List RequestSignal) (es : List (ClientEvent ServerMsg ServerResponse))
      → Agrees s
      → Drained s.cells c s.tracker.pending_requests kept taken
      → All (Tells c) es
      → Agrees (
          logged
            (record s { tracker = record (s.tracker) { pending_requests = kept }; cells = c })
            es)
  Drained-Agrees s c kept taken es a d told =
      let keeps = Drained-Keeps s.cells c s.tracker.pending_requests kept taken a.waiting d in
      record {
        next = d.next ∙ a.next;
        waiting = d.waiting;
        blank = λ i h.
            d.other i (
              Waiting-small s.cells s.tracker.pending_requests i a.waiting
                (omega (arith, h, d.next)))
            ∙ a.blank i (omega (arith, h, d.next));
        told =
            All-append (Tells c) s.sent es
              (All-weaken (Tells s.cells) (Tells c) s.sent (λ e. Keeps-Tells s.cells c e keeps)
                a.told)
              told;
      }

  pub clean-Agrees :
      (o : Outside ServerMsg ServerResponse) (s : ClientState ServerMsg ServerResponse)
      → Accepts o
      → Keyed s.tracker.pending_requests
      → Agrees s
      → Agrees (clean_pending_requests o s)
  unfolding clean_pending_requests drain_failed_requests
  clean-Agrees o s h keyed a =
      let drained = drain_loop o.statuses s.cells s.tracker.pending_requests in
      let d = drain_loop-Drained o.statuses s.cells s.tracker.pending_requests keyed a.waiting in
      rw (clean_loop-Accepts o drained.2 _ h) (
        Drained-Agrees s drained.0 drained.1 drained.2 _ a d (
          failures-Tells ServerMsg ServerResponse o.statuses_later drained.0 drained.0 drained.2
            d.lost))

  -- Everything is taken out, with the events of failures before those of the rest.
  aborted-Agrees :
      (o : Outside ServerMsg ServerResponse) (s : ClientState ServerMsg ServerResponse)
      (last : List (ClientEvent ServerMsg ServerResponse))
      → Keyed s.tracker.pending_requests
      → Agrees s
      → let drained = abort_loop s.cells s.tracker.pending_requests in
        let lost = unfailed o.statuses_later drained.0 drained.1 in
        (All (IsLost drained.0) lost → All (Tells drained.0) last)
        → Agrees (
            logged
              (logged
                (record s {
                  tracker = record (s.tracker) { pending_requests = [] };
                  cells = drained.0;
                })
                (failures o.statuses_later drained.0 drained.1))
              last)
  aborted-Agrees o s last keyed a f =
      let drained = abort_loop s.cells s.tracker.pending_requests in
      let d = abort_loop-Drained s.cells s.tracker.pending_requests keyed a.waiting in
      let b = Drained-Agrees s drained.0 [] drained.1 _ a d (
        failures-Tells ServerMsg ServerResponse o.statuses_later drained.0 drained.0 drained.1
          d.lost) in
      record {
        next = b.next;
        waiting = tt;
        blank = b.blank;
        told =
            All-append (Tells drained.0) _ last b.told
              (f (unfailed-IsLost o.statuses_later drained.0 drained.0 drained.1 d.lost));
      }

  settled_all-Agrees :
      (o : Outside ServerMsg ServerResponse) (s : ClientState ServerMsg ServerResponse)
      → Keyed s.tracker.pending_requests
      → Agrees s
      → Agrees (settled_all o s)
  settled_all-Agrees o s keyed a =
      aborted-Agrees o s _ keyed a (send_failed-Tells ServerMsg ServerResponse _ _)

  send_authentication-Agrees :
      (o : Outside ServerMsg ServerResponse) (auth : Option Bytes)
      (s : ClientState ServerMsg ServerResponse)
      → Accepts o
      → Agrees s
      → Agrees (send_authentication o auth s).0
  unfolding send_authentication send_or_fail send_binary
  send_authentication-Agrees o none s h a = a
  send_authentication-Agrees o (some b) s h a =
      let s' = (send_binary o b s).0 in
      let report = ClientEvent.report ClientReport.connected in
      let same : Agrees s' = elim (Option-cases (o.binary b)) [
        | inl e ↦ rw (e, send_binary) a
        | inr (n, e) ↦
            rw (e, send_binary)
              (Agrees-same s (record s { outbox = s.outbox ++ b ∷ [] }) refl refl refl a)
      ] in
      rw (send_event-Accepts o report s' h) (Agrees-logged s' report (λ k. refl) same)

  pub on_connect-Agrees :
      (o : Outside ServerMsg ServerResponse) (auth : Option Bytes)
      (s : ClientState ServerMsg ServerResponse)
      → s.poisoned ≡ false
      → Accepts o
      → Keyed s.tracker.pending_requests
      → Agrees s
      → Agrees (on_connect o auth s).0
  on_connect-Agrees o auth s p h keyed a =
      rw (on_connect-eq o auth s p h)
        (send_authentication-Agrees o auth (settled_all o s) h (settled_all-Agrees o s keyed a))

  pub drop-Agrees :
      (o : Outside ServerMsg ServerResponse) (s : ClientState ServerMsg ServerResponse)
      → s.poisoned ≡ false
      → Accepts o
      → Keyed s.tracker.pending_requests
      → Agrees s
      → Agrees (Handler.drop o s)
  drop-Agrees o s p h keyed a =
      let drained = abort_loop s.cells s.tracker.pending_requests in
      let lost = unfailed o.statuses_later drained.0 drained.1 in
      let b =
        aborted-Agrees o s (ClientEvent.report (ClientReport.is_dead lost) ∷ []) keyed a
          (λ l. (λ k told. count-IsLost drained.0 lost k l told, tt)) in
      rw (drop-eq o s p h) (Agrees-same _ (dropped o s) refl refl refl b)

  pub lose_connection-Agrees :
      (report : ClientReport) (reconnects : Bool) (auth : AuthRequest)
      (o : Outside ServerMsg ServerResponse) (s : ClientState ServerMsg ServerResponse)
      → ((k : ℕ)
          → settles {ServerMsg = ServerMsg} {ServerResponse = ServerResponse} k
              (ClientEvent.report report)
            ≡ 0)
      → s.poisoned ≡ false
      → Accepts o
      → Keyed s.tracker.pending_requests
      → Agrees s
      → Agrees (lose_connection report reconnects auth o s).0
  unfolding lose_connection count_disconnect
  lose_connection-Agrees report reconnects auth o s quiet p h keyed a =
      let counted = count_disconnect s in
      let event = ClientEvent.report report in
      let told = logged counted (event ∷ []) in
      let accepted = send_event-Accepts o event counted h in
      let same : (lose_connection report reconnects auth o s).0 ≡ clean_pending_requests o told =
        ground arith in
      rw same (
        clean-Agrees o told h keyed
          (Agrees-logged counted event quiet (Agrees-same s counted refl refl refl a)))

  pub on_connect_fail-Agrees :
      (config : ClientConfig) (auth : AuthRequest) (o : Outside ServerMsg ServerResponse)
      (s : ClientState ServerMsg ServerResponse)
      → s.poisoned ≡ false
      → Accepts o
      → Keyed s.tracker.pending_requests
      → Agrees s
      → Agrees (on_connect_fail config auth o s).0
  unfolding on_connect_fail
  on_connect_fail-Agrees config auth o s p h keyed a =
      let same : (on_connect_fail config auth o s).0 ≡ clean_pending_requests o s = ground arith in
      rw same (clean-Agrees o s h keyed a)
