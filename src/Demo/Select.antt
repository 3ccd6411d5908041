-- ===== src/Demo/Select.antt =====
-- What becomes of the selection that the demo client of examples/client/src/main.rs predicts.
use bevy_simplenet.Common.{
  ℕ, ◌+◌, ◌≡◌, refl, ap, ◌∙◌, Bool, true, false, ◌||◌, List, [], ◌∷◌, ◌++◌, Option, none, some,
  is_some, if◌then◌else◌, ◌==◌, ltb, arith, count, Bool-cases, inl, inr,
}
use bevy_simplenet.Common.Bytes.{Bytes}
use bevy_simplenet.Client.Signal.{RequestSignal}
use bevy_simplenet.Client.State.{ClientReport, ClientEvent, ClientState, Outside}
use bevy_simplenet.Client.Api.{next}
use bevy_simplenet.Client.Settle.{settles, results}
use bevy_simplenet.Demo.{DemoServerMsg, current}
use bevy_simplenet.Demo.Client.{
  Event, DemoClient, Queued, connecting, display_id, deselect_button, new_server_state, Handling,
  equals_request, is_predicted, roll_back, run_queue, handle_event, handle_events,
  handle_client_events, handle_button_select, handle_button_deselect, set_new_server_state,
}

-- Whether a deselection is queued.
abbrev deselects : List Queued → Bool
deselects [] = false
deselects (deselect_button ∷ q) = true
deselects (new_server_state _ ∷ q) = deselects q

deselects-append : (p q : List Queued) → deselects (p ++ q) ≡ (deselects p || deselects q)
deselects-append [] q = refl
deselects-append (deselect_button ∷ p) q = refl
deselects-append (new_server_state _ ∷ p) q = deselects-append p q

-- A deselection that `set_new_server_state` queues finds nothing selected.
set_new_server_state-pending :
    (state : Option ℕ) (d : DemoClient)
    → (set_new_server_state state d).pending_select ≡ d.pending_select
unfolding set_new_server_state handle_button_deselect is_predicted
set_new_server_state-pending state d = ground arith

run_queue-pending :
    (q : List Queued) (d : DemoClient)
    → (run_queue q d).pending_select ≡ (if deselects q then none else d.pending_select)
unfolding run_queue handle_button_deselect
run_queue-pending [] d = refl
run_queue-pending (deselect_button ∷ q) d =
    let rest = run_queue-pending q (handle_button_deselect d) in ground (arith, rest)
run_queue-pending (new_server_state s ∷ q) d =
    run_queue-pending q (set_new_server_state s d)
    ∙ ap (λ (p : Option RequestSignal). if deselects q then none else p)
        (set_new_server_state-pending s d)

-- The selection that is left once the queue has run.
abbrev left : Handling → Option RequestSignal
left h = if deselects h.queue then none else h.demo.pending_select

-- A pending selection, unless it was settled so many times.
abbrev pub unless_settled : (RequestSignal → ℕ) → Option RequestSignal → Option RequestSignal
unless_settled times none = none
unless_settled times (some signal) = if ltb 0 (times signal) then none else some signal

roll_back-deselects :
    (signal : RequestSignal) (ids : List ℕ)
    → deselects (roll_back (some signal) ids) ≡ ltb 0 (count signal.request_id ids)
unfolding roll_back equals_request
roll_back-deselects signal [] = refl
roll_back-deselects signal (id ∷ ids) = ground (arith, roll_back-deselects signal ids)

roll_back_nothing : (ids : List ℕ) → deselects (roll_back none ids) ≡ false
unfolding roll_back equals_request
roll_back_nothing [] = refl
roll_back_nothing (id ∷ ids) = roll_back_nothing ids

rolled-left :
    (pending : Option RequestSignal) (ids : List ℕ) (h : Handling)
    → h.demo.pending_select ≡ pending
    → left (record h { queue = h.queue ++ roll_back h.demo.pending_select ids })
      ≡ unless_settled (λ s. count s.request_id ids) (left h)
rolled-left none ids h is =
    ground (arith, deselects-append h.queue (roll_back none ids), roll_back_nothing ids)
rolled-left (some signal) ids h is =
    ground (
      arith,
      deselects-append h.queue (roll_back (some signal) ids),
      roll_back-deselects signal ids,
    )

never_settled : (pending : Option RequestSignal) → pending ≡ unless_settled (λ s. 0) pending
never_settled none = refl
never_settled (some signal) = refl

settled_once :
    (id : ℕ) (pending : Option RequestSignal)
    → unless_settled (λ s. count s.request_id (id ∷ [])) pending
      ≡ unless_settled (λ s. if id == s.request_id then 1 else 0) pending
settled_once id none = refl
settled_once id (some signal) = ground arith

settled_twice :
    (f g : RequestSignal → ℕ) (pending : Option RequestSignal)
    → unless_settled g (unless_settled f pending) ≡ unless_settled (λ s. f s + g s) pending
settled_twice f g none = refl
settled_twice f g (some signal) = elim (Bool-cases (ltb 0 (f signal))) [
  | inl settled ↦ ground (arith, settled)
  | inr not_yet ↦ ground (arith, not_yet)
]

acked-left :
    (pending : Option RequestSignal) (id : ℕ) (h : Handling)
    → h.demo.pending_select ≡ pending
    → left (handle_event (ClientEvent.ack id) h)
      ≡ unless_settled (λ s. if id == s.request_id then 1 else 0) (left h)
unfolding handle_event equals_request
acked-left none id h is = ground arith
acked-left (some signal) id h is = ground arith

handle_event-left :
    (e : Event) (h : Handling)
    → left (handle_event e h) ≡ unless_settled (λ s. settles s.request_id e) (left h)
unfolding handle_event
handle_event-left (ClientEvent.report ClientReport.connected) h = never_settled (left h)
handle_event-left (ClientEvent.report ClientReport.disconnected) h = never_settled (left h)
handle_event-left (ClientEvent.report (ClientReport.closed_by_server _)) h = never_settled (left h)
handle_event-left (ClientEvent.report ClientReport.closed_by_self) h = never_settled (left h)
handle_event-left (ClientEvent.report (ClientReport.is_dead ids)) h =
    rolled-left h.demo.pending_select ids h refl
handle_event-left (ClientEvent.msg (current x)) h =
    ground (arith, deselects-append h.queue (new_server_state x ∷ [])) ∙ never_settled (left h)
handle_event-left (ClientEvent.ack id) h = acked-left h.demo.pending_select id h refl
handle_event-left (ClientEvent.reject id) h =
    rolled-left h.demo.pending_select (id ∷ []) h refl ∙ settled_once id (left h)
handle_event-left (ClientEvent.response _ id) h =
    rolled-left h.demo.pending_select (id ∷ []) h refl ∙ settled_once id (left h)
handle_event-left (ClientEvent.send_failed id) h =
    rolled-left h.demo.pending_select (id ∷ []) h refl ∙ settled_once id (left h)
handle_event-left (ClientEvent.response_lost id) h =
    rolled-left h.demo.pending_select (id ∷ []) h refl ∙ settled_once id (left h)

handle_events-left :
    (es : List Event) (h : Handling)
    → left (handle_events es h) ≡ unless_settled (λ s. results s.request_id es) (left h)
unfolding handle_events
handle_events-left [] h = never_settled (left h)
handle_events-left (e ∷ es) h =
    let taken = record h { demo = record (h.demo) { client = (next (some e) h.demo.client).0 } } in
    handle_events-left es (handle_event e taken)
    ∙ ap (unless_settled (λ s. results s.request_id es)) (handle_event-left e taken)
    ∙ settled_twice (λ s. settles s.request_id e) (λ s. results s.request_id es) (left h)

-- A selection that waits for its answer when the system runs waits on exactly if no event that the
-- system takes settles its request: an ack, a rejection, a response, a failed send, a lost response,
-- or its place in the report of death. None comes up otherwise.
pub handle_client_events-pending_select :
    (es : List Event) (d : DemoClient)
    → (handle_client_events es d).pending_select
      ≡ unless_settled (λ s. results s.request_id es) d.pending_select
unfolding handle_client_events
handle_client_events-pending_select es d =
    let begun : Handling = record { demo = d; next_status = d.status; queue = [] } in
    let h = handle_events es begun in
    run_queue-pending h.queue (record (h.demo) { status = h.next_status })
    ∙ handle_events-left es begun

-- The predicted owner is the client itself while a selection is pending, and else there is none.
abbrev pub IsPredicted : DemoClient → Type 0
IsPredicted d = d.owner.predicted_id ≡ (if is_some d.pending_select then some d.id else none)

set_new_server_state-IsPredicted :
    (state : Option ℕ) (d : DemoClient) → IsPredicted d → IsPredicted (set_new_server_state state d)
unfolding set_new_server_state handle_button_deselect is_predicted
set_new_server_state-IsPredicted state d h = ground arith

run_queue-IsPredicted :
    (q : List Queued) (d : DemoClient) → IsPredicted d → IsPredicted (run_queue q d)
unfolding run_queue handle_button_deselect
run_queue-IsPredicted [] d h = h
run_queue-IsPredicted (deselect_button ∷ q) d h =
    run_queue-IsPredicted q (handle_button_deselect d) refl
run_queue-IsPredicted (new_server_state s ∷ q) d h =
    run_queue-IsPredicted q (set_new_server_state s d) (set_new_server_state-IsPredicted s d h)

handle_event-IsPredicted :
    (e : Event) (h : Handling) → IsPredicted h.demo → IsPredicted (handle_event e h).demo
unfolding handle_event
handle_event-IsPredicted (ClientEvent.report ClientReport.connected) h k = k
handle_event-IsPredicted (ClientEvent.report (ClientReport.is_dead ids)) h k = k
handle_event-IsPredicted (ClientEvent.report _) h k = k
handle_event-IsPredicted (ClientEvent.msg (current x)) h k = k
handle_event-IsPredicted (ClientEvent.ack id) h k = ground arith
handle_event-IsPredicted (ClientEvent.reject id) h k = k
handle_event-IsPredicted (ClientEvent.response _ id) h k = k
handle_event-IsPredicted (ClientEvent.send_failed id) h k = k
handle_event-IsPredicted (ClientEvent.response_lost id) h k = k

handle_events-IsPredicted :
    (es : List Event) (h : Handling) → IsPredicted h.demo → IsPredicted (handle_events es h).demo
unfolding handle_events
handle_events-IsPredicted [] h k = k
handle_events-IsPredicted (e ∷ es) h k =
    let taken = record h { demo = record (h.demo) { client = (next (some e) h.demo.client).0 } } in
    handle_events-IsPredicted es (handle_event e taken) (handle_event-IsPredicted e taken k)

handle_client_events-IsPredicted :
    (es : List Event) (d : DemoClient) → IsPredicted d → IsPredicted (handle_client_events es d)
unfolding handle_client_events
handle_client_events-IsPredicted es d k =
    let begun : Handling = record { demo = d; next_status = d.status; queue = [] } in
    let h = handle_events es begun in
    run_queue-IsPredicted h.queue (record (h.demo) { status = h.next_status })
      (handle_events-IsPredicted es begun k)

handle_button_select-IsPredicted :
    (o : Outside DemoServerMsg (Unit {0})) (serialize : ℕ → Option Bytes) (d : DemoClient)
    → IsPredicted d
    → IsPredicted (handle_button_select o serialize d)
unfolding handle_button_select handle_button_deselect
handle_button_select-IsPredicted o serialize d k = ground arith

-- The demo client as it starts, with a client of this id.
abbrev pub start : ℕ → ClientState DemoServerMsg (Unit {0}) → DemoClient
start id client = record {
  client = client;
  id = id;
  status = connecting;
  pending_select = none;
  owner = record { server_authoritative_id = none; predicted_id = none };
}

-- Frames of the app, in which the client also changes by itself, and presses of the button.
pub data Runs (first : DemoClient) : DemoClient → Type 0 where
  here : Runs first first
  handles :
      (d : DemoClient) (es : List Event) → Runs first d → Runs first (handle_client_events es d)
  presses :
      (d : DemoClient) (o : Outside DemoServerMsg (Unit {0})) (serialize : ℕ → Option Bytes)
      → Runs first d
      → Runs first (handle_button_select o serialize d)
  changes :
      (d : DemoClient) (client : ClientState DemoServerMsg (Unit {0}))
      → Runs first d
      → Runs first (record d { client = client })

Runs-IsPredicted :
    (id : ℕ) (client : ClientState DemoServerMsg (Unit {0})) (d : DemoClient)
    → Runs (start id client) d
    → IsPredicted d
Runs-IsPredicted id client d Runs.here = refl
Runs-IsPredicted id client d (Runs.handles before es r) =
    handle_client_events-IsPredicted es before (Runs-IsPredicted id client before r)
Runs-IsPredicted id client d (Runs.presses before o serialize r) =
    handle_button_select-IsPredicted o serialize before (Runs-IsPredicted id client before r)
Runs-IsPredicted id client d (Runs.changes before client' r) = Runs-IsPredicted id client before r

-- In every run of the demo client, the owner that it displays is itself while a selection is
-- pending, and else the authoritative owner.
pub Runs-display_id :
    (id : ℕ) (client : ClientState DemoServerMsg (Unit {0})) (d : DemoClient)
    → Runs (start id client) d
    → display_id d.owner
      ≡ (if is_some d.pending_select then some d.id else d.owner.server_authoritative_id)
unfolding display_id
Runs-display_id id client d r = let k = Runs-IsPredicted id client d r in ground arith

-- Where the server names an owner and then acknowledges the pending selection, and the client takes
-- both at once, the owner that was named before the ack replaces what the ack made of the
-- prediction: the client displays that owner, and has no selection left.
pub stale_owner :
    (d : DemoClient) (signal : RequestSignal) (x : Option ℕ)
    → d.pending_select ≡ some signal
    → let d' =
        handle_client_events
          (ClientEvent.msg (current x) ∷ ClientEvent.ack signal.request_id ∷ [])
          d in
      (display_id d'.owner ≡ x) × (d'.pending_select ≡ none)
unfolding handle_client_events handle_events handle_event run_queue set_new_server_state
    handle_button_deselect is_predicted equals_request display_id
stale_owner d signal x waits = (ground arith, ground arith)
