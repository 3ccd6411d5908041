-- ===== src/Demo/Owner.antt =====
-- Who owns the button after examples/server/src/main.rs has handled its events, and who is connected.
use bevy_simplenet.Common.{
  ℕ, ◌≡◌, refl, sym, ◌∙◌, Bool, true, false, ◌||◌, List, [], ◌∷◌, ◌++◌, Option, none, some,
  if◌then◌else◌, ◌==◌, arith, All, Bool-cases, Option-cases, inl, inr,
}
use bevy_simplenet.Server.Token.{
  Rejection, ServerReport, ServerEvent, ClientSourceMsg, destination_is_dead, take,
}
use bevy_simplenet.Server.Token
use bevy_simplenet.Server.Api.{Outside, ack, answer, next}
use bevy_simplenet.Demo.{DemoClientRequest, select}
use bevy_simplenet.Demo.Server.{
  Event, DemoServer, Handling, App, contains, insert, remove, owner_eq, handle_event, handle_events,
  send_new_button_state, handle_server_events,
}

-- A request that has not been answered, as sessions forward them.
abbrev pub IsFresh : ServerEvent (Unit {0}) (Unit {0}) DemoClientRequest → Type 0
IsFresh (ServerEvent.request token _) =
    (client : ℕ) × (request_id : ℕ) × (session : ℕ) × (token
      ≡ Token.new client request_id session session)
IsFresh (ServerEvent.msg _) = Unit
IsFresh (ServerEvent.report _) = Unit

-- What one event decides: a selection makes its client the owner, and the disconnect of the client
-- that owned the button at the beginning leaves none.
abbrev pub decision :
    Option ℕ → ℕ → ServerEvent (Unit {0}) (Unit {0}) DemoClientRequest → Option (Option ℕ)
decision state id (ServerEvent.request _ _) = some (some id)
decision state id (ServerEvent.msg _) = none
decision state id (ServerEvent.report (ServerReport.connected _ _)) = none
decision state id (ServerEvent.report ServerReport.disconnected) =
    if owner_eq state (some id) then some none else none

-- The last value that a function has on a list.
abbrev pub last_of {ℓ} : {A : Type ℓ} → (Event → Option A) → List Event → Option A
last_of f [] = none
last_of f (e ∷ es) = elim (last_of f es) [ none ↦ f e | some a ↦ some a ]

abbrev pub or_else {ℓ} : {A : Type ℓ} → A → Option A → A
or_else a none = a
or_else a (some b) = b

-- What one event reports of a client.
abbrev pub reported : ℕ → ℕ → ServerEvent (Unit {0}) (Unit {0}) DemoClientRequest → Option Bool
reported c id (ServerEvent.request _ _) = none
reported c id (ServerEvent.msg _) = none
reported c id (ServerEvent.report (ServerReport.connected _ _)) =
    if id == c then some true else none
reported c id (ServerEvent.report ServerReport.disconnected) = if id == c then some false else none

contains-insert : (c k : ℕ) (xs : List ℕ) → contains c (insert k xs) ≡ (k == c || contains c xs)
unfolding contains insert
contains-insert c k xs = ground arith

contains-remove :
    (c k : ℕ) (xs : List ℕ) → contains c (remove k xs) ≡ (if k == c then false else contains c xs)
unfolding contains remove
contains-remove c k [] = ground arith
contains-remove c k (x ∷ xs) = ground (arith, contains-remove c k xs)

ack-fresh :
    (o : Outside) (client request_id session : ℕ) (s : DemoServer)
    → (p : DemoServer × List Rejection) × (ack o (Token.new client request_id session session) s
        ≡ some p)
unfolding ack answer Token.new Token.drop destination_is_dead take
ack-fresh o client request_id session s =
    elim (Option-cases (ack o (Token.new client request_id session session) s)) [
      | inl panic ↦ absurd (ground (arith, panic))
      | inr found ↦ found
    ]

-- From `h` to `h'`, with what is decided and what is reported of each client.
abbrev Handles : Handling → Handling → Option (Option ℕ) → (ℕ → Option Bool) → Type 0
Handles h h' decided reports =
    (h'.new_button_state ≡ or_else h.new_button_state decided)
    × ((c : ℕ) → contains c h'.clients ≡ or_else (contains c h.clients) (reports c))

handle_event-Handles :
    (o : Outside) (state : Option ℕ) (id : ℕ)
    (msg : ServerEvent (Unit {0}) (Unit {0}) DemoClientRequest) (h : Handling)
    → IsFresh msg
    → (h' : Handling) × (handle_event o state id msg h ≡ some h')
      × Handles h h' (decision state id msg) (λ c. reported c id msg)
unfolding handle_event
handle_event-Handles o state id (ServerEvent.report (ServerReport.connected env m)) h fresh =
    (_, refl, (refl, λ c. ground (arith, contains-insert c id h.clients)))
handle_event-Handles o state id (ServerEvent.report ServerReport.disconnected) h fresh =
    (_, refl, (ground arith, λ c. ground (arith, contains-remove c id h.clients)))
handle_event-Handles o state id (ServerEvent.msg m) h fresh = (h, refl, (refl, λ c. refl))
handle_event-Handles o state id (ServerEvent.request token select) h (client, r, session, is) =
    let ((server, rejections), acked) = ack-fresh o client r session h.server in
    (
      record h {
        server = server;
        new_button_state = some id;
        rejections = h.rejections ++ rejections;
      },
      ground (arith, is, acked),
      (refl, λ c. refl),
    )

-- The last decision and the last report of a client among events.
abbrev pub last_decision : Option ℕ → List Event → Option (Option ℕ)
last_decision state es = last_of (λ e. decision state e.id e.msg) es

abbrev pub last_report : ℕ → List Event → Option Bool
last_report c es = last_of (λ e. reported c e.id e.msg) es

or_else-last_of :
    {A : Type 0} (f : Event → Option A) (a b : A) (e : Event) (es : List Event)
    → b ≡ or_else a (f e)
    → or_else b (last_of f es) ≡ or_else a (last_of f (e ∷ es))
or_else-last_of f a b e es h = elim (Option-cases (last_of f es)) [
  | inl nothing ↦ rw nothing h
  | inr (x, found) ↦ rw found refl
]

handle_events-Handles :
    (o : Outside) (state : Option ℕ) (es : List Event) (h : Handling)
    → All (λ (e : Event). IsFresh e.msg) es
    → (h' : Handling) × (handle_events o state es h ≡ some h')
      × Handles h h' (last_decision state es) (λ c. last_report c es)
unfolding handle_events
handle_events-Handles o state [] h fresh = (h, refl, (refl, λ c. refl))
handle_events-Handles o state (e ∷ es) h fresh =
    let seen = record h { server = (next (some e) h.server).0 } in
    let (h', first, (decided, reports)) = handle_event-Handles o state e.id e.msg seen fresh.0 in
    let (h'', rest, (decided', reports')) = handle_events-Handles o state es h' fresh.1 in
    (
      h'',
      ground (arith, first, rest),
      (
        decided' ∙ or_else-last_of _ h.new_button_state h'.new_button_state e es decided,
        λ c.
            reports' c
            ∙ or_else-last_of _ (contains c h.clients) (contains c h'.clients) e es (reports c),
      ),
    )

owner_eq_sound : (a b : Option ℕ) → owner_eq a b ≡ true → a ≡ b
unfolding owner_eq
owner_eq_sound none none h = refl
owner_eq_sound (some a) (some b) h = ground arith
owner_eq_sound none (some b) h = absurd (ground (arith, h))
owner_eq_sound (some a) none h = absurd (ground (arith, h))

-- With fresh requests, the system never panics. The last selection among the events, or disconnect
-- of the client that owned the button before all of them, decides the owner, which without one
-- stays. A client counts as connected by the last report of it, and without one as before.
pub handle_server_events-owner :
    (o : Outside) (es : List Event) (app : App)
    → All (λ (e : Event). IsFresh e.msg) es
    → (app' : App) × (rejections : List Rejection) × (handle_server_events o es app
        ≡ some (app', rejections))
      × (app'.button ≡ or_else app.button (last_decision app.button es))
      × ((c : ℕ) → contains c app'.clients ≡ or_else (contains c app.clients) (last_report c es))
unfolding handle_server_events
handle_server_events-owner o es app fresh =
    let begun : Handling = record {
      server = app.server;
      clients = app.clients;
      new_button_state = app.button;
      rejections = [];
    } in
    let (h, handled, (decided, reports)) = handle_events-Handles o app.button es begun fresh in
    elim (Bool-cases (owner_eq h.new_button_state app.button)) [
      | inl same ↦
          let kept = owner_eq_sound h.new_button_state app.button same in
          (
            record { server = h.server; clients = h.clients; button = app.button },
            h.rejections,
            ground (arith, handled, same),
            sym kept ∙ decided,
            reports,
          )
      | inr changed ↦ (
        record {
          server = send_new_button_state o h.new_button_state h.clients h.server;
          clients = h.clients;
          button = h.new_button_state;
        },
        h.rejections,
        ground (arith, handled, changed),
        decided,
        reports,
      )
    ]
