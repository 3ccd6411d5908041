-- ===== src/Demo/Told.antt =====
-- What the demo of examples/server/src/main.rs tells its clients, and what it makes of clients that
-- leave.
use bevy_simplenet.Common.{
  ℕ, ◌≡◌, ◌≢◌, refl, sym, ap, ◌∙◌, true, false, List, [], ◌∷◌, ◌++◌, Option, none, some,
  if◌then◌else◌, ◌==◌, arith, append-nil, append_assoc, Bool-cases, Option-cases, inl, inr,
}
use bevy_simplenet.Protocol.{ClientMetaEvent}
use bevy_simplenet.Server.Token.{
  Rejection, ServerReport, ServerEvent, SessionCommand, ClientTargetMsg,
}
use bevy_simplenet.Server.Token
use bevy_simplenet.Server.Api.{Outside, is_dead, call, send}
use bevy_simplenet.Demo.{DemoServerMsg, select, current}
use bevy_simplenet.Demo.Server.{
  Event, DemoServer, App, contains, owner_eq, handle_events, handle_server_events,
  send_new_button_state,
}
use bevy_simplenet.Demo.Owner.{IsFresh, handle_server_events-owner}

abbrev pub Command : Type 0
Command = ClientTargetMsg (Unit {0}) DemoServerMsg (Unit {0})

-- The owner that a command tells a client.
abbrev pub tells : ℕ → Command → Option (Option ℕ)
tells c m = elim m.msg [
  | SessionCommand.send (ClientMetaEvent.msg (current owner)) _ _ ↦
      if m.id == c then some owner else none
  | _ ↦ none
]

-- The last owner that a client is told.
abbrev pub told : ℕ → List Command → Option (Option ℕ)
told c [] = none
told c (m ∷ ms) = elim (told c ms) [ none ↦ tells c m | some owner ↦ some owner ]

abbrev notice : ℕ → Option ℕ → ℕ → Command
notice connections owner c = record {
  id = c;
  msg = SessionCommand.send (ClientMetaEvent.msg (current owner)) (some connections) none;
}

abbrev notices : ℕ → Option ℕ → List ℕ → List Command
notices connections owner [] = []
notices connections owner (c ∷ cs) = notice connections owner c ∷ notices connections owner cs

send_new_button_state-calls :
    (o : Outside) (owner : Option ℕ) (cs : List ℕ) (s : DemoServer)
    → is_dead o ≡ false
    → o.accepts ≡ true
    → (send_new_button_state o owner cs s).calls
      ≡ s.calls ++ notices s.consumed_connection_events owner cs
unfolding send_new_button_state send call
send_new_button_state-calls o owner [] s alive works = sym (append-nil s.calls)
send_new_button_state-calls o owner (c ∷ cs) s alive works =
    let one : send o c (current owner) s
        ≡ record s { calls = s.calls ++ notice s.consumed_connection_events owner c ∷ [] } =
      ground (arith, alive, works) in
    let rest =
      send_new_button_state-calls o owner cs
        (record s { calls = s.calls ++ notice s.consumed_connection_events owner c ∷ [] }) alive
        works in
    ap (λ (t : DemoServer). (send_new_button_state o owner cs t).calls) one
    ∙ (rest ∙ append_assoc s.calls (notice s.consumed_connection_events owner c ∷ []) _)

told-append :
    (c : ℕ) (xs ys : List Command) (owner : Option ℕ)
    → told c ys ≡ some owner
    → told c (xs ++ ys) ≡ some owner
told-append c [] ys owner h = h
told-append c (x ∷ xs) ys owner h = rw (told-append c xs ys owner h) refl

told-notices :
    (c n : ℕ) (owner : Option ℕ) (cs : List ℕ)
    → told c (notices n owner cs) ≡ (if contains c cs then some owner else none)
unfolding contains
told-notices c n owner [] = refl
told-notices c n owner (x ∷ cs) = ground (arith, told-notices c n owner cs)

-- While the server lives and its channel accepts: where the events change the owner, the last that
-- every connected client is told is the new owner.
pub handle_server_events-told :
    (o : Outside) (es : List Event) (app app' : App) (rejections : List Rejection) (c : ℕ)
    → is_dead o ≡ false
    → o.accepts ≡ true
    → handle_server_events o es app ≡ some (app', rejections)
    → app'.button ≢ app.button
    → contains c app'.clients ≡ true
    → told c app'.server.calls ≡ some app'.button
unfolding handle_server_events
handle_server_events-told o es app app' rejections c alive works run changed there =
    elim (Option-cases (
      handle_events o app.button es (record {
        server = app.server;
        clients = app.clients;
        new_button_state = app.button;
        rejections = [];
      }))) [
        | inl panic ↦ absurd (ground (arith, panic, run))
        | inr (h, handled) ↦ elim (Bool-cases (owner_eq h.new_button_state app.button)) [
          | inl same ↦ absurd (
              changed (
                ap (λ (x : App). x.button)
                  (let is : app'
                        ≡ record { server = h.server; clients = h.clients; button = app.button } =
                      ground (arith, run, handled, same) in
                    is)))
          | inr differs ↦
              let is : app' ≡ record {
                server = send_new_button_state o h.new_button_state h.clients h.server;
                clients = h.clients;
                button = h.new_button_state;
              } =
                ground (arith, run, handled, differs) in
              let listed : contains c h.clients ≡ true =
                sym (ap (λ (x : App). contains c x.clients) is) ∙ there in
              rw is (
                rw (send_new_button_state-calls o h.new_button_state h.clients h.server alive works)
                  (told-append c h.server.calls _ h.new_button_state
                    (told-notices c _ h.new_button_state h.clients ∙ rw listed refl)))
        ]
      ]

-- The disconnect of a client counts only for the client that owned the button before all the
-- events at hand. A client that selects the button and then disconnects stays its owner though it is
-- not connected, and where the owner disconnects after another client's selection, that client,
-- though acknowledged and connected, is no owner.
pub departures :
    (o : Outside) (app : App) (a b request_id session : ℕ)
    → a ≢ b
    → app.button ≡ some a
    → contains b app.clients ≡ true
    → let selects : Event = record {
      id = b;
      msg = ServerEvent.request (Token.new b request_id session session) select;
    } in
      let leaves : ℕ → Event =
        λ c. record { id = c; msg = ServerEvent.report ServerReport.disconnected } in
      ((app' : App) × (rejections : List Rejection) × (handle_server_events o
            (selects ∷ leaves b ∷ [])
            app
          ≡ some (app', rejections))
        × (app'.button ≡ some b)
        × (contains b app'.clients ≡ false))
      × ((app' : App) × (rejections : List Rejection) × (handle_server_events o
              (selects ∷ leaves a ∷ [])
              app
            ≡ some (app', rejections))
          × (app'.button ≡ none)
          × (contains b app'.clients ≡ true))
unfolding owner_eq
departures o app a b request_id session differ owned there =
    let selects : Event = record {
      id = b;
      msg = ServerEvent.request (Token.new b request_id session session) select;
    } in
    let leaves : ℕ → Event =
      λ c. record { id = c; msg = ServerEvent.report ServerReport.disconnected } in
    let fresh : IsFresh selects.msg = (b, request_id, session, refl) in
    let (app', r', run, owner, present) =
      handle_server_events-owner o (selects ∷ leaves b ∷ []) app (fresh, (tt, tt)) in
    let (app'', r'', run', owner', present') =
      handle_server_events-owner o (selects ∷ leaves a ∷ []) app (fresh, (tt, tt)) in
    (
      (app', r', run, owner ∙ ground (arith, owned, differ), present b ∙ ground arith),
      (
        app'',
        r'',
        run',
        owner' ∙ ground (arith, owned),
        present' b ∙ ground (arith, there, differ),
      ),
    )
