-- ===== src/Client/Run.antt =====
-- Runs of a client: the callbacks of src/client/client_handler.rs and the operations of
-- src/client/client.rs, in any order that the socket and the owner choose. The owner holds the
-- client, so the event channel accepts every event; what it yields to `next` is the oldest event
-- not yet received. The callbacks, `send` and `request` hold the lock of the pending requests, and
-- are a step each. `close` holds no lock, and several threads may be in it: its test, its call of
-- the socket, its report and its flag are a step each, between any two of which all others may run.
use bevy_simplenet.Common.{
  ℕ, ◌+◌, ◌^◌, ◌<◌, ◌≡◌, ◌≢◌, true, false, List, [], ◌∷◌, ◌++◌, Option, some,
}
use bevy_simplenet.Common.Bytes.{Bytes}
use bevy_simplenet.Common.Frames.{CloseFrame}
use bevy_simplenet.Authentication.{AuthRequest}
use bevy_simplenet.Protocol.{ClientMetaEvent}
use bevy_simplenet.Client.State.{
  ClientEvent, ClientConfig, ClientState, Outside, Result, ok, err, initial,
}
use bevy_simplenet.Client.Handler.{on_connect, on_connect_fail, on_disconnect, on_close, on_binary}
use bevy_simplenet.Client.Handler
use bevy_simplenet.Client.Api.{
  send, request, next, is_closed, closure_frame, report_close, mark_closed,
}
use bevy_simplenet.Client.Settle.{Accepts}
use bevy_simplenet.Client.Drain.{Terminal}

-- Where the socket stands: between connections, connected, failed, or its handler dropped.
pub data Phase : Type 0 where
  offline online stopped dead : Phase

abbrev pub phase_of {ℓ} : {A : Type ℓ} → Result A → Phase
phase_of (ok _) = online
phase_of (err _) = stopped

-- The state, the events that the owner has received, the socket's phase, how often it went down,
-- and how many calls of `close` have passed its test, have been taken by the socket, and have
-- reported, and are not further yet.
pub record World (ServerMsg ServerResponse : Type 0) : Type 0 where
  pub state : ClientState ServerMsg ServerResponse
  pub received : List (ClientEvent ServerMsg ServerResponse)
  pub phase : Phase
  pub drops : ℕ
  pub checked : ℕ
  pub asked : ℕ
  pub reported : ℕ

module _ {ServerMsg ServerResponse : Type 0} where
  abbrev pub start : World ServerMsg ServerResponse
  start = record {
    state = initial;
    received = [];
    phase = offline;
    drops = 0;
    checked = 0;
    asked = 0;
    reported = 0;
  }

  pub data Step : World ServerMsg ServerResponse → World ServerMsg ServerResponse → Type 0 where
    connects :
        (w : World ServerMsg ServerResponse) (o : Outside ServerMsg ServerResponse)
        (auth : Option Bytes)
        → w.phase ≡ offline
        → Accepts o
        → Step w (record w {
          state = (on_connect o auth w.state).0;
          phase = phase_of (on_connect o auth w.state).1;
        })
    fails_connecting :
        (w : World ServerMsg ServerResponse) (config : ClientConfig) (auth : AuthRequest)
        (o : Outside ServerMsg ServerResponse)
        → w.phase ≡ offline
        → Accepts o
        → Terminal o.statuses o.statuses_later
        → Step w (record w { state = (on_connect_fail config auth o w.state).0 })
    disconnects :
        (w : World ServerMsg ServerResponse) (config : ClientConfig) (auth : AuthRequest)
        (o : Outside ServerMsg ServerResponse)
        → w.phase ≡ online
        → Accepts o
        → Terminal o.statuses o.statuses_later
        → Step w (record w {
          state = (on_disconnect config auth o w.state).0;
          phase = offline;
          drops = w.drops + 1;
        })
    server_closes :
        (w : World ServerMsg ServerResponse) (config : ClientConfig) (auth : AuthRequest)
        (frame : Option CloseFrame) (o : Outside ServerMsg ServerResponse)
        → w.phase ≡ online
        → Accepts o
        → Terminal o.statuses o.statuses_later
        → Step w (record w {
          state = (on_close config auth frame o w.state).0;
          phase = offline;
          drops = w.drops + 1;
        })
    receives :
        (w : World ServerMsg ServerResponse) (o : Outside ServerMsg ServerResponse)
        (m : Option (ClientMetaEvent ServerMsg ServerResponse))
        (s : ClientState ServerMsg ServerResponse) (r : Result (Unit {0}))
        → w.phase ≡ online
        → Accepts o
        → on_binary o m w.state ≡ some (s, r)
        → Step w (record w { state = s })
    dies :
        (w : World ServerMsg ServerResponse) (o : Outside ServerMsg ServerResponse)
        → w.phase ≢ dead
        → Accepts o
        → Step w (record w { state = Handler.drop o w.state; phase = dead; drops = w.drops + 1 })
    sends :
        (w : World ServerMsg ServerResponse) (o : Outside ServerMsg ServerResponse)
        (message : Option Bytes)
        → Step w (record w { state = (send o message w.state).0 })
    -- The id counter does not wrap.
    requests :
        (w : World ServerMsg ServerResponse) (o : Outside ServerMsg ServerResponse)
        (serialize : ℕ → Option Bytes)
        → w.state.tracker.request_counter + 1 < 2 ^ 64
        → Step w (record w { state = (request o serialize w.state).0 })
    begins_closing :
        (w : World ServerMsg ServerResponse)
        → is_closed w.state ≡ false
        → Step w (record w { checked = w.checked + 1 })
    asks_to_close :
        (w : World ServerMsg ServerResponse) (o : Outside ServerMsg ServerResponse) (n : ℕ)
        → w.checked ≡ n + 1
        → o.close (some closure_frame) ≡ true
        → Step w (record w { checked = n; asked = w.asked + 1 })
    fails_to_close :
        (w : World ServerMsg ServerResponse) (o : Outside ServerMsg ServerResponse) (n : ℕ)
        → w.checked ≡ n + 1
        → o.close (some closure_frame) ≡ false
        → Step w (record w { checked = n })
    reports_close :
        (w : World ServerMsg ServerResponse) (o : Outside ServerMsg ServerResponse) (n : ℕ)
        → w.asked ≡ n + 1
        → Accepts o
        → Step w (record w { state = report_close o w.state; asked = n; reported = w.reported + 1 })
    marks_closed :
        (w : World ServerMsg ServerResponse) (n : ℕ)
        → w.reported ≡ n + 1
        → Step w (record w { state = mark_closed w.state; reported = n })
    takes :
        (w : World ServerMsg ServerResponse) (e : ClientEvent ServerMsg ServerResponse)
        (rest : List (ClientEvent ServerMsg ServerResponse))
        → w.state.sent ≡ w.received ++ e ∷ rest
        → Step w (record w { state = (next (some e) w.state).0; received = w.received ++ e ∷ [] })

  -- Any number of steps.
  pub data Runs (w : World ServerMsg ServerResponse) : World ServerMsg ServerResponse → Type 0 where
    here : Runs w w
    more : {v u : World ServerMsg ServerResponse} → Runs w v → Step v u → Runs w u

  abbrev pub Reach : World ServerMsg ServerResponse → Type 0
  Reach w = Runs start w
