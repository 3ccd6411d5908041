-- ===== src/Client/Api.antt =====
-- src/client/client.rs: the public operations.
use bevy_simplenet.Common.{
  ℕ, ◌+◌, ◌-◌, ◌%◌, ◌^◌, ◌==◌, Bool, true, not, ◌&&◌, ◌||◌, Option, none, some, if◌then◌else◌,
}
use bevy_simplenet.Common.Bytes.{Bytes}
use bevy_simplenet.Common.Frames.{CloseFrame, CloseCode}
use bevy_simplenet.Client.Signal.{MessageSignal, MessageStatus, RequestSignal, fresh, socket}
use bevy_simplenet.Client.Signal
use bevy_simplenet.Client.Tracker
use bevy_simplenet.Client.State.{
  ClientReport, ClientEvent, ClientState, Outside, send_event, send_binary,
}

-- `MessageSignal::new(MessageStatus::Failed)`.
abbrev failed_signal : MessageSignal
failed_signal = fresh MessageStatus.failed

-- The signal for what the socket answers.
abbrev socket_signal : Option ℕ → MessageSignal
socket_signal none = failed_signal
socket_signal (some n) = socket n

abbrev pub closure_frame : CloseFrame
closure_frame = record { code = CloseCode.normal; reason = "client done" }

module _ {ServerMsg ServerResponse : Type 0} where
  unfoldable pub is_dead : ClientState ServerMsg ServerResponse → Bool
  is_dead s = s.client_closed_signal

  unfoldable pub is_closed : ClientState ServerMsg ServerResponse → Bool
  unfolding is_dead
  is_closed s = s.closed_by_self || is_dead s

  unfoldable pub is_connected : ClientState ServerMsg ServerResponse → Bool
  unfolding is_closed
  is_connected s = s.client_disconnected_count == 0 && not (is_closed s)

  -- The message handed to the socket, if it can be serialized.
  unfoldable pub forward :
      Outside ServerMsg ServerResponse
      → Option Bytes
      → ClientState ServerMsg ServerResponse
      → ClientState ServerMsg ServerResponse × MessageSignal
  forward o none s = (s, failed_signal)
  forward o (some ser_msg) s =
      let (s', answer) = send_binary o ser_msg s in (s', socket_signal answer)

  -- `send`, with the serialized message, `none` where serializing fails.
  unfoldable pub send :
      Outside ServerMsg ServerResponse
      → Option Bytes
      → ClientState ServerMsg ServerResponse
      → ClientState ServerMsg ServerResponse × MessageSignal
  unfolding forward
  send o ser_msg s =
      if s.poisoned
      then (s, failed_signal)
      else if is_connected s
      then forward o ser_msg s
      else (s, failed_signal)

  -- `pending_requests.add_request` within the lock.
  unfoldable pub add_pending :
      ℕ
      → ClientState ServerMsg ServerResponse × MessageSignal
      → ClientState ServerMsg ServerResponse × RequestSignal
  add_pending id (s, message_signal) =
      let (tracker, cells, signal) = Tracker.add_request s.tracker s.cells id message_signal in
      (record s { tracker = tracker; cells = cells }, signal)

  -- `request`. The serialized request depends on the id that is reserved for it.
  unfoldable pub request :
      Outside ServerMsg ServerResponse
      → (ℕ → Option Bytes)
      → ClientState ServerMsg ServerResponse
      → ClientState ServerMsg ServerResponse × RequestSignal
  unfolding forward add_pending
  request o serialize s =
      if s.poisoned
      then (let (cells, signal) = Signal.new s.cells (2 ^ 64 - 1) failed_signal in
          (record s { cells = cells }, signal))
      else (let (tracker, id) = Tracker.reserve_id s.tracker in
          let s' = record s { tracker = tracker } in
          add_pending id
            (if is_connected s' then forward o (serialize id) s' else (s', failed_signal)))

  -- `next`, with the event that `try_recv` yields.
  unfoldable pub next :
      Option (ClientEvent ServerMsg ServerResponse)
      → ClientState ServerMsg ServerResponse
      → ClientState ServerMsg ServerResponse × Option (ClientEvent ServerMsg ServerResponse)
  next (some (ClientEvent.report ClientReport.connected)) s = (
    record s { client_disconnected_count = (s.client_disconnected_count + 2 ^ 16 - 1) % 2 ^ 16 },
    some (ClientEvent.report ClientReport.connected),
  )
  next received s = (s, received)

  -- What `close` does once the socket has taken the close: it tells the owner, and only then sets
  -- the flag.
  unfoldable pub report_close :
      Outside ServerMsg ServerResponse
      → ClientState ServerMsg ServerResponse
      → ClientState ServerMsg ServerResponse
  report_close o s = (send_event o (ClientEvent.report ClientReport.closed_by_self) s).0

  unfoldable pub mark_closed :
      ClientState ServerMsg ServerResponse → ClientState ServerMsg ServerResponse
  mark_closed s = record s { closed_by_self = true }

  unfoldable pub close :
      Outside ServerMsg ServerResponse
      → ClientState ServerMsg ServerResponse
      → ClientState ServerMsg ServerResponse
  unfolding report_close mark_closed
  close o s =
      if is_closed s
      then s
      else if o.close (some closure_frame)
      then mark_closed (report_close o s)
      else s

  -- `Drop` of the client.
  unfoldable pub drop :
      Outside ServerMsg ServerResponse
      → ClientState ServerMsg ServerResponse
      → ClientState ServerMsg ServerResponse
  drop o s = if is_dead s then s else close o s
