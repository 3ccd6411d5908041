-- ===== src/Client/Signal.antt =====
-- src/client/request_signal.rs. The atomics behind request signals are cells of a store, so that
-- the clones of a signal share one. The status of a message that is handed to the socket changes
-- outside of this code: it is read in a snapshot of all such statuses.
use bevy_simplenet.Common.{
  ℕ, zero, suc, ◌+◌, ◌≡◌, ◌==◌, if◌then◌else◌, Option, none, some, arith, refl,
}

-- `ezsockets::MessageStatus`.
pub data MessageStatus : Type 0 where
  sending sent failed : MessageStatus

-- A signal made by `MessageSignal::new`, which keeps its status, or one that the socket hands out.
pub data MessageSignal : Type 0 where
  fresh : MessageStatus → MessageSignal
  socket : ℕ → MessageSignal

-- The statuses of the socket's signals at one moment.
abbrev pub Snapshot : Type 0
Snapshot = ℕ → MessageStatus

abbrev pub message_status : Snapshot → MessageSignal → MessageStatus
message_status now (fresh s) = s
message_status now (socket n) = now n

pub data RequestStatus : Type 0 where
  sending waiting responded acknowledged rejected send_failed response_lost : RequestStatus

-- The store of `AtomicU8` cells.
pub record Cells : Type 0 where
  pub cell : ℕ → ℕ
  pub next : ℕ

unfoldable pub write : Cells → ℕ → ℕ → Cells
write c address value = record c { cell = λ a. if address == a then value else c.cell a }

-- `RequestSignalInner::status`.
abbrev pub inner_status : ℕ → RequestStatus
inner_status zero = waiting
inner_status (suc zero) = responded
inner_status (suc (suc zero)) = acknowledged
inner_status (suc (suc (suc zero))) = rejected
inner_status _ = response_lost

-- The value that `RequestSignalInner::set` stores; `none` is its panic.
abbrev pub inner_code : RequestStatus → Option ℕ
inner_code waiting = some 0
inner_code responded = some 1
inner_code acknowledged = some 2
inner_code rejected = some 3
inner_code response_lost = some 4
inner_code _ = none

pub record RequestSignal : Type 0 where
  pub request_id : ℕ
  pub message_signal : MessageSignal
  pub request_signal : ℕ

-- `RequestSignalInner::set`.
unfoldable pub set : Cells → ℕ → RequestStatus → Option Cells
unfolding write
set c address state = elim (inner_code state) [
  | none ↦ none
  | some value ↦ some (write c address value)
]

-- `RequestSignal::new`, with a new cell at 0.
unfoldable pub new : Cells → ℕ → MessageSignal → Cells × RequestSignal
unfolding write
new c id message_signal = (
  record (write c c.next 0) { next = c.next + 1 },
  record { request_id = id; message_signal = message_signal; request_signal = c.next },
)

-- `RequestSignal::status`.
unfoldable pub status : Snapshot → Cells → RequestSignal → RequestStatus
status now c s = elim (message_status now s.message_signal) [
  | MessageStatus.sending ↦ RequestStatus.sending
  | MessageStatus.sent ↦ inner_status (c.cell s.request_signal)
  | MessageStatus.failed ↦ send_failed
]

-- `set(RequestStatus::ResponseLost)`, which does not panic.
unfoldable pub set_lost : Cells → RequestSignal → Cells
unfolding write
set_lost c s = write c s.request_signal 4

pub set-set_lost :
    (c : Cells) (s : RequestSignal) → set c s.request_signal response_lost ≡ some (set_lost c s)
unfolding set set_lost
set-set_lost c s = refl

-- A status that is set, without a panic, is read back through the signal if the message is sent.
pub set-status :
    (now : Snapshot) (c : Cells) (s : RequestSignal) (st : RequestStatus) {c' : Cells}
    → message_status now s.message_signal ≡ MessageStatus.sent
    → set c s.request_signal st ≡ some c'
    → status now c' s ≡ st
unfolding set status
set-status now c s st arrived e = ground arith
