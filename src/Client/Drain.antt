-- ===== src/Client/Drain.antt =====
-- What the drains of src/client/pending_request_tracker.rs keep and give out, and that a drained
-- request has a failure event.
use bevy_simplenet.Common.{
  ℕ, ◌+◌, ◌≡◌, ◌≢◌, refl, true, false, List, [], ◌∷◌, if◌then◌else◌, ◌==◌, arith, count, All, inl,
  inr, Bool-cases,
}
use bevy_simplenet.Common.Map.{keys}
use bevy_simplenet.Client.Signal.{
  Cells, MessageSignal, MessageStatus, RequestSignal, RequestStatus, Snapshot, message_status,
  set_lost, write,
}
use bevy_simplenet.Client.Signal
use bevy_simplenet.Client.Tracker.{drain_loop, abort_loop, is_sending}
use bevy_simplenet.Client.State.{ClientEvent}
use bevy_simplenet.Client.Handler.{failure_event}
use bevy_simplenet.Client.Settle.{ids, Keyed, is_failure, unfailed, results, failures, with_event}

-- A message that is sent or failed stays so.
abbrev pub Terminal : Snapshot → Snapshot → Type 0
Terminal now later = (n : ℕ) → now n ≢ MessageStatus.sending → later n ≡ now n

pub drain_loop-count :
    (now : Snapshot) (c : Cells) (m : List (ℕ × RequestSignal)) (k : ℕ)
    → Keyed m
    → count k (keys (drain_loop now c m).1) + count k (ids (drain_loop now c m).2)
      ≡ count k (keys m)
unfolding drain_loop
drain_loop-count now c [] k h = refl
drain_loop-count now c ((j, r) ∷ m) k h =
    ground (arith, drain_loop-count now c m k h.1, drain_loop-count now (set_lost c r) m k h.1)

pub drain_loop-Keyed :
    (now : Snapshot) (c : Cells) (m : List (ℕ × RequestSignal))
    → Keyed m
    → Keyed (drain_loop now c m).1
unfolding drain_loop
drain_loop-Keyed now c [] h = tt
drain_loop-Keyed now c ((j, r) ∷ m) h =
    ground (arith, drain_loop-Keyed now c m h.1, drain_loop-Keyed now (set_lost c r) m h.1)

pub abort_loop-count :
    (c : Cells) (m : List (ℕ × RequestSignal)) (k : ℕ)
    → Keyed m
    → count k (ids (abort_loop c m).1) ≡ count k (keys m)
unfolding abort_loop
abort_loop-count c [] k h = refl
abort_loop-count c ((j, r) ∷ m) k h = ground (arith, abort_loop-count (set_lost c r) m k h.1)

-- A cell that holds the code of a lost response keeps it.
drain_loop-cell :
    (now : Snapshot) (c : Cells) (m : List (ℕ × RequestSignal)) (a : ℕ)
    → c.cell a ≡ 4
    → (drain_loop now c m).0.cell a ≡ 4
unfolding drain_loop set_lost
drain_loop-cell now c [] a h = h
drain_loop-cell now c ((j, r) ∷ m) a h =
    ground (arith, drain_loop-cell now c m a h, drain_loop-cell now (set_lost c r) m a)

-- Drained: the message was not sending, and the cell is set.
abbrev pub IsLost : Snapshot → Cells → RequestSignal → Type 0
IsLost now c r =
    (message_status now r.message_signal ≢ MessageStatus.sending) × (c.cell r.request_signal ≡ 4)

not_sending :
    (now : Snapshot) (c : Cells) (r : RequestSignal)
    → is_sending (Signal.status now c r) ≡ false
    → message_status now r.message_signal ≢ MessageStatus.sending
unfolding Signal.status
not_sending now c r h e = ground arith

pub drain_loop-keep :
    (now : Snapshot) (c : Cells) (k : ℕ) (r : RequestSignal) (m : List (ℕ × RequestSignal))
    → is_sending (Signal.status now c r) ≡ true
    → drain_loop now c ((k, r) ∷ m)
      ≡ ((drain_loop now c m).0, (k, r) ∷ (drain_loop now c m).1, (drain_loop now c m).2)
unfolding drain_loop
drain_loop-keep now c k r m e = ground arith

pub drain_loop-lose :
    (now : Snapshot) (c : Cells) (k : ℕ) (r : RequestSignal) (m : List (ℕ × RequestSignal))
    → is_sending (Signal.status now c r) ≡ false
    → drain_loop now c ((k, r) ∷ m) ≡ (
      (drain_loop now (set_lost c r) m).0,
      (drain_loop now (set_lost c r) m).1,
      r ∷ (drain_loop now (set_lost c r) m).2,
    )
unfolding drain_loop
drain_loop-lose now c k r m e = ground arith

pub drain_loop-IsLost :
    (now : Snapshot) (c : Cells) (m : List (ℕ × RequestSignal))
    → All (IsLost now (drain_loop now c m).0) (drain_loop now c m).2
drain_loop-IsLost now c [] = unfold drain_loop in tt
drain_loop-IsLost now c ((j, r) ∷ m) = elim (Bool-cases (is_sending (Signal.status now c r))) [
  | inl e ↦ rw (drain_loop-keep now c j r m e) (drain_loop-IsLost now c m)
  | inr e ↦ rw (drain_loop-lose now c j r m e) (
    (
      not_sending now c r e,
      drain_loop-cell now (set_lost c r) m r.request_signal (unfold set_lost in ground arith),
    ),
    drain_loop-IsLost now (set_lost c r) m,
  )
]

-- A message signal, once sent or failed, keeps its status.
Terminal-message :
    (now later : Snapshot) (s : MessageSignal)
    → Terminal now later
    → message_status now s ≢ MessageStatus.sending
    → message_status later s ≡ message_status now s
Terminal-message now later (MessageSignal.fresh st) t h = refl
Terminal-message now later (MessageSignal.socket n) t h = t n h

lost_status :
    (later : Snapshot) (c : Cells) (r : RequestSignal) (st : MessageStatus)
    → message_status later r.message_signal ≡ st
    → st ≢ MessageStatus.sending
    → c.cell r.request_signal ≡ 4
    → is_failure (Signal.status later c r) ≡ true
unfolding Signal.status
lost_status later c r MessageStatus.sending e h lost = absurd (h refl)
lost_status later c r MessageStatus.sent e h lost = rw (e, Signal.status, lost)
lost_status later c r MessageStatus.failed e h lost = rw (e, Signal.status)

IsLost-is_failure :
    (now later : Snapshot) (c : Cells) (r : RequestSignal)
    → Terminal now later
    → IsLost now c r
    → is_failure (Signal.status later c r) ≡ true
IsLost-is_failure now later c r t h =
    lost_status later c r _ (Terminal-message now later r.message_signal t h.0) h.0 h.1

pub unfailed_drained :
    (now later : Snapshot) (c : Cells) (rs : List RequestSignal)
    → Terminal now later
    → All (IsLost now c) rs
    → unfailed later c rs ≡ []
unfailed_drained now later c [] t h = refl
unfailed_drained now later c (r ∷ rs) t h =
    rw (IsLost-is_failure now later c r t h.0) (unfailed_drained now later c rs t h.1)

module _ {ServerMsg ServerResponse : Type 0} where
  with_event-results :
      (k id : ℕ) (st : RequestStatus) (es : List (ClientEvent ServerMsg ServerResponse))
      (u : List ℕ)
      → results k (with_event (failure_event st id) es)
          + count k (if is_failure st then u else id ∷ u)
        ≡ (if id == k then 1 else 0) + (results k es + count k u)
  unfolding failure_event
  with_event-results k id RequestStatus.send_failed es u = omega arith
  with_event-results k id _ es u = omega arith

-- Of drained requests, each has one failure event or is left over.
pub failures-unfailed :
    (ServerMsg ServerResponse : Type 0) (k : ℕ) (later : Snapshot) (c : Cells)
    (rs : List RequestSignal)
    → results {ServerMsg = ServerMsg} {ServerResponse = ServerResponse} k (failures later c rs)
        + count k (unfailed later c rs)
      ≡ count k (ids rs)
failures-unfailed ServerMsg ServerResponse k later c [] = refl
failures-unfailed ServerMsg ServerResponse k later c (r ∷ rs) = omega (
  arith,
  failures-unfailed ServerMsg ServerResponse k later c rs,
  with_event-results {ServerMsg = ServerMsg} {ServerResponse = ServerResponse} k r.request_id
      (Signal.status later c r) (failures later c rs) (unfailed later c rs),
)
