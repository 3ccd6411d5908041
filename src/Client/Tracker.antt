-- ===== src/Client/Tracker.antt =====
-- src/client/pending_request_tracker.rs. The hash map is an association list, whose order stands
-- for the order of iteration.
use bevy_simplenet.Common.{ℕ, ◌+◌, ◌%◌, ◌^◌, Bool, true, false, List, [], ◌∷◌, Option, none, some}
use bevy_simplenet.Common.Map.{lookup, remove, insert}
use bevy_simplenet.Client.Signal.{
  Cells, MessageSignal, MessageStatus, RequestSignal, RequestStatus, Snapshot, message_status,
  set_lost,
}
use bevy_simplenet.Client.Signal

pub record PendingRequestTracker : Type 0 where
  pub request_counter : ℕ  -- u64
  pub pending_requests : List (ℕ × RequestSignal)

unfoldable pub default : PendingRequestTracker
default = record { request_counter = 0; pending_requests = [] }

unfoldable pub reserve_id : PendingRequestTracker → PendingRequestTracker × ℕ
reserve_id t = (record t { request_counter = (t.request_counter + 1) % 2 ^ 64 }, t.request_counter)

unfoldable pub add_request :
    PendingRequestTracker
    → Cells
    → ℕ
    → MessageSignal
    → PendingRequestTracker × Cells × RequestSignal
add_request t cells id message_signal =
    let (cells', signal) = Signal.new cells id message_signal in
    (record t { pending_requests = insert id signal t.pending_requests }, cells', signal)

-- `none` is the panic of `set`.
unfoldable pub set_status_and_remove :
    PendingRequestTracker
    → Cells
    → ℕ
    → RequestStatus
    → Option (PendingRequestTracker × Cells × Bool)
set_status_and_remove t cells id st = elim (lookup id t.pending_requests) [
  | none ↦ some (t, cells, false)
  | some signal ↦ elim (Signal.set cells signal.request_signal st) [
    | none ↦ none
    | some cells' ↦
        some (record t { pending_requests = remove id t.pending_requests }, cells', true)
  ]
]

-- `signal.status() == RequestStatus::Sending`, which only the message's status decides.
abbrev pub is_sending : RequestStatus → Bool
is_sending RequestStatus.sending = true
is_sending _ = false

-- The loop of `retain`: the store, what stays, and what is drained.
unfoldable pub drain_loop :
    Snapshot
    → Cells
    → List (ℕ × RequestSignal)
    → Cells × List (ℕ × RequestSignal) × List RequestSignal
drain_loop now cells [] = (cells, [], [])
drain_loop now cells ((k, signal) ∷ m) =
    let keep = is_sending (Signal.status now cells signal) in
    let rest = drain_loop now (elim keep [ true ↦ cells | false ↦ set_lost cells signal ]) m in
    elim keep [
      | true ↦ (rest.0, (k, signal) ∷ rest.1, rest.2)
      | false ↦ (rest.0, rest.1, signal ∷ rest.2)
    ]

unfoldable pub drain_failed_requests :
    Snapshot → PendingRequestTracker → Cells → PendingRequestTracker × Cells × List RequestSignal
drain_failed_requests now t cells =
    let (cells', kept, drained) = drain_loop now cells t.pending_requests in
    (record t { pending_requests = kept }, cells', drained)

-- The loop of `retain` that keeps nothing.
unfoldable pub abort_loop : Cells → List (ℕ × RequestSignal) → Cells × List RequestSignal
abort_loop cells [] = (cells, [])
abort_loop cells ((k, signal) ∷ m) =
    let (cells', drained) = abort_loop (set_lost cells signal) m in (cells', signal ∷ drained)

unfoldable pub abort_all :
    PendingRequestTracker → Cells → PendingRequestTracker × Cells × List RequestSignal
abort_all t cells =
    let (cells', drained) = abort_loop cells t.pending_requests in
    (record t { pending_requests = [] }, cells', drained)

-- `Drop`: every request still pending is set to lost.
unfoldable pub drop_loop : Cells → List (ℕ × RequestSignal) → Cells
drop_loop cells [] = cells
drop_loop cells ((_, signal) ∷ m) = drop_loop (set_lost cells signal) m

unfoldable pub drop : PendingRequestTracker → Cells → Cells
unfolding drop_loop
drop t cells = drop_loop cells t.pending_requests
