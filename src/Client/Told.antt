-- ===== src/Client/Told.antt =====
-- What the events of src/client/client_event.rs say of a request, and what its cell says.
use bevy_simplenet.Common.{
  ℕ, ◌<◌, ◌≡◌, refl, ap, ◌∙◌, List, [], ◌∷◌, map, if◌then◌else◌, ltb, ◌==◌, arith, count, All, inl,
  inr, Bool-cases,
}
use bevy_simplenet.Client.Signal.{Cells, RequestSignal, RequestStatus, Snapshot, inner_status}
use bevy_simplenet.Client.Signal
use bevy_simplenet.Client.State.{ClientEvent}
use bevy_simplenet.Client.Handler.{failure_event}
use bevy_simplenet.Client.Settle.{ids, is_failure, unfailed, settles, results, failures, with_event}
use bevy_simplenet.Client.Cells.{Keeps, IsLost}

module _ {ServerMsg ServerResponse : Type 0} where
  -- The status that an event gives to the requests that it settles.
  abbrev pub outcome : ClientEvent ServerMsg ServerResponse → RequestStatus
  outcome (ClientEvent.response r id) = RequestStatus.responded
  outcome (ClientEvent.ack id) = RequestStatus.acknowledged
  outcome (ClientEvent.reject id) = RequestStatus.rejected
  outcome _ = RequestStatus.response_lost

  -- The status that the first event about a request gives to it, `waiting` without one.
  abbrev pub verdict : ℕ → List (ClientEvent ServerMsg ServerResponse) → RequestStatus
  verdict id [] = RequestStatus.waiting
  verdict id (e ∷ es) = let rest = verdict id es in if ltb 0 (settles id e) then outcome e else rest

  abbrev pub code : ClientEvent ServerMsg ServerResponse → ℕ
  code (ClientEvent.response r id) = 1
  code (ClientEvent.ack id) = 2
  code (ClientEvent.reject id) = 3
  code _ = 4

  code_pos : (e : ClientEvent ServerMsg ServerResponse) → 0 < code e
  code_pos (ClientEvent.response r id) = omega arith
  code_pos (ClientEvent.ack id) = omega arith
  code_pos (ClientEvent.reject id) = omega arith
  code_pos _ = omega arith

  code-outcome : (e : ClientEvent ServerMsg ServerResponse) → inner_status (code e) ≡ outcome e
  code-outcome (ClientEvent.response r id) = refl
  code-outcome (ClientEvent.ack id) = refl
  code-outcome (ClientEvent.reject id) = refl
  code-outcome _ = refl

  -- The cells of the requests that the event settles hold its outcome.
  abbrev pub Tells : Cells → ClientEvent ServerMsg ServerResponse → Type 0
  Tells c e = (id : ℕ) → 0 < settles id e → (id < c.next) × (c.cell id ≡ code e)

  pub Keeps-Tells :
      (c c' : Cells) (e : ClientEvent ServerMsg ServerResponse)
      → Keeps c c'
      → Tells c e
      → Tells c' e
  Keeps-Tells c c' e k t id h =
      let (small, says) = t id h in
      let pos = code_pos e in
      (omega (arith, k.next), k.set id small (λ zero. absurd (omega arith)) ∙ says)

  -- The cell of a request that no event settles is that of a pending one.
  pub verdict-cell :
      (c : Cells) (id : ℕ) (es : List (ClientEvent ServerMsg ServerResponse))
      → All (Tells c) es
      → (results id es ≡ 0 → c.cell id ≡ 0)
      → inner_status (c.cell id) ≡ verdict id es
  verdict-cell c id [] h zero = ap inner_status (zero refl)
  verdict-cell c id (e ∷ es) h zero = elim (Bool-cases (ltb 0 (settles id e))) [
    | inl told ↦ rw told (ap inner_status (h.0 id (ground arith)).1 ∙ code-outcome e)
    | inr silent ↦ rw silent (verdict-cell c id es h.1 (λ none_left. zero (ground arith)))
  ]

  lost-Tells :
      (c : Cells) (st : RequestStatus) (id : ℕ) (es : List (ClientEvent ServerMsg ServerResponse))
      → IsLost c id
      → All (Tells c) es
      → All (Tells c) (with_event (failure_event st id) es)
  unfolding failure_event
  lost-Tells c RequestStatus.send_failed id es lost h = (λ k told. ground arith, h)
  lost-Tells c RequestStatus.response_lost id es lost h = (λ k told. ground arith, h)
  lost-Tells c _ id es lost h = h

pub failures-Tells :
    (ServerMsg ServerResponse : Type 0) (later : Snapshot) (c c' : Cells) (rs : List RequestSignal)
    → All (IsLost c) (ids rs)
    → All (Tells {ServerMsg = ServerMsg} {ServerResponse = ServerResponse} c) (failures later c' rs)
failures-Tells ServerMsg ServerResponse later c c' [] h = tt
failures-Tells ServerMsg ServerResponse later c c' (r ∷ rs) h =
    lost-Tells c (Signal.status later c' r) r.request_id (failures later c' rs) h.0
      (failures-Tells ServerMsg ServerResponse later c c' rs h.1)

pub send_failed-Tells :
    (ServerMsg ServerResponse : Type 0) (c : Cells) (dead : List ℕ)
    → All (IsLost c) dead
    → All
        (Tells {ServerMsg = ServerMsg} {ServerResponse = ServerResponse} c)
        (map ClientEvent.send_failed dead)
send_failed-Tells ServerMsg ServerResponse c [] h = tt
send_failed-Tells ServerMsg ServerResponse c (id ∷ dead) h =
    (λ k told. ground arith, send_failed-Tells ServerMsg ServerResponse c dead h.1)

pub unfailed-IsLost :
    (later : Snapshot) (c c' : Cells) (rs : List RequestSignal)
    → All (IsLost c) (ids rs)
    → All (IsLost c) (unfailed later c' rs)
unfailed-IsLost later c c' [] h = tt
unfailed-IsLost later c c' (r ∷ rs) h =
    let rest = unfailed-IsLost later c c' rs h.1 in
    elim (Bool-cases (is_failure (Signal.status later c' r))) [
      | inl failed ↦ rw failed rest
      | inr left ↦ rw left (h.0, rest)
    ]

pub count-IsLost :
    (c : Cells) (dead : List ℕ) (id : ℕ) → All (IsLost c) dead → 0 < count id dead → IsLost c id
count-IsLost c [] id h n = absurd (omega arith)
count-IsLost c (i ∷ dead) id h n = elim (Bool-cases (i == id)) [
  | inl same ↦ ground arith
  | inr other ↦ count-IsLost c dead id h.1 (ground arith)
]
