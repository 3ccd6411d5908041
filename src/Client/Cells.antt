-- ===== src/Client/Cells.antt =====
-- How the cells behind the request signals of src/client/request_signal.rs stand to the tracker of
-- src/client/pending_request_tracker.rs, in runs where a request's cell has the request's id.
use bevy_simplenet.Common.{
  ℕ, ◌+◌, ◌<◌, ◌≤◌, ◌≡◌, ◌≢◌, refl, sym, ap, ◌∙◌, List, [], some, ◌∷◌, if◌then◌else◌, ◌==◌, arith,
  count, All, inl, inr, Bool-cases,
}
use bevy_simplenet.Common.Map.{keys, remove, lookup, count-keys-remove}
use bevy_simplenet.Client.Signal.{Cells, RequestSignal, Snapshot, set_lost, write}
use bevy_simplenet.Client.Signal
use bevy_simplenet.Client.Tracker.{drain_loop, abort_loop, is_sending}
use bevy_simplenet.Client.Settle.{ids, Keyed}
use bevy_simplenet.Client.Drain.{drain_loop-keep, drain_loop-lose}

-- Each pending request has the cell of its id, which is untouched, and stands there once.
abbrev pub Waiting : Cells → List (ℕ × RequestSignal) → Type 0
Waiting c [] = Unit
Waiting c ((k, r) ∷ m) =
    ((r.request_signal ≡ k) × (k < c.next) × (c.cell k ≡ 0) × (count k (keys m) ≡ 0)) × Waiting c m

-- The cells that are set stay as they are, and no cell is taken away.
pub record Keeps (c c' : Cells) : Type 0 where
  pub next : c.next ≤ c'.next
  pub set : (a : ℕ) → a < c.next → c.cell a ≢ 0 → c'.cell a ≡ c.cell a

-- The cell of an id that is lost.
abbrev pub IsLost : Cells → ℕ → Type 0
IsLost c id = (id < c.next) × (c.cell id ≡ 4)

pub Waiting-write :
    (c : Cells) (m : List (ℕ × RequestSignal)) (a v : ℕ)
    → count a (keys m) ≡ 0
    → Waiting c m
    → Waiting (write c a v) m
unfolding write
Waiting-write c [] a v h w = tt
Waiting-write c ((k, r) ∷ m) a v h ((own, small, zero, once), w) =
    ((own, small, ground arith, once), Waiting-write c m a v (ground arith) w)

-- A cell that is set is that of no pending request.
pub Waiting-absent :
    (c : Cells) (m : List (ℕ × RequestSignal)) (a : ℕ)
    → Waiting c m
    → c.cell a ≢ 0
    → count a (keys m) ≡ 0
Waiting-absent c [] a w set = refl
Waiting-absent c ((k, r) ∷ m) a ((own, small, zero, once), w) set =
    let rest = Waiting-absent c m a w set in ground arith

pub Waiting-small :
    (c : Cells) (m : List (ℕ × RequestSignal)) (a : ℕ)
    → Waiting c m
    → c.next ≤ a
    → count a (keys m) ≡ 0
Waiting-small c [] a w h = refl
Waiting-small c ((k, r) ∷ m) a ((own, small, zero, once), w) h =
    let rest = Waiting-small c m a w h in ground arith

pub Waiting-remove :
    (c : Cells) (m : List (ℕ × RequestSignal)) (k : ℕ) → Waiting c m → Waiting c (remove k m)
unfolding remove
Waiting-remove c [] k w = tt
Waiting-remove c ((j, r) ∷ m) k ((own, small, zero, once), w) =
    let rest = Waiting-remove c m k w in
    let left = count-keys-remove k j m in
    elim (Bool-cases (j == k)) [
      | inl same ↦ rw same rest
      | inr other ↦ rw other ((own, small, zero, ground arith), rest)
    ]

lost-Waiting :
    (c : Cells) (k : ℕ) (r : RequestSignal) (m : List (ℕ × RequestSignal))
    → r.request_signal ≡ k
    → count k (keys m) ≡ 0
    → Waiting c m
    → Waiting (set_lost c r) m
unfolding set_lost
lost-Waiting c k r m own once w = Waiting-write c m r.request_signal 4 (rw own once) w

lost-other :
    (c : Cells) (k : ℕ) (r : RequestSignal) (rest a : ℕ)
    → r.request_signal ≡ k
    → (if k == a then 1 else 0) + rest ≡ 0
    → (set_lost c r).cell a ≡ c.cell a
unfolding set_lost write
lost-other c k r rest a own h = ground arith

lost-next : (c : Cells) (r : RequestSignal) → (set_lost c r).next ≡ c.next
unfolding set_lost write
lost-next c r = refl

lost-cell : (c : Cells) (r : RequestSignal) → (set_lost c r).cell r.request_signal ≡ 4
unfolding set_lost write
lost-cell c r = ground arith

-- What a drain makes of the cells and the map: it touches the cells of requests that it takes out
-- and no others, and those are lost.
pub record Drained (c c' : Cells) (m kept : List (ℕ × RequestSignal)) (taken : List RequestSignal)
    : Type 0 where
  pub next : c'.next ≡ c.next
  pub other : (a : ℕ) → count a (keys m) ≡ 0 → c'.cell a ≡ c.cell a
  pub fewer : (a : ℕ) → count a (keys kept) ≤ count a (keys m)
  pub waiting : Waiting c' kept
  pub lost : All (IsLost c') (ids taken)

Drained-keep :
    (c c' : Cells) (k : ℕ) (r : RequestSignal) (m kept : List (ℕ × RequestSignal))
    (taken : List RequestSignal)
    → Waiting c ((k, r) ∷ m)
    → Drained c c' m kept taken
    → Drained c c' ((k, r) ∷ m) ((k, r) ∷ kept) taken
Drained-keep c c' k r m kept taken ((own, small, zero, once), w) d = record {
  next = d.next;
  other = λ a h. d.other a (omega arith);
  fewer = λ a. omega (arith, d.fewer a);
  waiting =
      ((own, omega (arith, d.next), d.other k once ∙ zero, omega (arith, d.fewer k)), d.waiting);
  lost = d.lost;
}

Drained-lose :
    (c c' : Cells) (k : ℕ) (r : RequestSignal) (m kept : List (ℕ × RequestSignal))
    (taken : List RequestSignal)
    → r.request_id ≡ k
    → Waiting c ((k, r) ∷ m)
    → Drained (set_lost c r) c' m kept taken
    → Drained c c' ((k, r) ∷ m) kept (r ∷ taken)
Drained-lose c c' k r m kept taken id ((own, small, zero, once), w) d = record {
  next = d.next ∙ lost-next c r;
  other = λ a h. d.other a (omega arith) ∙ lost-other c k r (count a (keys m)) a own h;
  fewer = λ a. omega (arith, d.fewer a);
  waiting = d.waiting;
  lost = (
    (
      omega (arith, d.next, lost-next c r, id),
      ap c'.cell id ∙ d.other k once ∙ ap (set_lost c r).cell (sym own) ∙ lost-cell c r,
    ),
    d.lost,
  );
}

pub drain_loop-Drained :
    (now : Snapshot) (c : Cells) (m : List (ℕ × RequestSignal))
    → Keyed m
    → Waiting c m
    → Drained c (drain_loop now c m).0 m (drain_loop now c m).1 (drain_loop now c m).2
drain_loop-Drained now c [] keyed w =
    unfold drain_loop in
    record { next = refl; other = λ a h. refl; fewer = λ a. omega arith; waiting = tt; lost = tt }
drain_loop-Drained now c ((k, r) ∷ m) (id, keyed) (h, w) =
    elim (Bool-cases (is_sending (Signal.status now c r))) [
      | inl keep ↦
          rw (drain_loop-keep now c k r m keep)
            (Drained-keep c _ k r m _ _ (h, w) (drain_loop-Drained now c m keyed w))
      | inr lose ↦ rw (drain_loop-lose now c k r m lose) (
          Drained-lose c _ k r m _ _ id (h, w)
            (drain_loop-Drained now (set_lost c r) m keyed (lost-Waiting c k r m h.0 h.3 w)))
    ]

pub abort_loop-Drained :
    (c : Cells) (m : List (ℕ × RequestSignal))
    → Keyed m
    → Waiting c m
    → Drained c (abort_loop c m).0 m [] (abort_loop c m).1
unfolding abort_loop
abort_loop-Drained c [] keyed w = record {
  next = refl;
  other = λ a h. refl;
  fewer = λ a. omega arith;
  waiting = tt;
  lost = tt;
}
abort_loop-Drained c ((k, r) ∷ m) (id, keyed) (h, w) =
    Drained-lose c _ k r m [] _ id (h, w)
      (abort_loop-Drained (set_lost c r) m keyed (lost-Waiting c k r m h.0 h.3 w))

pub Drained-Keeps :
    (c c' : Cells) (m kept : List (ℕ × RequestSignal)) (taken : List RequestSignal)
    → Waiting c m
    → Drained c c' m kept taken
    → Keeps c c'
Drained-Keeps c c' m kept taken w d = record {
  next = omega (arith, d.next);
  set = λ a small h. d.other a (Waiting-absent c m a w h);
}

pub Waiting-lookup :
    (c : Cells) (m : List (ℕ × RequestSignal)) (k : ℕ) (r : RequestSignal)
    → Waiting c m
    → lookup k m ≡ some r
    → (r.request_signal ≡ k) × (k < c.next) × (c.cell k ≡ 0)
unfolding lookup
Waiting-lookup c [] k r w e = absurd (ground (arith, e))
Waiting-lookup c ((j, s) ∷ m) k r ((own, small, zero, once), w) e = elim (Bool-cases (j == k)) [
  | inl same ↦ ground arith
  | inr other ↦ Waiting-lookup c m k r w (ground arith)
]

pub Waiting-pending :
    (c : Cells) (m : List (ℕ × RequestSignal)) (k : ℕ)
    → Waiting c m
    → 1 ≤ count k (keys m)
    → c.cell k ≡ 0
Waiting-pending c [] k w h = absurd (omega arith)
Waiting-pending c ((j, s) ∷ m) k ((own, small, zero, once), w) h = elim (Bool-cases (j == k)) [
  | inl same ↦ ground arith
  | inr other ↦ Waiting-pending c m k w (ground arith)
]
