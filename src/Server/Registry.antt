-- ===== src/Server/Registry.antt =====
-- What holds of the handler of src/server/connection_handler.rs in every run: its maps and its two
-- counters agree.
use bevy_simplenet.Common.{
  ℕ, ◌+◌, ◌-◌, ◌%◌, ◌^◌, ◌<◌, ◌≤◌, ◌≡◌, List, none, some, arith, length, count,
}
use bevy_simplenet.Common.Map.{
  lookup, remove, insert, keys, IsMap, lookup-count, count-keys-remove, count-keys-insert,
  remove-IsMap, insert-IsMap, length-remove,
}
use bevy_simplenet.Server.Connection.{ServerConfig}
use bevy_simplenet.Server.Inverse.{Inverse, session_of, insert-Inverse, remove-Inverse, length_mono}

-- The greatest number of sessions, a `u32`.
abbrev pub limit : ServerConfig → ℕ
limit c = (c.max_connections + c.max_pending) % 2 ^ 32

-- The maps and counters of a handler: both maps hold the same pairs, of sessions in the registry;
-- the counters count the authenticated and the other sessions; ids up to a bound are given out.
pub record Registered (config : ServerConfig) (pending connections session_counter : ℕ)
    (registry : List (ℕ × ℕ)) (to_session : List (ℕ × (ℕ × ℕ))) (to_client : List (ℕ × ℕ))
    : Type 0 where
  pub registry_map : IsMap registry
  pub to_client_map : IsMap to_client
  pub inverse : Inverse to_session to_client
  pub inside : (k : ℕ) → count k (keys to_client) ≤ count k (keys registry)
  pub all_sessions : pending + connections ≡ length registry
  pub all_clients : connections ≡ length to_client
  pub room : length registry ≤ limit config
  pub fresh : (k : ℕ) → session_counter < k → count k (keys registry) ≡ 0

-- A new session.
pub register-Registered :
    (config : ServerConfig) (p c n : ℕ) (reg : List (ℕ × ℕ)) (m : List (ℕ × (ℕ × ℕ)))
    (s : List (ℕ × ℕ))
    → length reg < limit config
    → Registered config p c n reg m s
    → Registered config (p + 1) c (n + 1) (insert (n + 1) (n + 1) reg) m s
unfolding insert
register-Registered config p c n reg m s h r =
    let fresh = r.fresh (n + 1) (ground arith) in
    let shorter = length-remove (n + 1) reg in
    let sum = r.all_sessions in
    record {
      registry_map = insert-IsMap (n + 1) (n + 1) reg r.registry_map;
      to_client_map = r.to_client_map;
      inverse = r.inverse;
      inside = λ k.
          ground (arith, r.inside k, count-keys-insert (n + 1) k (n + 1) reg, r.to_client_map k);
      all_sessions = ground arith;
      all_clients = r.all_clients;
      room = ground arith;
      fresh = λ k h. ground (arith, r.fresh k, count-keys-insert (n + 1) k (n + 1) reg);
    }

-- The pending sessions that are left: a session that is not authenticated is one of them.
pub pending_pos :
    (config : ServerConfig) (p c n : ℕ) (reg : List (ℕ × ℕ)) (m : List (ℕ × (ℕ × ℕ)))
    (s : List (ℕ × ℕ)) (k : ℕ)
    → count k (keys reg) ≡ 1
    → lookup k s ≡ none
    → Registered config p c n reg m s
    → 0 < p
pending_pos config p c n reg m s k h absent r =
    let u : IsMap (remove k reg) = remove-IsMap k reg r.registry_map in
    let inside : (j : ℕ) → count j (keys s) ≤ count j (keys (remove k reg)) =
      λ j. ground (arith, r.inside j, count-keys-remove k j reg, lookup-count k s) in
    let sum = r.all_sessions in
    let sum' = r.all_clients in
    ground (arith, length_mono s (remove k reg) r.to_client_map u inside, length-remove k reg)

-- A session that was pending ends.
pub forget-Registered :
    (config : ServerConfig) (p c n : ℕ) (reg : List (ℕ × ℕ)) (m : List (ℕ × (ℕ × ℕ)))
    (s : List (ℕ × ℕ)) (k : ℕ)
    → count k (keys reg) ≡ 1
    → lookup k s ≡ none
    → Registered config p c n reg m s
    → Registered config (p - 1) c n (remove k reg) m s
forget-Registered config p c n reg m s k h absent r =
    let pos = pending_pos config p c n reg m s k h absent r in
    let sum = r.all_sessions in
    let room = r.room in
    record {
      registry_map = remove-IsMap k reg r.registry_map;
      to_client_map = r.to_client_map;
      inverse = r.inverse;
      inside = λ j. ground (arith, r.inside j, count-keys-remove k j reg, lookup-count k s);
      all_sessions = ground (arith, length-remove k reg);
      all_clients = r.all_clients;
      room = ground (arith, length-remove k reg);
      fresh = λ j e. ground (arith, r.fresh j e, count-keys-remove k j reg);
    }

-- A session of a client ends.
pub leave-Registered :
    (config : ServerConfig) (p c n : ℕ) (reg : List (ℕ × ℕ)) (m : List (ℕ × (ℕ × ℕ)))
    (s : List (ℕ × ℕ)) (k client : ℕ)
    → count k (keys reg) ≡ 1
    → lookup k s ≡ some client
    → Registered config p c n reg m s
    → (0 < c) × Registered config p (c - 1) n (remove k reg) (remove client m) (remove k s)
leave-Registered config p c n reg m s k client h held r =
    let sum = r.all_sessions in
    let sum' = r.all_clients in
    let room = r.room in
    let once = r.to_client_map k in
    let counted = lookup-count k s in
    (
      ground (arith, length-remove k s),
      record {
        registry_map = remove-IsMap k reg r.registry_map;
        to_client_map = remove-IsMap k s r.to_client_map;
        inverse = remove-Inverse client k m s held r.inverse;
        inside =
            λ j. ground (arith, r.inside j, count-keys-remove k j reg, count-keys-remove k j s);
        all_sessions = ground (arith, length-remove k reg, length-remove k s);
        all_clients = ground (arith, length-remove k s);
        room = ground (arith, length-remove k reg);
        fresh = λ j e. ground (arith, r.fresh j e, count-keys-remove k j reg);
      },
    )

-- A pending session is authenticated for a client that has none.
pub join-Registered :
    (config : ServerConfig) (p c n : ℕ) (reg : List (ℕ × ℕ)) (m : List (ℕ × (ℕ × ℕ)))
    (s : List (ℕ × ℕ)) (k client i : ℕ)
    → count k (keys reg) ≡ 1
    → lookup k s ≡ none
    → session_of client m ≡ none
    → Registered config p c n reg m s
    → Registered config (p - 1) (c + 1) n reg (insert client (k, i) m) (insert k client s)
unfolding insert
join-Registered config p c n reg m s k client i h absent free r =
    let pos = pending_pos config p c n reg m s k h absent r in
    let sum = r.all_sessions in
    let sum' = r.all_clients in
    record {
      registry_map = r.registry_map;
      to_client_map = insert-IsMap k client s r.to_client_map;
      inverse = insert-Inverse client k i m s free absent r.inverse;
      inside = λ j. ground (arith, r.inside j, count-keys-insert k j client s);
      all_sessions = ground arith;
      all_clients = ground (arith, length-remove k s, lookup-count k s);
      room = r.room;
      fresh = r.fresh;
    }
