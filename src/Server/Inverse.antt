-- ===== src/Server/Inverse.antt =====
-- Lemmas on the two maps of src/server/connection_handler.rs, from clients to sessions and back.
use bevy_simplenet.Common.{
  ℕ, ◌≤◌, ◌≡◌, List, [], ◌∷◌, Option, none, some, ◌==◌, if◌then◌else◌, arith, length, count,
}
use bevy_simplenet.Common.Map.{
  lookup, remove, insert, keys, IsMap, lookup-remove, lookup-insert, count-keys-remove,
  remove-IsMap, length-remove,
}

-- The session of a client, without the index of its connection.
unfoldable pub session_of : ℕ → List (ℕ × (ℕ × ℕ)) → Option ℕ
session_of c m = elim (lookup c m) [ none ↦ none | some (s, _) ↦ some s ]

-- The clients' sessions and the sessions' clients are the same pairs.
abbrev pub Inverse : List (ℕ × (ℕ × ℕ)) → List (ℕ × ℕ) → Type 0
Inverse m n =
    (c s : ℕ)
    → (session_of c m ≡ some s → lookup s n ≡ some c)
      × (lookup s n ≡ some c → session_of c m ≡ some s)

session_of-insert :
    (c d s i : ℕ) (m : List (ℕ × (ℕ × ℕ)))
    → session_of d (insert c (s, i) m) ≡ (if c == d then some s else session_of d m)
unfolding session_of
session_of-insert c d s i m = ground (arith, lookup-insert c d (s, i) m)

session_of-remove :
    (c d : ℕ) (m : List (ℕ × (ℕ × ℕ)))
    → session_of d (remove c m) ≡ (if c == d then none else session_of d m)
unfolding session_of
session_of-remove c d m = ground (arith, lookup-remove c d m)

pub insert-Inverse :
    (c s i : ℕ) (m : List (ℕ × (ℕ × ℕ))) (n : List (ℕ × ℕ))
    → session_of c m ≡ none
    → lookup s n ≡ none
    → Inverse m n
    → Inverse (insert c (s, i) m) (insert s c n)
insert-Inverse c s i m n h k inv d t =
    let to = (inv d t).0 in
    let from = (inv d t).1 in
    let a = session_of-insert c d s i m in
    let b = lookup-insert s t c n in (λ e. ground arith, λ e. ground arith)

pub remove-Inverse :
    (c s : ℕ) (m : List (ℕ × (ℕ × ℕ))) (n : List (ℕ × ℕ))
    → lookup s n ≡ some c
    → Inverse m n
    → Inverse (remove c m) (remove s n)
remove-Inverse c s m n h inv d t =
    let to = (inv d t).0 in
    let from = (inv d t).1 in
    let to' = (inv c t).0 in
    let held = (inv c s).1 h in
    let held' = (inv d s).0 in
    let a = session_of-remove c d m in
    let b = lookup-remove s t n in (λ e. ground arith, λ e. ground arith)

-- A map whose keys stand in another is not longer.
pub length_mono :
    {V W : Type 0} (m : List (ℕ × V)) (n : List (ℕ × W))
    → IsMap m
    → IsMap n
    → ((k : ℕ) → count k (keys m) ≤ count k (keys n))
    → length m ≤ length n
length_mono [] n u v h = ground arith
length_mono ((k, x) ∷ m) n u v h =
    let u' : IsMap m = λ j. ground (arith, u j) in
    let h' : (j : ℕ) → count j (keys m) ≤ count j (keys (remove k n)) =
      λ j. ground (arith, h j, u j, count-keys-remove k j n) in
    ground (arith, length_mono m (remove k n) u' (remove-IsMap k n v) h', length-remove k n, h k)
