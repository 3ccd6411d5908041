-- ===== src/Server/Order.antt =====
-- The order of the reports of connections in src/server/connection_handler.rs: the index that a
-- client's session is kept with says which of the reports is that connection's.
use bevy_simplenet.Common.{
  ℕ, zero, suc, ◌+◌, ◌-◌, ◌^◌, ◌<◌, ◌≤◌, ◌≡◌, refl, sym, Bool, true, String, List, [], ◌∷◌, ◌++◌,
  Option, none, some, ◌==◌, if◌then◌else◌, arith, length, inl, inr, Option-cases, Bool-cases,
  append-nil, length-append,
}
use bevy_simplenet.Common.Frames.{CloseFrame}
use bevy_simplenet.Common.Result.{Result}
use bevy_simplenet.Common.Map.{lookup, remove, insert, lookup-remove, lookup-insert}
use bevy_simplenet.Protocol.{EnvType}
use bevy_simplenet.Server.Validation.{Element}
use bevy_simplenet.Server.Token.{ClientSourceMsg, ServerEvent, ServerReport}
use bevy_simplenet.Server.Session.{SessionHandler}
use bevy_simplenet.Server.Connection.{
  ConnectionHandler, on_connect, register, on_disconnect, add_client,
}

-- The element at a place.
unfoldable pub at : ℕ → List ℕ → Option ℕ
at n [] = none
at zero (x ∷ xs) = some x
at (suc n) (x ∷ xs) = at n xs

pub at_more : (n c : ℕ) (xs ys : List ℕ) → at n xs ≡ some c → at n (xs ++ ys) ≡ some c
unfolding at
at_more n c [] ys h = absurd (ground arith)
at_more zero c (x ∷ xs) ys h = h
at_more (suc n) c (x ∷ xs) ys h = at_more n c xs ys h

pub at_last : (c : ℕ) (xs : List ℕ) → at (length xs) (xs ++ c ∷ []) ≡ some c
unfolding at
at_last c [] = refl
at_last c (x ∷ xs) = at_last c xs

pub at_prefix : (n : ℕ) (xs ys : List ℕ) → n < length xs → at n (xs ++ ys) ≡ at n xs
unfolding at
at_prefix n [] ys h = absurd (omega arith)
at_prefix zero (x ∷ xs) ys h = refl
at_prefix (suc n) (x ∷ xs) ys h = at_prefix n xs ys (omega arith)

-- The map of clients, the number of connections so far, and the clients whose connections were
-- reported, in order.
abbrev pub Ordered : List (ℕ × (ℕ × ℕ)) → ℕ → List ℕ → Type 0
Ordered m total ids =
    (length ids ≡ total)
    × ((c s i : ℕ) → lookup c m ≡ some (s, i) → (1 ≤ i) × (at (i - 1) ids ≡ some c))

pub remove-Ordered :
    (client total : ℕ) (m : List (ℕ × (ℕ × ℕ))) (ids : List ℕ)
    → Ordered m total ids
    → Ordered (remove client m) total ids
remove-Ordered client total m ids (n, h) = (
  n,
  λ c s i e.
      let was : lookup c m ≡ some (s, i) = ground (arith, lookup-remove client c m) in h c s i was,
)

pub insert-Ordered :
    (client session total : ℕ) (m : List (ℕ × (ℕ × ℕ))) (ids : List ℕ)
    → Ordered m total ids
    → Ordered (insert client (session, total + 1) m) (total + 1) (ids ++ client ∷ [])
insert-Ordered client session total m ids (n, h) = (
  omega (arith, length-append ids (client ∷ [])),
  λ c s i e. elim (Bool-cases (client == c)) [
    | inl same ↦
        let this : i ≡ total + 1 = ground (arith, lookup-insert client c (session, total + 1) m) in
        let last = at_last client ids in
        let place : i - 1 ≡ length ids = omega arith in (omega arith, rw place ground (arith))
    | inr other ↦
        let was : lookup c m ≡ some (s, i) =
          ground (arith, lookup-insert client c (session, total + 1) m) in
        ((h c s i was).0, at_more (i - 1) c ids (client ∷ []) (h c s i was).1)
  ],
)

module _ {ConnectMsg ClientMsg ClientRequest : Type 0} where
  -- The clients of the reports of connections, in order.
  unfoldable pub connected_ids : List (ClientSourceMsg ConnectMsg ClientMsg ClientRequest) → List ℕ
  connected_ids [] = []
  connected_ids (e ∷ es) =
      let rest = connected_ids es in
      elim e.msg [ ServerEvent.report (ServerReport.connected _ _) ↦ e.id ∷ rest | _ ↦ rest ]

  pub connected_ids-append :
      (es fs : List (ClientSourceMsg ConnectMsg ClientMsg ClientRequest))
      → connected_ids (es ++ fs) ≡ connected_ids es ++ connected_ids fs
  unfolding connected_ids
  connected_ids-append [] fs = refl
  connected_ids-append (e ∷ es) fs = ground (arith, connected_ids-append es fs)

module _ (ConnectMsg ClientMsg ClientRequest ServerMsg ServerResponse : Type 0) where
  abbrev pub IsOrdered : ConnectionHandler ConnectMsg ClientMsg ClientRequest → Type 0
  IsOrdered h = Ordered h.client_to_session h.total_connections_count (connected_ids h.events)

  pub on_connect-IsOrdered :
      (h h' : ConnectionHandler ConnectMsg ClientMsg ClientRequest) (parse : String → List Element)
      (query : Option String)
      (r : Result
        (Option CloseFrame)
        (SessionHandler ConnectMsg ClientMsg ClientRequest ServerMsg ServerResponse))
      → on_connect parse query h ≡ some (h', r)
      → (h'.events ≡ h.events) × (IsOrdered h → IsOrdered h')
  unfolding on_connect register
  on_connect-IsOrdered h h' parse query r e =
      let m : h'.client_to_session ≡ h.client_to_session = ground arith in
      let n : h'.total_connections_count ≡ h.total_connections_count = ground arith in
      let es : h'.events ≡ h.events = ground arith in (es, λ o. rw m (rw n (rw es o)))

  -- The events of a disconnect report no connection.
  pub on_disconnect-IsOrdered :
      (h : ConnectionHandler ConnectMsg ClientMsg ClientRequest) (accepts : Bool) (id : ℕ)
      → (fs : List (ClientSourceMsg ConnectMsg ClientMsg ClientRequest)) × ((on_disconnect accepts
            id h).0.events
          ≡ h.events ++ fs)
        × (IsOrdered h → IsOrdered (on_disconnect accepts id h).0)
  unfolding on_disconnect connected_ids
  on_disconnect-IsOrdered h accepts id = elim (Option-cases (lookup id h.session_to_client)) [
    | inl e ↦
        let m : (on_disconnect accepts id h).0.client_to_session ≡ h.client_to_session =
          ground arith in
        let n : (on_disconnect accepts id h).0.total_connections_count ≡ h.total_connections_count =
          ground arith in
        let es : (on_disconnect accepts id h).0.events ≡ h.events = ground arith in
        ([], rw es (sym (append-nil h.events)), λ o. rw m (rw n (rw es o)))
    | inr (client, e) ↦
        let fs : List (ClientSourceMsg ConnectMsg ClientMsg ClientRequest) =
          if accepts
          then record { id = client; msg = ServerEvent.report ServerReport.disconnected } ∷ []
          else [] in
        let m : (on_disconnect accepts id h).0.client_to_session
            ≡ remove client h.client_to_session =
          ground arith in
        let n : (on_disconnect accepts id h).0.total_connections_count ≡ h.total_connections_count =
          ground arith in
        let es : (on_disconnect accepts id h).0.events ≡ h.events ++ fs =
          ground (arith, append-nil h.events) in
        let none : connected_ids fs ≡ [] = ground arith in
        let ids : connected_ids (on_disconnect accepts id h).0.events ≡ connected_ids h.events =
          rw es (
            rw (connected_ids-append h.events fs)
              (rw none (append-nil (connected_ids h.events)))) in
        (
          fs,
          es,
          λ o. rw m (
              rw n (
                rw ids (
                  remove-Ordered client h.total_connections_count h.client_to_session
                    (connected_ids h.events) o))),
        )
  ]

  pub add_client-IsOrdered :
      (h : ConnectionHandler ConnectMsg ClientMsg ClientRequest) (id session : ℕ) (msg : ConnectMsg)
      (env : EnvType)
      → h.total_connections_count + 1 < 2 ^ 64
      → (fs : List (ClientSourceMsg ConnectMsg ClientMsg ClientRequest)) × ((add_client true id
            session msg env h).events
          ≡ h.events ++ fs)
        × (IsOrdered h → IsOrdered (add_client true id session msg env h))
  unfolding add_client connected_ids
  add_client-IsOrdered h id session msg env small =
      elim (Option-cases (lookup id h.client_to_session)) [
        | inr (held, e) ↦
            let same : add_client true id session msg env h
                ≡ record h { actions = (add_client true id session msg env h).actions } =
              ground arith in
            ([], rw same (sym (append-nil h.events)), λ o. rw same o)
        | inl e ↦
            let event : ClientSourceMsg ConnectMsg ClientMsg ClientRequest = record {
              id = id;
              msg = ServerEvent.report (ServerReport.connected env msg);
            } in
            let m : (add_client true id session msg env h).client_to_session
                ≡ insert id (session, h.total_connections_count + 1) h.client_to_session =
              ground arith in
            let n : (add_client true id session msg env h).total_connections_count
                ≡ h.total_connections_count + 1 =
              ground arith in
            let es : (add_client true id session msg env h).events ≡ h.events ++ event ∷ [] =
              ground arith in
            (
              event ∷ [],
              es,
              λ o. rw m (
                  rw n (
                    rw es (
                      rw (connected_ids-append h.events (event ∷ [])) (
                        insert-Ordered id session h.total_connections_count h.client_to_session
                          (connected_ids h.events) o)))),
            )
      ]
