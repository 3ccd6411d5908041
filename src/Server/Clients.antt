-- ===== src/Server/Clients.antt =====
-- What the calls of src/server do to the clients of sessions, and to the sessions that commands go to.
use bevy_simplenet.Common.{
  ℕ, ◌≡◌, refl, Bool, true, false, List, [], ◌∷◌, ◌++◌, Option, none, some, ◌==◌, if◌then◌else◌,
  ◌&&◌, not, arith, length, ltb, All, inl, inr, Option-cases, Bool-cases,
}
use bevy_simplenet.Common.Bytes.{Bytes}
use bevy_simplenet.Common.Map.{lookup, insert, lookup-insert}
use bevy_simplenet.Authentication.{SignatureScheme}
use bevy_simplenet.RateLimiter.{try_count_msg}
use bevy_simplenet.Protocol.{ServerMetaEvent}
use bevy_simplenet.Common.Result.{ok}
use bevy_simplenet.TextPingPong.{TextAction}
use bevy_simplenet.Server.Text.{on_text}
use bevy_simplenet.Server.Texts.{on_text-outcome}
use bevy_simplenet.Server.Token.{SessionCommand, ClientTargetMsg}
use bevy_simplenet.Server.Session.{
  SessionHandler, close, forward, announce, on_verdict, on_message, on_binary,
}
use bevy_simplenet.Server.Session

module _ {ConnectMsg ClientMsg ClientRequest ServerMsg ServerResponse : Type 0} where
  -- The client that a session knows.
  unfoldable pub client_of :
      ℕ
      → List (ℕ × SessionHandler ConnectMsg ClientMsg ClientRequest ServerMsg ServerResponse)
      → Option ℕ
  client_of b m = elim (lookup b m) [ none ↦ none | some s ↦ s.client ]

  pub client_of-insert :
      (b d : ℕ) (s : SessionHandler ConnectMsg ClientMsg ClientRequest ServerMsg ServerResponse)
      (m : List (ℕ × SessionHandler ConnectMsg ClientMsg ClientRequest ServerMsg ServerResponse))
      → client_of d (insert b s m) ≡ (if b == d then s.client else client_of d m)
  unfolding client_of
  client_of-insert b d s m = ground (arith, lookup-insert b d s m)

  pub client_of-eq :
      (b : ℕ) (s : SessionHandler ConnectMsg ClientMsg ClientRequest ServerMsg ServerResponse)
      (m : List (ℕ × SessionHandler ConnectMsg ClientMsg ClientRequest ServerMsg ServerResponse))
      → lookup b m ≡ some s
      → client_of b m ≡ s.client
  unfolding client_of
  client_of-eq b s m e = ground arith

  pub client_of_absent :
      (b : ℕ)
      (m : List (ℕ × SessionHandler ConnectMsg ClientMsg ClientRequest ServerMsg ServerResponse))
      → lookup b m ≡ none
      → client_of b m ≡ none
  unfolding client_of
  client_of_absent b m e = ground arith

  -- A command that answers a request goes to the client of the session that asked. No command of
  -- the server is an `Add`.
  abbrev pub RoutedCommand :
      List (ℕ × SessionHandler ConnectMsg ClientMsg ClientRequest ServerMsg ServerResponse)
      → ℕ
      → SessionCommand ConnectMsg ServerMsg ServerResponse
      → Type 0
  RoutedCommand m id (SessionCommand.add _ _ _) = false ≡ true
  RoutedCommand m id (SessionCommand.send _ _ none) = Unit
  RoutedCommand m id (SessionCommand.send _ _ (some b)) = client_of b m ≡ some id
  RoutedCommand m id (SessionCommand.close _) = Unit

  abbrev pub Routed :
      List (ℕ × SessionHandler ConnectMsg ClientMsg ClientRequest ServerMsg ServerResponse)
      → ClientTargetMsg ConnectMsg ServerMsg ServerResponse
      → Type 0
  Routed m c = RoutedCommand m c.id c.msg

  -- No session forgets its client.
  abbrev pub Grows :
      List (ℕ × SessionHandler ConnectMsg ClientMsg ClientRequest ServerMsg ServerResponse)
      → List (ℕ × SessionHandler ConnectMsg ClientMsg ClientRequest ServerMsg ServerResponse)
      → Type 0
  Grows m n = (b c : ℕ) → client_of b m ≡ some c → client_of b n ≡ some c

  RoutedCommand-mono :
      (m n : List (ℕ × SessionHandler ConnectMsg ClientMsg ClientRequest ServerMsg ServerResponse))
      (id : ℕ) (c : SessionCommand ConnectMsg ServerMsg ServerResponse)
      → Grows m n
      → RoutedCommand m id c
      → RoutedCommand n id c
  RoutedCommand-mono m n id (SessionCommand.add _ _ _) g r = r
  RoutedCommand-mono m n id (SessionCommand.send _ _ none) g r = tt
  RoutedCommand-mono m n id (SessionCommand.send _ _ (some b)) g r = g b id r
  RoutedCommand-mono m n id (SessionCommand.close _) g r = tt

  pub Routed-mono :
      (m n : List (ℕ × SessionHandler ConnectMsg ClientMsg ClientRequest ServerMsg ServerResponse))
      (cs : List (ClientTargetMsg ConnectMsg ServerMsg ServerResponse))
      → Grows m n
      → All (Routed m) cs
      → All (Routed n) cs
  Routed-mono m n [] g r = tt
  Routed-mono m n (c ∷ cs) g r = (RoutedCommand-mono m n c.id c.msg g r.0, Routed-mono m n cs g r.1)

  pub Routed-snoc :
      (m : List (ℕ × SessionHandler ConnectMsg ClientMsg ClientRequest ServerMsg ServerResponse))
      (cs : List (ClientTargetMsg ConnectMsg ServerMsg ServerResponse))
      (c : ClientTargetMsg ConnectMsg ServerMsg ServerResponse)
      → All (Routed m) cs
      → Routed m c
      → All (Routed m) (cs ++ c ∷ [])
  Routed-snoc m [] c h k = (k, tt)
  Routed-snoc m (x ∷ cs) c h k = (h.0, Routed-snoc m cs c h.1 k)

  pub Routed-middle :
      (m : List (ℕ × SessionHandler ConnectMsg ClientMsg ClientRequest ServerMsg ServerResponse))
      (before after : List (ClientTargetMsg ConnectMsg ServerMsg ServerResponse))
      (c : ClientTargetMsg ConnectMsg ServerMsg ServerResponse)
      → All (Routed m) (before ++ c ∷ after)
      → Routed m c
  Routed-middle m [] after c h = h.0
  Routed-middle m (x ∷ before) after c h = Routed-middle m before after c h.1

  -- A session keeps its id, and its client once it knows one.
  abbrev pub Continues :
      SessionHandler ConnectMsg ClientMsg ClientRequest ServerMsg ServerResponse
      → SessionHandler ConnectMsg ClientMsg ClientRequest ServerMsg ServerResponse
      → Type 0
  Continues s s' = (s'.id ≡ s.id) × ((c : ℕ) → s.client ≡ some c → s'.client ≡ some c)

  on_message-Continues :
      (scheme : SignatureScheme) (o : Session.Outside)
      (m : ServerMetaEvent ConnectMsg ClientMsg ClientRequest)
      (s s' : SessionHandler ConnectMsg ClientMsg ClientRequest ServerMsg ServerResponse)
      → on_message scheme o m s ≡ some s'
      → Continues s s'
  unfolding on_message on_verdict announce forward close
  on_message-Continues scheme o (ServerMetaEvent.authenticate msg) s s' e =
      (ground arith, λ c k. ground arith)
  on_message-Continues scheme o (ServerMetaEvent.msg m) s s' e = (ground arith, λ c k. ground arith)
  on_message-Continues scheme o (ServerMetaEvent.request q r) s s' e =
      (ground arith, λ c k. ground arith)

  pub on_binary-Continues :
      (scheme : SignatureScheme)
      (deserialize : Bytes → Option (ServerMetaEvent ConnectMsg ClientMsg ClientRequest))
      (o : Session.Outside) (bytes : Bytes)
      (s s' : SessionHandler ConnectMsg ClientMsg ClientRequest ServerMsg ServerResponse)
      → on_binary scheme deserialize o bytes s ≡ some s'
      → Continues s s'
  unfolding on_binary close
  on_binary-Continues scheme deserialize o bytes s s' e =
      let counted = record s {
        rate_limit_tracker = (try_count_msg s.rate_limit_tracker o.elapsed).0;
      } in
      elim (Option-cases (deserialize bytes)) [
        | inl bad ↦ (ground arith, λ c k. ground arith)
        | inr (m, read) ↦
            elim (Bool-cases (
              (try_count_msg s.rate_limit_tracker o.elapsed).1
              && not (ltb s.max_msg_size (length bytes)))) [
                | inr refused ↦ (ground arith, λ c k. ground arith)
                | inl within ↦
                    let same : on_message scheme o m counted ≡ some s' = ground arith in
                    on_message-Continues scheme o m counted s' same
              ]
      ]

  pub on_text-Continues :
      (accepts : Bytes → Bool) (now : ℕ) (text : Bytes)
      (s s' : SessionHandler ConnectMsg ClientMsg ClientRequest ServerMsg ServerResponse)
      (act : Option TextAction)
      → on_text accepts now text s ≡ ok (s', act)
      → Continues s s'
  unfolding close
  on_text-Continues accepts now text s s' act e =
      elim (on_text-outcome s.env_type accepts now text s s' act refl e) [
        | inl same ↦ rw same (refl, λ c k. k)
        | inr (reason, closed) ↦ rw closed (refl, λ c k. k)
      ]
