-- ===== src/Server/Replies.antt =====
-- What becomes of a request's token: `respond`, `ack` and `reject` of src/server/server.rs with the
-- drop of the token in src/server/request_token.rs.
use bevy_simplenet.Common.{
  ℕ, ◌+◌, ◌≡◌, refl, List, [], ◌∷◌, ◌++◌, Option, none, some, if◌then◌else◌, arith, ◌==◌,
}
use bevy_simplenet.Protocol.{ClientMetaEvent}
use bevy_simplenet.Server.Token.{
  Deaths, RequestToken, Rejection, SessionCommand, ClientTargetMsg, is_dead, destination_is_dead,
  take,
}
use bevy_simplenet.Server.Token
use bevy_simplenet.Server.Api.{Server, Outside, call, answer, respond, ack, reject}
use bevy_simplenet.Server.Api

-- The id of the request that an event answers.
unfoldable pub answered_id :
    {ServerMsg ServerResponse : Type 0} → ClientMetaEvent ServerMsg ServerResponse → Option ℕ
answered_id (ClientMetaEvent.msg _) = none
answered_id (ClientMetaEvent.response _ id) = some id
answered_id (ClientMetaEvent.ack id) = some id
answered_id (ClientMetaEvent.reject id) = some id

module _ (ConnectMsg ServerMsg ServerResponse : Type 0) where
  -- How often a command answers a request.
  unfoldable pub reply : ℕ → ClientTargetMsg ConnectMsg ServerMsg ServerResponse → ℕ
  unfolding answered_id
  reply r m = elim m.msg [
    | SessionCommand.send event _ _ ↦ elim (answered_id event) [
      | none ↦ 0
      | some id ↦ if id == r then 1 else 0
    ]
    | _ ↦ 0
  ]

  -- How often a request is answered, by commands and by rejections.
  unfoldable pub replies : ℕ → List (ClientTargetMsg ConnectMsg ServerMsg ServerResponse) → ℕ
  unfolding reply
  replies r [] = 0
  replies r (m ∷ ms) = reply r m + replies r ms

  unfoldable pub rejections : ℕ → List Rejection → ℕ
  rejections r [] = 0
  rejections r (x ∷ xs) = (if x.request == r then 1 else 0) + rejections r xs

  replies-snoc :
      (r : ℕ) (ms : List (ClientTargetMsg ConnectMsg ServerMsg ServerResponse))
      (m : ClientTargetMsg ConnectMsg ServerMsg ServerResponse)
      → replies r (ms ++ m ∷ []) ≡ replies r ms + reply r m
  unfolding replies
  replies-snoc r [] m = omega arith
  replies-snoc r (x ∷ ms) m = omega (arith, replies-snoc r ms m)

  -- The replies to a request after an operation.
  abbrev pub total :
      ℕ → Option (Server ConnectMsg ServerMsg ServerResponse × List Rejection) → Option ℕ
  total r none = none
  total r (some (s, xs)) = some (replies r s.calls + rejections r xs)

  -- How many replies a token gives: none if its session is dead. Where the server lives and the
  -- call channel fails, the reply is lost.
  abbrev pub due : Outside → ℕ → ℕ
  due o session =
      if is_dead o.deaths session
      then 0
      else if Api.is_dead o
      then 1
      else if o.accepts
      then 1
      else 0

  answer-total :
      (o : Outside) (c r session : ℕ) (event : ℕ → ClientMetaEvent ServerMsg ServerResponse)
      (s : Server ConnectMsg ServerMsg ServerResponse)
      → answered_id (event r) ≡ some r
      → total r (answer o (Token.new c r session session) event s)
        ≡ some (replies r s.calls + due o session)
  unfolding answer Token.new Token.drop destination_is_dead take call rejections reply
  answer-total o c r session event s h =
      let command : ClientTargetMsg ConnectMsg ServerMsg ServerResponse = record {
        id = c;
        msg = SessionCommand.send (event r) none (some session);
      } in
      ground (arith, replies-snoc r s.calls command)

  -- A fresh token gets exactly one reply, whichever of `respond`, `ack` and `reject` uses it, and
  -- none of them panics. It gets none if its session is dead. `respond` and `ack` also give none
  -- where the server lives and the call channel does not accept the command.
  pub replied_once :
      (o : Outside) (c r session : ℕ) (response : ServerResponse)
      (s : Server ConnectMsg ServerMsg ServerResponse)
      → let token = Token.new c r session session in
        (total r (respond o token response s) ≡ some (replies r s.calls + due o session))
        × (total r (ack o token s) ≡ some (replies r s.calls + due o session))
        × (total r (reject o token s)
            ≡ some (replies r s.calls + (if is_dead o.deaths session then 0 else 1)))
  unfolding respond ack reject answered_id Token.new Token.drop destination_is_dead rejections
  replied_once o c r session response s = (
    answer-total o c r session (ClientMetaEvent.response response) s refl,
    answer-total o c r session ClientMetaEvent.ack s refl,
    ground arith,
  )
