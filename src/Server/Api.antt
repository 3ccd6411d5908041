-- ===== src/Server/Api.antt =====
-- src/server/server.rs: the public operations of the server. Whether the worker and the runner
-- have stopped, and whether the call channel accepts a command, are arguments of each operation.
use bevy_simplenet.Common.{
  ℕ, ◌+◌, ◌%◌, ◌^◌, Bool, true, false, ◌||◌, List, [], ◌∷◌, ◌++◌, Option, none, some, if◌then◌else◌,
}
use bevy_simplenet.Common.Frames.{CloseFrame}
use bevy_simplenet.Protocol.{ClientMetaEvent}
use bevy_simplenet.Server.Counter.{Counter, load}
use bevy_simplenet.Server.Token.{
  Deaths, RequestToken, Rejection, SessionCommand, ClientTargetMsg, ServerReport, ServerEvent,
  ClientSourceMsg, destination_is_dead, take,
}
use bevy_simplenet.Server.Token

-- The server, with the log of the commands that the call channel has accepted.
pub record Server (ConnectMsg ServerMsg ServerResponse : Type 0) : Type 0 where
  pub consumed_connection_events : ℕ  -- u64
  pub connection_counter : Counter
  pub calls : List (ClientTargetMsg ConnectMsg ServerMsg ServerResponse)

pub record Outside : Type 0 where
  pub worker_done : Bool
  pub runner_done : Bool
  pub accepts : Bool
  pub deaths : Deaths

unfoldable pub is_dead : Outside → Bool
is_dead o = o.worker_done || o.runner_done

module _ {ConnectMsg ServerMsg ServerResponse : Type 0} where
  -- `client_event_sender.send`; a failure is logged and nothing else.
  unfoldable pub call :
      Outside
      → ℕ
      → SessionCommand ConnectMsg ServerMsg ServerResponse
      → Server ConnectMsg ServerMsg ServerResponse
      → Server ConnectMsg ServerMsg ServerResponse
  call o id command s =
      if o.accepts
      then record s { calls = s.calls ++ record { id = id; msg = command } ∷ [] }
      else s

  unfoldable pub send :
      Outside
      → ℕ
      → ServerMsg
      → Server ConnectMsg ServerMsg ServerResponse
      → Server ConnectMsg ServerMsg ServerResponse
  unfolding call is_dead
  send o id msg s =
      if is_dead o
      then s
      else call o id
          (SessionCommand.send (ClientMetaEvent.msg msg) (some s.consumed_connection_events) none) s

  -- The common body of `respond` and `ack`, which differ in the event. The token is dropped at the
  -- end, with the rejections that this sends. `none` is a panic.
  unfoldable pub answer :
      Outside
      → RequestToken
      → (ℕ → ClientMetaEvent ServerMsg ServerResponse)
      → Server ConnectMsg ServerMsg ServerResponse
      → Option (Server ConnectMsg ServerMsg ServerResponse × List Rejection)
  unfolding call is_dead
  answer o token event s =
      let dropped = Token.drop o.deaths token in
      let unanswered : Option (Server ConnectMsg ServerMsg ServerResponse × List Rejection) =
        elim dropped [ none ↦ none | some rejections ↦ some (s, rejections) ] in
      if is_dead o then unanswered else elim (destination_is_dead o.deaths token) [
        | none ↦ none
        | some true ↦ unanswered
        | some false ↦ elim (take token) [
          | none ↦ none
          | some (request_id, signal, spent) ↦ elim (Token.drop o.deaths spent) [
            | none ↦ none
            | some rejections ↦ some (
              call o token.client_id (SessionCommand.send (event request_id) none (some signal)) s,
              rejections,
            )
          ]
        ]
      ]

  unfoldable pub respond :
      Outside
      → RequestToken
      → ServerResponse
      → Server ConnectMsg ServerMsg ServerResponse
      → Option (Server ConnectMsg ServerMsg ServerResponse × List Rejection)
  unfolding answer
  respond o token response s = answer o token (ClientMetaEvent.response response) s

  unfoldable pub ack :
      Outside
      → RequestToken
      → Server ConnectMsg ServerMsg ServerResponse
      → Option (Server ConnectMsg ServerMsg ServerResponse × List Rejection)
  unfolding answer
  ack o token s = answer o token ClientMetaEvent.ack s

  -- `reject`: the token is dropped.
  unfoldable pub reject :
      Outside
      → RequestToken
      → Server ConnectMsg ServerMsg ServerResponse
      → Option (Server ConnectMsg ServerMsg ServerResponse × List Rejection)
  reject o token s = elim (Token.drop o.deaths token) [
    | none ↦ none
    | some rejections ↦ some (s, rejections)
  ]

  unfoldable pub disconnect_client :
      Outside
      → ℕ
      → Option CloseFrame
      → Server ConnectMsg ServerMsg ServerResponse
      → Server ConnectMsg ServerMsg ServerResponse
  unfolding call is_dead
  disconnect_client o id close_frame s =
      if is_dead o then s else call o id (SessionCommand.close close_frame) s

  unfoldable pub num_connections : Server ConnectMsg ServerMsg ServerResponse → ℕ
  num_connections s = load s.connection_counter

module _ {ConnectMsg ClientMsg ClientRequest ServerMsg ServerResponse : Type 0} where
  -- `next`, with the event that `try_recv` yields.
  unfoldable pub next :
      Option (ClientSourceMsg ConnectMsg ClientMsg ClientRequest)
      → Server ConnectMsg ServerMsg ServerResponse
      → Server ConnectMsg ServerMsg ServerResponse
        × Option (ℕ × ServerEvent ConnectMsg ClientMsg ClientRequest)
  next none s = (s, none)
  next (some event) s = (
    elim event.msg [
      | ServerEvent.report (ServerReport.connected _ _) ↦ record s {
        consumed_connection_events = (s.consumed_connection_events + 1) % 2 ^ 64;
      }
      | _ ↦ s
    ],
    some (event.id, event.msg),
  )
