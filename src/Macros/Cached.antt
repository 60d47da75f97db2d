-- ===== src/Macros/Cached.antt =====
-- src/macros/inbound.rs: requests, notifications and responses with their parsed content. What serde
-- parses, `parsed_pair`, is a parameter; the message stays with it.
pub mod Waiting
use rpc_it_rs.Base.{
  ℕ, Option, none, some, Result, ok, err, Poll, pending, ready, Outcome, returns, ◌>>=◌,
}
use rpc_it_rs.Rpc.Inbound.{Inbound}
use rpc_it_rs.Rpc.Types.{Response, ErrorResponse, ResponseReceiveError}
use rpc_it_rs.Waker.{AtomicWaker}
use rpc_it_rs.Rpc.ReqRep.{RequestContext, Receive, poll}

-- `CachedNotify`: the parsed parameters and the message. `CachedRequest` is one with more methods.
pub record CachedNotify (V : Type 0) : Type 0 where
  pub v : V
  pub ib : Inbound

-- `__internal_create`: the message is handed back with the error.
unfoldable pub internal_create :
    {V E : Type 0} → (Inbound → Result V E) → Inbound → Result (CachedNotify V) (Inbound × E)
internal_create parse msg = elim (parse msg) [
  | ok v ↦ ok (record { v = v; ib = msg })
  | err e ↦ err (msg, e)
]

-- `CachedErrorObj` is an error response with what was parsed of it, `CachedOkayObj` a response with
-- what was parsed of it.
pub data CachedWaitError (C E SerDeError : Type 0) : Type 0 where
  closed empty retrieved : CachedWaitError C E SerDeError
  response : ErrorResponse C → E → CachedWaitError C E SerDeError
  deserialize_failed :
      SerDeError → Result (Response C) (ErrorResponse C) → CachedWaitError C E SerDeError

unfoldable pub into_response :
    {C E SerDeError : Type 0} → CachedWaitError C E SerDeError → Option (ErrorResponse C × E)
into_response (CachedWaitError.response resp parsed) = some (resp, parsed)
into_response _ = none

module _ {C V E SerDeError : Type 0} (parse_ok : Response C → Result V SerDeError)
    (parse_err : ErrorResponse C → Result E SerDeError) where
  abbrev pub Waited : Type 0
  Waited = Result (Response C × V) (CachedWaitError C E SerDeError)

  -- The arm of an `Ok`.
  abbrev pub parsed_ok : Response C → Result V SerDeError → Waited
  parsed_ok resp (ok parsed) = ok (resp, parsed)
  parsed_ok resp (err e) = err (CachedWaitError.deserialize_failed e (ok resp))

  -- The arm of an error response.
  abbrev pub parsed_err : ErrorResponse C → Result E SerDeError → Waited
  parsed_err resp (ok parsed) = err (CachedWaitError.response resp parsed)
  parsed_err resp (err e) = err (CachedWaitError.deserialize_failed e (err resp))

  -- The match of `CachedWaitResponse::poll` on what is ready.
  unfoldable pub waited : Result (Response C) (ResponseReceiveError C) → Waited
  waited (ok resp) = parsed_ok resp (parse_ok resp)
  waited (err ResponseReceiveError.closed) = err CachedWaitError.closed
  waited (err ResponseReceiveError.empty) = err CachedWaitError.empty
  waited (err ResponseReceiveError.retrieved) = err CachedWaitError.retrieved
  waited (err (ResponseReceiveError.response resp)) = parsed_err resp (parse_err resp)

  abbrev pub waited_poll : Poll (Result (Response C) (ResponseReceiveError C)) → Poll Waited
  waited_poll pending = pending
  waited_poll (ready r) = ready (waited r)

  -- `CachedWaitResponse::poll`.
  unfoldable pub cached_poll :
      {W : Type 0}
      → AtomicWaker W
      → C
      → RequestContext W
      → Option Receive
      → ℕ
      → Outcome (RequestContext W × Option Receive × Poll Waited)
  cached_poll aw codec c h task = do
    (c, h, r) ← poll aw codec c h task
    returns (c, h, waited_poll r)
