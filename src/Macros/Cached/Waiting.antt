-- ===== src/Macros/Cached/Waiting.antt =====
-- What a task that waits for a typed response gets.
use rpc_it_rs.Base.{◌≡◌, ◌⊎◌, Option, none, some, Result, ok, err}
use rpc_it_rs.Defs.{Bytes, RangeType}
use rpc_it_rs.Codec.{ResponseError}
use rpc_it_rs.Rpc.Types.{Response, ErrorResponse}
use rpc_it_rs.Macros.Cached.{CachedWaitError}

module _ {C V E SerDeError : Type 0} (parse_ok : Response C → Result V SerDeError)
    (parse_err : ErrorResponse C → Result E SerDeError) where
  -- What a task is to be given for the bytes that arrived: without an error code a response, with its
  -- parsed value, or the error of its parser and the response; with an error code an error response,
  -- with its parsed error, or the error of its parser and the error response.
  abbrev pub Given :
      C
      → Bytes
      → RangeType
      → Option ResponseError
      → Result (Response C × V) (CachedWaitError C E SerDeError)
      → Type 0
  Given codec raw payload none r =
      let resp : Response C = record { codec = codec; raw = raw; payload = payload } in
      ((v : V) × (parse_ok resp ≡ ok v) × (r ≡ ok (resp, v)))
      ⊎ ((x : SerDeError) × (parse_ok resp ≡ err x)
          × (r ≡ err (CachedWaitError.deserialize_failed x (ok resp))))
  Given codec raw payload (some errc) r =
      let resp : ErrorResponse C = record {
        errc = errc;
        codec = codec;
        raw = raw;
        payload = payload;
      } in
      ((v : E) × (parse_err resp ≡ ok v) × (r ≡ err (CachedWaitError.response resp v)))
      ⊎ ((x : SerDeError) × (parse_err resp ≡ err x)
          × (r ≡ err (CachedWaitError.deserialize_failed x (err resp))))
