-- ===== src/ExtCodec/RawRpc/Bounds.antt =====
-- The ranges that the rawrpc codec decodes.
use rpc_it_rs.Base.{
  ℕ, ◌+◌, ◌^◌, ◌<◌, ◌≤◌, ◌≡◌, refl, ◌⊎◌, inl, inr, Option, none, some, Result, ok, err, returns,
  length, Option-cases, arith,
}
use rpc_it_rs.Defs.{Bytes}
use rpc_it_rs.Codec.{DecodeError, parse_failed, invalid_format, InboundFrameType, ResponseError}
use rpc_it_rs.Codec.ErrorCodes.{from_u8}
use rpc_it_rs.Codec.RequestIdBytes.{from_bytes}
use rpc_it_rs.Rpc.Receiver.Frame.{InBounds, FrameInBounds}
use rpc_it_rs.ExtCodec.RawRpc.Encode.{
  Head, notify, request, response, response_err, restore_request_id,
}
use rpc_it_rs.ExtCodec.RawRpc.Decode.{
  Slice, bytes_of, Decoded, decode_response, decode_head, decode_inbound,
}
use rpc_it_rs.ExtCodec.RawRpc.Reads.{whole_range, range_of-fits}

-- A slice of the frame behind its first byte, the tag of the head.
abbrev pub Within : Bytes → Slice → Type 0
Within frame s = (0 < s.offset) × (s.offset + s.len ≤ length frame)

abbrev pub HeadWithin : Bytes → Head Slice → Type 0
HeadWithin frame (notify method) = Within frame method
HeadWithin frame (request id method) = Within frame id × Within frame method
HeadWithin frame (response id) = Within frame id
HeadWithin frame (response_err id errc) = Within frame id

-- What postcard borrows lies in the frame that it was given.
abbrev pub Borrowing : (Bytes → Option (Head Slice × Slice)) → Type 0
Borrowing deserialize =
    (frame : Bytes) (h : Head Slice) (rest : Slice)
    → deserialize frame ≡ some (h, rest)
    → HeadWithin frame h × Within frame rest

-- The parameters or the payload, and the id of a response.
abbrev pub RestWithin : InboundFrameType → Bytes → Type 0
RestWithin (InboundFrameType.request id method params) frame = InBounds params frame
RestWithin (InboundFrameType.notify method params) frame = InBounds params frame
RestWithin (InboundFrameType.response id errc payload) frame = InBounds payload frame × (0 < id)

abbrev pub DecodesWithin : Bytes → Result InboundFrameType DecodeError → Type 0
DecodesWithin frame (ok t) = FrameInBounds t frame × RestWithin t frame
DecodesWithin frame (err e) = (e ≡ parse_failed) ⊎ (e ≡ invalid_format)

from_bytes-positive : (b : Bytes) (id : ℕ) → from_bytes b ≡ some id → 0 < id
unfolding from_bytes
from_bytes-positive b id e = ground arith

module _ (frame : Bytes) (small : length frame < 2 ^ 32) where
  abbrev Fine : Decoded → Type 0
  Fine o = (r : Result InboundFrameType DecodeError) × (o ≡ returns r) × DecodesWithin frame r

  Within-InBounds : (s : Slice) → Within frame s → InBounds (whole_range s) frame
  Within-InBounds s (a, b) = (omega arith, b)

  decode_response-Fine :
      (raw : Bytes) (errc : Option ResponseError) (payload : Slice)
      → Within frame payload
      → Fine (decode_response frame (restore_request_id raw) errc payload)
  unfolding decode_response restore_request_id
  decode_response-Fine raw errc payload p = elim (Option-cases (from_bytes raw)) [
    | inl e ↦ (err invalid_format, rw (e, restore_request_id) refl, inr refl)
    | inr (id, e) ↦ (
      ok (InboundFrameType.response id errc (whole_range payload)),
      rw (e, restore_request_id, range_of-fits frame payload small p.1) refl,
      (tt, (Within-InBounds payload p, from_bytes-positive raw id e)),
    )
  ]

  decode_head-Fine :
      (h : Head Slice) (payload : Slice)
      → HeadWithin frame h
      → Within frame payload
      → Fine (decode_head frame h payload)
  unfolding decode_head
  decode_head-Fine (notify method) payload m p = (
    ok (InboundFrameType.notify (whole_range method) (whole_range payload)),
    rw (range_of-fits frame method small m.1, range_of-fits frame payload small p.1) refl,
    (Within-InBounds method m, Within-InBounds payload p),
  )
  decode_head-Fine (request id method) payload (i, m) p = (
    ok (InboundFrameType.request (whole_range id) (whole_range method) (whole_range payload)),
    rw
        (
          range_of-fits frame id small i.1,
          range_of-fits frame method small m.1,
          range_of-fits frame payload small p.1,
        )
        refl,
    (
      (
        Within-InBounds id i,
        omega (arith, small, i.1),
        omega (arith, small, i.1),
        omega (arith, i.0),
        Within-InBounds method m,
      ),
      Within-InBounds payload p,
    ),
  )
  decode_head-Fine (response id) payload i p =
      decode_response-Fine (bytes_of frame id) none payload p
  decode_head-Fine (response_err id errc) payload i p =
      decode_response-Fine (bytes_of frame id) (some (from_u8 errc)) payload p

-- A rawrpc frame below 2 ^ 32 bytes, from which postcard borrows slices behind the first byte, is
-- decoded without a panic: with every range in the frame, the range of a request's id not ending at
-- zero, and a nonzero id in a response; or with the error `ParseFailed` or `InvalidFormat`.
pub decode_inbound-DecodesWithin :
    (deserialize : Bytes → Option (Head Slice × Slice)) (frame : Bytes)
    → Borrowing deserialize
    → length frame < 2 ^ 32
    → (r : Result InboundFrameType DecodeError) × (decode_inbound deserialize frame ≡ returns r)
      × DecodesWithin frame r
unfolding decode_inbound
decode_inbound-DecodesWithin deserialize frame borrowing small =
    elim (Option-cases (deserialize frame)) [
      | inl e ↦ (err parse_failed, rw (e, decode_inbound) refl, inl refl)
      | inr ((h, rest), e) ↦
          let (within, behind) = borrowing frame h rest e in
          let (r, done, good) = decode_head-Fine frame small h rest within behind in
          (r, rw (e, decode_inbound) done, good)
    ]
