-- ===== src/ExtCodec/JsonRpc/Bounds.antt =====
-- The ranges that the JSON-RPC codec decodes.
use rpc_it_rs.Base.{
  ℕ, ◌+◌, ◌%◌, ◌^◌, ◌<◌, ◌≤◌, ◌≡◌, refl, subst, Bool, Option, none, some, Result, ok, err, Outcome,
  returns, panics, length, slice, ◌>>=◌, if-both, arith,
}
use rpc_it_rs.Base.Text.{same_text}
use rpc_it_rs.Defs.{Bytes, IsU64}
use rpc_it_rs.Codec.{DecodeError, InboundFrameType, request, notify, response}
use rpc_it_rs.Rpc.Receiver.Frame.{InBounds, FrameInBounds}
use rpc_it_rs.ExtCodec.JsonRpc.ErrorCodes.{errc_to_error}
use rpc_it_rs.ExtCodec.JsonRpc.RequestId.{req_id_from_str, req_id_from_str_bounds}
use rpc_it_rs.ExtCodec.JsonRpc.Encode.{version}
use rpc_it_rs.ExtCodec.JsonRpc.Decode.{
  Borrowed, RawData, RawErrorObject, range_of, data_range, error_code, response_to, error_frame,
  reply_type, frame_type, decode_raw, decode_inbound,
}

-- A text that is borrowed from a frame, behind the frame's first byte, a bracket.
pub record IsBorrowed (frame : Bytes) (s : Borrowed) : Type 0 where
  pub inside : 0 < s.start
  pub ends : s.start + length s.text ≤ length frame
  pub same : slice s.start (s.start + length s.text) frame ≡ s.text

abbrev pub IsBorrowed? : Bytes → Option Borrowed → Type 0
IsBorrowed? frame none = Unit {0}
IsBorrowed? frame (some s) = IsBorrowed frame s

abbrev pub IsBorrowedError : Bytes → Option RawErrorObject → Type 0
IsBorrowedError frame none = Unit {0}
IsBorrowedError frame (some e) = IsBorrowed? frame e.data_

pub record IsBorrowedData (frame : Bytes) (raw : RawData) : Type 0 where
  pub method : IsBorrowed? frame raw.method
  pub params : IsBorrowed? frame raw.params
  pub result : IsBorrowed? frame raw.result
  pub error : IsBorrowedError frame raw.error
  pub id : IsBorrowed? frame raw.id

-- The ranges of the parameters and of the payload too, and the id of a response.
abbrev pub RestInBounds : InboundFrameType → Bytes → Type 0
RestInBounds (request id method params) frame = InBounds params frame
RestInBounds (notify method params) frame = InBounds params frame
RestInBounds (response id errc payload) frame = InBounds payload frame × (0 < id) × IsU64 id

abbrev pub Valid : InboundFrameType → Bytes → Type 0
Valid t frame = FrameInBounds t frame × RestInBounds t frame

-- Below 2 ^ 32 bytes the casts of `range_of` lose nothing.
pub range_of_exact :
    (frame : Bytes) (s : Borrowed)
    → length frame < 2 ^ 32
    → IsBorrowed frame s
    → (0 < (range_of s).end)
      × InBounds (range_of s) frame
      × (slice (range_of s).begin (range_of s).end frame ≡ s.text)
range_of_exact frame s small b =
    let starts : s.start % 2 ^ 32 ≡ s.start = omega (arith, small, b.inside, b.ends) in
    let stops : (s.start + length s.text) % 2 ^ 32 ≡ s.start + length s.text =
      omega (arith, small, b.inside, b.ends) in
    (
      omega (arith, stops, b.inside),
      (omega (arith, starts, stops), omega (arith, stops, b.ends)),
      rw (starts, stops) b.same,
    )

abbrev IsValid : Bytes → Outcome (Result InboundFrameType DecodeError) → Type 0
IsValid frame (returns (ok t)) = Valid t frame
IsValid frame (returns (err e)) = Unit {0}
IsValid frame panics = Unit {0}

data_range-InBounds :
    (frame : Bytes) (data_ : Option Borrowed)
    → length frame < 2 ^ 32
    → IsBorrowed? frame data_
    → InBounds (data_range data_) frame
data_range-InBounds frame none small b = (omega arith, omega arith)
data_range-InBounds frame (some s) small b = (range_of_exact frame s small b).1

response_to-IsValid :
    (frame : Bytes) (id : Borrowed) (answer : ℕ → Outcome InboundFrameType)
    → ((n : ℕ) → (0 < n) × IsU64 n → IsValid frame (answer n >>= λ t. returns (ok t)))
    → IsValid frame (response_to id answer)
response_to-IsValid frame id answer h =
    elim (req_id_from_str id.text)
        as (λ r.
          req_id_from_str id.text ≡ r
          → IsValid frame
              (elim r [ err e ↦ returns (err e) | ok n ↦ answer n >>= λ t. returns (ok t) ])) [
                | err e ↦ λ same. tt
                | ok n ↦ λ same. h n (req_id_from_str_bounds id.text n same)
              ]
      refl

error_frame-IsValid :
    (frame : Bytes) (e : RawErrorObject) (n : ℕ)
    → length frame < 2 ^ 32
    → IsBorrowed? frame e.data_
    → (0 < n) × IsU64 n
    → IsValid frame (error_frame e n >>= λ t. returns (ok t))
error_frame-IsValid frame e n small b h =
    elim (errc_to_error (error_code e))
      as (λ o. IsValid frame (
        (o >>= λ errc. returns (response n (some errc) (data_range e.data_))) >>= λ t.
        returns (ok t))) [
          | panics ↦ tt
          | returns errc ↦ (tt, (data_range-InBounds frame e.data_ small b, h.0, h.1))
        ]

reply_type-IsValid :
    (frame : Bytes) (id result : Option Borrowed) (error : Option RawErrorObject)
    → length frame < 2 ^ 32
    → IsBorrowed? frame result
    → IsBorrowedError frame error
    → IsValid frame (reply_type id result error)
unfolding reply_type
reply_type-IsValid frame none result error small r e = tt
reply_type-IsValid frame (some id) (some s) error small r e =
    response_to-IsValid frame id (λ n. returns (response n none (range_of s)))
      (λ n h. (tt, ((range_of_exact frame s small r).1, h.0, h.1)))
reply_type-IsValid frame (some id) none (some o) small r e =
    response_to-IsValid frame id (error_frame o) (λ n h. error_frame-IsValid frame o n small e h)
reply_type-IsValid frame (some id) none none small r e = tt

frame_type-IsValid :
    (frame : Bytes) (m p id r : Option Borrowed) (e : Option RawErrorObject)
    → length frame < 2 ^ 32
    → IsBorrowed? frame m
    → IsBorrowed? frame p
    → IsBorrowed? frame id
    → IsBorrowed? frame r
    → IsBorrowedError frame e
    → IsValid frame (frame_type m p id r e)
unfolding frame_type
frame_type-IsValid frame (some m) (some p) (some id) r e small bm bp bi br be =
    let (positive, within, same) = range_of_exact frame id small bi in
    (
      (within, omega arith, omega arith, positive, (range_of_exact frame m small bm).1),
      (range_of_exact frame p small bp).1,
    )
frame_type-IsValid frame (some m) (some p) none r e small bm bp bi br be =
    ((range_of_exact frame m small bm).1, (range_of_exact frame p small bp).1)
frame_type-IsValid frame (some m) none id r e small bm bp bi br be =
    reply_type-IsValid frame id r e small br be
frame_type-IsValid frame none p id r e small bm bp bi br be =
    reply_type-IsValid frame id r e small br be

-- A frame below 2 ^ 32 bytes whose texts serde_json borrows from behind its first byte: every range
-- of what it is decoded as lies in the frame, the id range of a request does not end at zero, and
-- the id of a response is a nonzero 64-bit number.
pub decode_inbound_bounds :
    (is_utf8 : Bytes → Bool) (parse : Bytes → Option RawData) (frame : Bytes) (t : InboundFrameType)
    → ((raw : RawData) → parse frame ≡ some raw → IsBorrowedData frame raw)
    → length frame < 2 ^ 32
    → decode_inbound is_utf8 parse frame ≡ returns (ok t)
    → FrameInBounds t frame × RestInBounds t frame
unfolding decode_inbound decode_raw
decode_inbound_bounds is_utf8 parse frame t borrows small decoded =
    let valid : IsValid frame (decode_inbound is_utf8 parse frame) =
      if-both (IsValid frame) (is_utf8 frame)
        (elim (parse frame)
            as (λ r.
              parse frame ≡ r
              → IsValid frame (elim r [
                | none ↦ returns (err DecodeError.parse_failed)
                | some raw ↦ decode_raw raw
              ])) [
                | none ↦ λ e. tt
                | some raw ↦ λ e.
                    let b = borrows raw e in
                    if-both (IsValid frame) (same_text raw.jsonrpc.text version)
                      (frame_type-IsValid frame raw.method raw.params raw.id raw.result raw.error
                        small b.method b.params b.id b.result b.error)
                      tt
              ]
          refl)
        tt in
    subst (IsValid frame) decoded valid
