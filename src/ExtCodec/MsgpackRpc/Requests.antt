-- ===== src/ExtCodec/MsgpackRpc/Requests.antt =====
-- A MessagePack-RPC request from its encoder to the other side's decoder, and the request id in its
-- 32-bit range.
use mathlib.Core.List.{append_assoc}
use rpc_it_rs.Base.{
  ℕ, ◌%◌, ◌^◌, ◌<◌, ◌≤◌, ◌≡◌, sym, ap, ◌∙◌, ◌⊎◌, Bool, true, Option, [], ◌++◌, ok, err, returns,
  panics, drop, length, length-append, slice, drop-append, ltb, leb, if◌then◌else◌, arith,
}
use rpc_it_rs.Defs.{Bytes, RangeType, IsU32, IsU64}
use rpc_it_rs.Codec.{DecodeError, InboundFrameType}
use rpc_it_rs.ExtCodec.JsonRpc.RequestId.{nonzero_id}
use rpc_it_rs.ExtCodec.MsgpackRpc.Encode.{Message, fold_req_id, number, encode_request}
use rpc_it_rs.ExtCodec.MsgpackRpc.Decode.{
  Rmp, pos, len_u32, advance, decode_call, decode_request, decode_inbound, restore_request_id,
}
use rpc_it_rs.ExtCodec.MsgpackRpc.Format.{Format, Reads, HasRange, part-HasRange, tail-HasRange}

-- The id that goes out is a nonzero 32-bit number, the same id if it was one, and else the lower half
-- or 1; folding again changes nothing.
pub fold_req_id_bounds :
    (id : ℕ)
    → 0 < id
    → IsU64 id
    → (0 < fold_req_id id)
      × IsU32 (fold_req_id id)
      × ((fold_req_id id ≡ id)
          ⊎ ((2 ^ 32 ≤ id) × (fold_req_id id ≡ id % 2 ^ 32))
          ⊎ ((2 ^ 32 ≤ id) × (id % 2 ^ 32 ≡ 0) × (fold_req_id id ≡ 1)))
      × (fold_req_id (fold_req_id id) ≡ fold_req_id id)
unfolding fold_req_id
fold_req_id_bounds id positive fits = (ground arith, ground arith, ground arith, ground arith)

abbrev pub request_bytes : {S : Type 0} → Format → (S → Bytes) → ℕ → Bytes → S → Bytes
request_bytes format value id method params =
    format.array_head 4
    ++ (format.uint 0
        ++ (format.uint id ++ (format.str_head (length method) ++ (method ++ value params))))

advance-append : (method rest : Bytes) → advance (length method) (method ++ rest) ≡ returns rest
advance-append method rest =
    let fits : leb (length method) (length (method ++ rest)) ≡ true =
      let same = length-append method rest in ground (arith, same) in
    ap (λ (b : Bool). if b then returns (drop (length method) (method ++ rest)) else panics) fits
    ∙ ap returns (drop-append method rest)

append_assoc4 : (a b c d r : Bytes) → (((a ++ b) ++ c) ++ d) ++ r ≡ a ++ (b ++ (c ++ (d ++ r)))
append_assoc4 a b c d r =
    append_assoc ((a ++ b) ++ c) d r
    ∙ append_assoc (a ++ b) c (d ++ r)
    ∙ append_assoc a b (c ++ (d ++ r))

module _ {S : Type 0} (rmp : Rmp) (format : Format) (value : S → Bytes)
    (serialize : Message S → Bytes × Bool) (reads : Reads rmp format) where
  decode_inbound-request_bytes :
      (n : ℕ) (method : Bytes) (params : S) (frame : Bytes)
      → n < 2 ^ 32
      → frame ≡ request_bytes format value n method params
      → length frame < 2 ^ 32
      → (i m p : RangeType) × (decode_inbound rmp frame
          ≡ returns (ok (InboundFrameType.request i m p)))
        × HasRange i frame (format.uint n)
        × HasRange m frame method
        × HasRange p frame (value params)
  unfolding decode_inbound decode_request decode_call
  decode_inbound-request_bytes n method params frame word form small =
      let a = format.array_head 4 in
      let z = format.uint 0 in
      let u = format.uint n in
      let s = format.str_head (length method) in
      let v = value params in
      let call = s ++ (method ++ v) in
      let e1 = ap rmp.read_array_len form ∙ reads.array_len 4 (z ++ (u ++ call)) (omega arith) in
      let whole = append_assoc4 a z u s (method ++ v) ∙ sym form in
      let inside : length method < 2 ^ 32 = omega (
        arith,
        small,
        ap length (sym whole),
        length-append (((a ++ z) ++ u) ++ s) (method ++ v),
        length-append method v,
      ) in
      (
        record { begin = pos frame (u ++ call); end = pos frame call },
        record { begin = pos frame (method ++ v); end = pos frame v },
        record { begin = pos frame v; end = len_u32 frame },
        rw (
          e1,
          reads.int_u8 0 (u ++ call) (omega arith),
          reads.int_u32 n call word,
          reads.str_len (length method) (method ++ v) inside,
          advance-append method v,
        ),
        part-HasRange frame (a ++ z) u call (append_assoc a z (u ++ call) ∙ sym form) small,
        part-HasRange frame (((a ++ z) ++ u) ++ s) method v whole small,
        tail-HasRange frame ((((a ++ z) ++ u) ++ s) ++ method) v
            (append_assoc (((a ++ z) ++ u) ++ s) method v ∙ whole) small,
      )

  restore_request_id-uint :
      (n : ℕ)
      → 0 < n
      → n < 2 ^ 32
      → restore_request_id rmp (format.uint n)
        ≡ (if ltb n (2 ^ 16) then err DecodeError.invalid_format else ok n)
  unfolding restore_request_id
  restore_request_id-uint n positive word =
      ap (λ (r : Option (ℕ × Bytes)). nonzero_id (number r)) (reads.u32 n word)
      ∙ ground (arith, positive)

  -- A request that rmp_serde writes in its format: the id that is returned is the id that was sent;
  -- the other side decodes a request with the ranges of the id, the method and the parameters; the
  -- raw id is restored as the id from 2 ^ 16 on, and is the error `InvalidFormat` below.
  pub decode_inbound-encode_request :
      (id : ℕ) (method : Bytes) (params : S) (frame : Bytes)
      → 0 < id
      → IsU64 id
      → frame ≡ request_bytes format value (fold_req_id id) method params
      → serialize (Message.request 0 (fold_req_id id) method params) ≡ (frame, true)
      → length frame < 2 ^ 32
      → (encode_request serialize rmp.read_u32 id method params [] ≡ (frame, ok (fold_req_id id)))
        × ((i m p : RangeType) × (decode_inbound rmp frame
              ≡ returns (ok (InboundFrameType.request i m p)))
            × HasRange i frame (format.uint (fold_req_id id))
            × HasRange m frame method
            × HasRange p frame (value params)
            × (restore_request_id rmp (slice i.begin i.end frame) ≡ (
                if ltb (fold_req_id id) (2 ^ 16)
                then err DecodeError.invalid_format
                else ok (fold_req_id id))))
  unfolding encode_request
  decode_inbound-encode_request id method params frame positive fits form written small =
      let (nonzero, word, which, again) = fold_req_id_bounds id positive fits in
      let n = fold_req_id id in
      let cast : n % 2 ^ 32 ≡ n = omega (arith, word) in
      let (i, m, p, e, hi, hm, hp) =
        decode_inbound-request_bytes n method params frame word form small in
      (
        rw (cast, written),
        (
          i,
          m,
          p,
          e,
          hi,
          hm,
          hp,
          ap (restore_request_id rmp) hi ∙ restore_request_id-uint n nonzero word,
        ),
      )
