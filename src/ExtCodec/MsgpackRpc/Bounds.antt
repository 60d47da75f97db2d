-- ===== src/ExtCodec/MsgpackRpc/Bounds.antt =====
-- The ranges that the MessagePack-RPC codec decodes, and where it panics.
use Prim.Native.String.{String}
use rpc_it_rs.Base.{
  ℕ, suc, ◌^◌, ◌<◌, ◌≤◌, ◌≡◌, refl, ◌⊎◌, inl, inr, ◌&&◌, Option, none, some, ok, err, Outcome,
  returns, panics, ◌>>=◌, length, length-drop, drop, [], ◌∷◌, ◌==◌, leb, if◌then◌else◌, if-both,
  if-split, arith,
}
use rpc_it_rs.Defs.{Bytes, RangeType, IsU32}
use rpc_it_rs.Codec.{DecodeError, InboundFrameType, ResponseError, request, notify, response}
use rpc_it_rs.Codec.ErrorCodes.{from_str}
use rpc_it_rs.Rpc.Receiver.Frame.{InBounds, FrameInBounds}
use rpc_it_rs.ExtCodec.MsgpackRpc.Encode.{type_id_request, type_id_response, type_id_notification}
use rpc_it_rs.ExtCodec.MsgpackRpc.Decode.{
  Reader, Rmp, Decoded, decoded, and_then, last, pos, len_u32, call_type, error_response, read_code,
  decode_call, errc_find, error_part, found_or, decode_error, after_id, decode_response,
  decode_request, decode_inbound,
}

-- A reader takes at least one byte.
abbrev pub Shrinks : {A : Type 0} → Reader A → Type 0
Shrinks {A} read = (s rest : Bytes) (a : A) → read s ≡ some (a, rest) → length rest < length s

pub record IsRmp (rmp : Rmp) : Type 0 where
  pub array_len : Shrinks rmp.read_array_len
  pub int_u8 : Shrinks rmp.read_int_u8
  pub int_u32 : Shrinks rmp.read_int_u32
  pub str_len : Shrinks rmp.read_str_len
  pub nil : Shrinks rmp.read_nil
  pub str : Shrinks rmp.read_str_from_slice
  pub u32 : (s rest : Bytes) (n : ℕ) → rmp.read_int_u32 s ≡ some (n, rest) → n < 2 ^ 32

-- The other ranges, and the id of a response. The payload of an error may start behind its end, by
-- one byte.
abbrev pub RestInBounds : InboundFrameType → Bytes → Type 0
RestInBounds (request id method params) frame = InBounds params frame
RestInBounds (notify method params) frame = InBounds params frame
RestInBounds (response id none payload) frame = InBounds payload frame × (0 < id) × (id < 2 ^ 32)
RestInBounds (response id (some errc) payload) frame =
    (payload.begin ≤ suc payload.end) × (suc payload.end ≤ length frame) × (0 < id) × (id < 2 ^ 32)

-- The method of a request or of a notification starts at `rd`, behind the array's length, the type
-- and the id of a request.
abbrev pub MethodAt : Rmp → Bytes → Bytes → Type 0
MethodAt rmp frame rd =
    (r1 r2 : Bytes) × (size type_id : ℕ) × (rmp.read_array_len frame ≡ some (size, r1))
    × (rmp.read_int_u8 r1 ≡ some (type_id, r2))
    × (((size ≡ 4)
          × (type_id ≡ type_id_request)
          × ((id : ℕ) × (rmp.read_int_u32 r2 ≡ some (id, rd))))
        ⊎ ((size ≡ 3) × (type_id ≡ type_id_notification) × (r2 ≡ rd)))

-- The frame gives its method a length that is more than what follows.
abbrev pub LongMethod : Rmp → Bytes → Type 0
LongMethod rmp frame =
    (rd rest : Bytes) × (n : ℕ) × MethodAt rmp frame rd
    × (rmp.read_str_len rd ≡ some (n, rest))
    × (length rest < n)

-- What a frame may be decoded to.
abbrev pub DecodesTo : Rmp → Bytes → Decoded → Type 0
DecodesTo rmp frame (returns (ok t)) = FrameInBounds t frame × RestInBounds t frame
DecodesTo rmp frame (returns (err e)) = e ≡ DecodeError.parse_failed
DecodesTo rmp frame panics = LongMethod rmp frame

abbrev IdInBounds : Option RangeType → Bytes → Type 0
IdInBounds none frame = Unit {0}
IdInBounds (some r) frame = InBounds r frame × IsU32 r.begin × IsU32 r.end × (0 < r.end)

call_type-InBounds :
    (id : Option RangeType) (method params : RangeType) (frame : Bytes)
    → IdInBounds id frame
    → InBounds method frame
    → InBounds params frame
    → FrameInBounds (call_type id method params) frame
      × RestInBounds (call_type id method params) frame
call_type-InBounds none method params frame i m p = (m, p)
call_type-InBounds (some r) method params frame (b, x, y, z) m p = ((b, x, y, z, m), p)

abbrev IsPart : Bytes → Option (ResponseError × Bytes) → Type 0
IsPart rd none = Unit {0}
IsPart rd (some (errc, tail)) = length tail ≤ length rd

found_or-shorter :
    (rd : Bytes) (r : Option (ResponseError × Bytes))
    → IsPart rd r
    → length (found_or rd r).1 ≤ length rd
found_or-shorter rd none h = omega arith
found_or-shorter rd (some (errc, tail)) h = h

last-some : (xs : Bytes) → 0 < length xs → (b : ℕ) × (last xs ≡ some b)
last-some [] h = absurd (omega (arith, h))
last-some (b ∷ []) h = (b, refl)
last-some (b ∷ c ∷ bs) h = last-some (c ∷ bs) (omega arith)

module _ (rmp : Rmp) (laws : IsRmp rmp) (frame : Bytes) (small : length frame < 2 ^ 32) where
  abbrev Fine : Decoded → Type 0
  Fine = DecodesTo rmp frame

  and_then-Fine :
      {A : Type 0} (o : Option (A × Bytes)) (f : A → Bytes → Decoded)
      → ((a : A) (rest : Bytes) → o ≡ some (a, rest) → Fine (f a rest))
      → Fine (and_then o f)
  and_then-Fine none f h = refl
  and_then-Fine (some (a, rest)) f h = h a rest refl

  pos-pos :
      (from to : Bytes)
      → length from ≤ length frame
      → length to ≤ length from
      → InBounds (record { begin = pos frame from; end = pos frame to }) frame
  pos-pos from to a b = (omega (arith, small, a, b), omega (arith, small))

  pos-len_u32 :
      (from : Bytes)
      → length from ≤ length frame
      → InBounds (record { begin = pos frame from; end = len_u32 frame }) frame
  pos-len_u32 from a = (omega (arith, small, a), omega (arith, small))

  decode_call-Fine :
      (id : Option RangeType) (rd : Bytes)
      → length rd ≤ length frame
      → IdInBounds id frame
      → MethodAt rmp frame rd
      → Fine (decode_call rmp frame id rd)
  unfolding decode_call
  decode_call-Fine id rd within range place = and_then-Fine (rmp.read_str_len rd) _ (λ n rest e.
      let shorter = laws.str_len rd rest n e in
      let dropped = length-drop n rest in
      if-split
        (λ (o : Outcome Bytes). DecodesTo rmp frame (
          o >>= λ rd'. decoded (
            call_type id (record { begin = pos frame rest; end = pos frame rd' })
              (record { begin = pos frame rd'; end = len_u32 frame }))))
        (leb n (length rest))
        (λ fits.
          call_type-InBounds id _ _ frame range
            (pos-pos rest (drop n rest) (omega (arith, shorter, within)) (omega (arith, dropped)))
            (pos-len_u32 (drop n rest) (omega (arith, shorter, within, dropped))))
        (λ long. (rd, rest, n, place, e, ground (arith, long))))

  read_code-shorter :
      (rd : Bytes) (r : Option (String × Bytes))
      → ((s : String) (tail : Bytes) → r ≡ some (s, tail) → length tail ≤ length rd)
      → IsPart rd (read_code r)
  read_code-shorter rd none h = tt
  read_code-shorter rd (some (s, tail)) h =
      elim (from_str s)
        as (λ c. IsPart rd (elim c [ err u ↦ none | ok errc ↦ some (errc, tail) ])) [
          | err u ↦ tt
          | ok errc ↦ h s tail refl
        ]

  errc_find-shorter : (rd : Bytes) → IsPart rd (errc_find rmp rd)
  errc_find-shorter rd =
      elim (rmp.read_array_len rd)
          as (λ r.
            rmp.read_array_len rd ≡ r
            → IsPart rd (elim r [
              | none ↦ none
              | some (x, rest) ↦ if x == 2 then read_code (rmp.read_str_from_slice rest) else none
            ])) [
              | none ↦ λ e. tt
              | some (x, rest) ↦ λ e.
                  let shorter = laws.array_len rd rest x e in
                  if-both (IsPart rd) (x == 2)
                    (read_code-shorter rd (rmp.read_str_from_slice rest) (λ s tail f.
                      let less = laws.str rest tail s f in omega (arith, shorter, less)))
                    tt
            ]
        refl

  error_part-shorter : (rd : Bytes) → length (error_part rmp rd).1 ≤ length rd
  error_part-shorter rd = found_or-shorter rd (errc_find rmp rd) (errc_find-shorter rd)

  decode_error-Fine :
      (rd : Bytes) (id : ℕ)
      → length rd < length frame
      → 0 < id
      → id < 2 ^ 32
      → Fine (decode_error rmp frame id rd)
  unfolding decode_error
  decode_error-Fine rd id within positive fits =
      let (marker, e) = last-some frame (omega (arith, within)) in
      let part = error_part-shorter rd in
      rw e (
        if-both Fine (marker == 192)
          (if-split
            (λ (o : Outcome ℕ). Fine (
              o >>= λ payload_end.
              decoded (error_response frame id (error_part rmp rd) payload_end)))
            (len_u32 frame == 0) (λ z. absurd (ground (arith, z, small, within)))
            (λ nz. (
              tt,
              (omega (arith, part, within, small), omega (arith, within, small), positive, fits),
            )))
          refl)

  after_id-Fine :
      (rd : Bytes) (id : ℕ)
      → length rd < length frame
      → 0 < id
      → id < 2 ^ 32
      → Fine (after_id rmp frame id rd)
  unfolding after_id
  after_id-Fine rd id within positive fits =
      elim (rmp.read_nil rd)
          as (λ r.
            rmp.read_nil rd ≡ r
            → Fine (elim r [
              | some (u, rest) ↦
                  decoded
                    (response id none (record { begin = pos frame rest; end = len_u32 frame }))
              | none ↦ decode_error rmp frame id rd
            ])) [
              | none ↦ λ f. decode_error-Fine rd id within positive fits
              | some (u, rest) ↦ λ f.
                  let less = laws.nil rd rest u f in
                  (tt, (pos-len_u32 rest (omega (arith, less, within)), positive, fits))
            ]
        refl

  decode_response-Fine :
      (rd : Bytes) → length rd < length frame → Fine (decode_response rmp frame rd)
  unfolding decode_response
  decode_response-Fine rd within = and_then-Fine (rmp.read_int_u32 rd) _ (λ id rest e.
      let shorter = laws.int_u32 rd rest id e in
      if-split Fine (id == 0) (λ z. refl)
        (λ nz.
          after_id-Fine rest id (omega (arith, shorter, within)) (ground (arith, nz))
            (laws.u32 rd rest id e)))

  decode_request-Fine :
      (rd : Bytes)
      → length rd < length frame
      → ((id : ℕ) (rest : Bytes) → rmp.read_int_u32 rd ≡ some (id, rest) → MethodAt rmp frame rest)
      → Fine (decode_request rmp frame rd)
  unfolding decode_request
  decode_request-Fine rd within place = and_then-Fine (rmp.read_int_u32 rd) _ (λ id rest e.
      let shorter = laws.int_u32 rd rest id e in
      decode_call-Fine (some _) rest (omega (arith, shorter, within))
        (
          pos-pos rd rest (omega (arith, within)) (omega (arith, shorter)),
          omega (arith, small),
          omega (arith, small),
          omega (arith, shorter, within, small),
        )
        (place id rest e))

  -- A frame below 2 ^ 32 bytes, under readers that take at least one byte: it is decoded with every
  -- range in the frame, but that the payload of an error response may start one byte behind its end,
  -- and with a nonzero 32-bit id in a response; or the error is `ParseFailed`; or the decoder panics,
  -- and only where the frame is a request or a notification by its
  -- array's length and type, and gives its method a length that is more than what follows it.
  pub decode_inbound-DecodesTo : DecodesTo rmp frame (decode_inbound rmp frame)
  unfolding decode_inbound
  decode_inbound-DecodesTo = and_then-Fine (rmp.read_array_len frame) _ (λ size rd e.
      and_then-Fine (rmp.read_int_u8 rd) _ (λ type_id rest f.
        let shorter = laws.array_len frame rd size e in
        let less = laws.int_u8 rd rest type_id f in
        let within : length rest < length frame = omega (arith, shorter, less) in
        if-split Fine ((size == 4) && (type_id == type_id_request))
          (λ z. decode_request-Fine rest within (λ id r g.
            (rd, rest, size, type_id, e, f, inl (ground (arith, z), ground (arith, z), (id, g)))))
          (λ _.
            if-split Fine ((size == 3) && (type_id == type_id_notification))
              (λ z.
                decode_call-Fine none rest (omega (arith, within)) tt
                  (rd, rest, size, type_id, e, f, inr (ground (arith, z), ground (arith, z), refl)))
              (λ _.
                if-both Fine ((size == 4) && (type_id == type_id_response))
                  (decode_response-Fine rest within) refl))))
