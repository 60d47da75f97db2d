-- ===== src/ExtCodec/MsgpackRpc/Format.antt =====
-- The form in which rmp writes values, and the parts of a frame.
use Prim.Native.String.{String}
use mathlib.Core.List.{append-nil}
use rpc_it_rs.Base.{
  ℕ, ◌^◌, ◌<◌, ◌≡◌, subst, none, some, [], ◌∷◌, ◌++◌, length, length-append, slice, slice-middle,
  ltb, if◌then◌else◌, arith,
}
use rpc_it_rs.Defs.{Bytes, RangeType}
use rpc_it_rs.Codec.{ResponseError}
use rpc_it_rs.Codec.ErrorCodes.{to_str}
use rpc_it_rs.ExtCodec.MsgpackRpc.Decode.{Rmp, pos, len_u32}

-- How rmp writes the heads of the values.
pub record Format : Type 0 where
  pub array_head : ℕ → Bytes
  pub uint : ℕ → Bytes
  pub str_head : ℕ → Bytes
  pub str : String → Bytes

-- What was written is read back, a text for the names of the error codes; the head of an array is not nil, and `read_u32` reads only the form
-- of five bytes, which a number below 2 ^ 16 does not get.
pub record Reads (rmp : Rmp) (format : Format) : Type 0 where
  pub array_len :
      (n : ℕ) (rest : Bytes)
      → n < 16
      → rmp.read_array_len (format.array_head n ++ rest) ≡ some (n, rest)
  pub int_u8 :
      (n : ℕ) (rest : Bytes) → n < 256 → rmp.read_int_u8 (format.uint n ++ rest) ≡ some (n, rest)
  pub int_u32 :
      (n : ℕ) (rest : Bytes)
      → n < 2 ^ 32
      → rmp.read_int_u32 (format.uint n ++ rest) ≡ some (n, rest)
  pub str_len :
      (n : ℕ) (rest : Bytes)
      → n < 2 ^ 32
      → rmp.read_str_len (format.str_head n ++ rest) ≡ some (n, rest)
  pub str :
      (ec : ResponseError) (rest : Bytes)
      → rmp.read_str_from_slice (format.str (to_str ec) ++ rest) ≡ some (to_str ec, rest)
  pub nil : (rest : Bytes) → rmp.read_nil (192 ∷ rest) ≡ some (tt, rest)
  pub array_not_nil : (rest : Bytes) → rmp.read_nil (format.array_head 2 ++ rest) ≡ none
  pub u32 :
      (n : ℕ)
      → n < 2 ^ 32
      → rmp.read_u32 (format.uint n) ≡ (if ltb n (2 ^ 16) then none else some (n, []))

abbrev pub HasRange : RangeType → Bytes → Bytes → Type 0
HasRange r frame text = slice r.begin r.end frame ≡ text

pub pos-append :
    (front cursor : Bytes)
    → length (front ++ cursor) < 2 ^ 32
    → pos (front ++ cursor) cursor ≡ length front
pos-append front cursor small = let same = length-append front cursor in omega (arith, same, small)

-- A part of a frame, between two cursors.
pub part-HasRange :
    (frame front part rear : Bytes)
    → front ++ (part ++ rear) ≡ frame
    → length frame < 2 ^ 32
    → HasRange (record { begin = pos frame (part ++ rear); end = pos frame rear }) frame part
part-HasRange frame front part rear same small =
    subst
      (λ (f : Bytes).
        length f < 2 ^ 32
        → HasRange (record { begin = pos f (part ++ rear); end = pos f rear }) f part)
      same
      (λ s.
        let a = length-append front (part ++ rear) in
        let b = length-append part rear in
        slice-middle front part rear _ _ (pos-append front (part ++ rear) s)
          (omega (arith, a, b, s)))
      small

-- The last part of a frame.
pub tail-HasRange :
    (frame front part : Bytes)
    → front ++ part ≡ frame
    → length frame < 2 ^ 32
    → HasRange (record { begin = pos frame part; end = len_u32 frame }) frame part
tail-HasRange frame front part same small =
    subst
      (λ (f : Bytes).
        length f < 2 ^ 32 → HasRange (record { begin = pos f part; end = len_u32 f }) f part)
      same
      (λ s.
        let a = length-append front part in
        let start = pos-append front part s in
        subst
          (λ (r : Bytes).
            slice (pos (front ++ part) part) (len_u32 (front ++ part)) (front ++ r) ≡ part)
          (append-nil part) (slice-middle front part [] _ _ start (omega (arith, a, s))))
      small
