-- ===== src/ExtCodec/RawRpc/Reads.antt =====
-- What postcard reads of the heads that it wrote, and the ranges of what it borrows.
use mathlib.Core.List.{append-nil}
use rpc_it_rs.Base.{
  ℕ, ◌+◌, ◌^◌, ◌<◌, ◌≤◌, ◌≡◌, refl, sym, ap, ◌∙◌, Option, some, [], ◌++◌, ok, returns, length,
  length-append, slice, slice-middle, arith,
}
use rpc_it_rs.Defs.{Bytes, RangeType, IsU64}
use rpc_it_rs.Codec.RequestIdBytes.{as_bytes, from_bytes, from_bytes-as_bytes}
use rpc_it_rs.ExtCodec.RawRpc.Encode.{Head, Item, head, restore_request_id}
use rpc_it_rs.ExtCodec.RawRpc.Decode.{Slice, range_of}

-- A byte string that is borrowed from a frame.
abbrev pub Borrows : Slice → Bytes → Bytes → Type 0
Borrows s frame text =
    (s.offset + s.len ≤ length frame) × (slice s.offset (s.offset + s.len) frame ≡ text)

-- What is left behind the head.
abbrev pub behind : Bytes → Bytes → Slice
behind written rest = record { offset = length written; len = length rest }

-- A head that postcard wrote is read back, with the same byte strings, and what follows it is left.
pub record Reads {S : Type 0} (postcard : Item S → Option Bytes)
    (deserialize : Bytes → Option (Head Slice × Slice)) : Type 0 where
  pub notify :
      (method w rest : Bytes)
      → postcard (head (Head.notify method)) ≡ some w
      → (m : Slice) × (deserialize (w ++ rest) ≡ some (Head.notify m, behind w rest))
        × Borrows m (w ++ rest) method
  pub request :
      (id method w rest : Bytes)
      → postcard (head (Head.request id method)) ≡ some w
      → (i m : Slice) × (deserialize (w ++ rest) ≡ some (Head.request i m, behind w rest))
        × Borrows i (w ++ rest) id
        × Borrows m (w ++ rest) method
  pub response :
      (id w rest : Bytes)
      → postcard (head (Head.response id)) ≡ some w
      → (i : Slice) × (deserialize (w ++ rest) ≡ some (Head.response i, behind w rest))
        × Borrows i (w ++ rest) id
  pub response_err :
      (id w rest : Bytes) (errc : ℕ)
      → postcard (head (Head.response_err id errc)) ≡ some w
      → (i : Slice) × (deserialize (w ++ rest) ≡ some (Head.response_err i errc, behind w rest))
        × Borrows i (w ++ rest) id

abbrev pub whole_range : Slice → RangeType
whole_range s = record { begin = s.offset; end = s.offset + s.len }

pub range_of-fits :
    (frame : Bytes) (s : Slice)
    → length frame < 2 ^ 32
    → s.offset + s.len ≤ length frame
    → range_of frame s ≡ returns (whole_range s)
unfolding range_of
range_of-fits frame s small within = ground (arith, small, within)

pub behind-Borrows : (w rest : Bytes) → Borrows (behind w rest) (w ++ rest) rest
behind-Borrows w rest =
    let l = length-append w rest in
    (
      omega (arith, l),
      ap (λ (r : Bytes). slice (length w) (length w + length rest) (w ++ r)) (sym (append-nil rest))
          ∙ slice-middle w rest [] (length w) (length w + length rest) refl refl,
    )

pub restore_request_id-as_bytes :
    (id : ℕ) → 0 < id → IsU64 id → restore_request_id (as_bytes id) ≡ ok id
unfolding restore_request_id
restore_request_id-as_bytes id positive fits =
    let same : from_bytes (as_bytes id) ≡ some id =
      ap from_bytes (sym (append-nil (as_bytes id)))
      ∙ (from_bytes-as_bytes id [] [] positive fits (omega arith)).0 in
    rw (same, restore_request_id) refl
