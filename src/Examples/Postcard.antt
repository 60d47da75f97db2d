-- ===== src/Examples/Postcard.antt =====
-- Heads written as postcard writes them while each byte string is shorter than 128 bytes, and read with
-- its check of the lengths.
use mathlib.Core.Option.{some-injective}
use rpc_it_rs.Base.{
  ℕ, Bool, true, ◌&&◌, ltb, leb, if◌then◌else◌, zero, suc, ◌+◌, ◌-◌, ◌≡◌, subst, Option, none, some,
  [], ◌∷◌, ◌++◌, drop, length, if-split, arith,
}
use rpc_it_rs.Defs.{Bytes}
use rpc_it_rs.ExtCodec.RawRpc.Encode.{
  Head, notify, request, response, response_err, Item, head, value, code,
}
use rpc_it_rs.ExtCodec.RawRpc.Decode.{Slice}
use rpc_it_rs.ExtCodec.RawRpc.Bounds.{Within, HeadWithin, Borrowing}

abbrev pub text : Bytes → Bytes
text t = length t ∷ t

abbrev pub head_bytes : Head Bytes → Bytes
head_bytes (notify m) = 0 ∷ text m
head_bytes (request i m) = 1 ∷ length i ∷ (i ++ text m)
head_bytes (response i) = 2 ∷ text i
head_bytes (response_err i errc) = 3 ∷ length i ∷ (i ++ (errc ∷ []))

-- A payload is one byte.
abbrev pub postcard : Item ℕ → Option Bytes
postcard (head h) = some (head_bytes h)
postcard (value n) = some (n ∷ [])
postcard (code n) = some (n ∷ [])

abbrev pub at : ℕ → ℕ → Slice
at offset len = record { offset = offset; len = len }

abbrev pub with_method : ℕ → Bytes → Option (Head Slice × Slice)
with_method n [] = none
with_method n (k ∷ rest) = some (request (at 2 n) (at (3 + n) k), at (3 + n + k) (length rest - k))

abbrev pub with_code : ℕ → Bytes → Option (Head Slice × Slice)
with_code n [] = none
with_code n (errc ∷ rest) = some (response_err (at 2 n) errc, at (3 + n) (length rest))

abbrev pub parse : Bytes → Option (Head Slice × Slice)
parse (zero ∷ n ∷ rest) = some (notify (at 2 n), at (2 + n) (length rest - n))
parse ((suc zero) ∷ n ∷ rest) = with_method n (drop n rest)
parse ((suc (suc zero)) ∷ n ∷ rest) = some (response (at 2 n), at (2 + n) (length rest - n))
parse ((suc (suc (suc zero))) ∷ n ∷ rest) = with_code n (drop n rest)
parse _ = none

-- A slice behind the first of `n` bytes.
abbrev pub in_frame : ℕ → Slice → Bool
in_frame n s = ltb 0 s.offset && leb (s.offset + s.len) n

abbrev pub all_in : ℕ → Head Slice → Bool
all_in n (notify m) = in_frame n m
all_in n (request i m) = in_frame n i && in_frame n m
all_in n (response i) = in_frame n i
all_in n (response_err i errc) = in_frame n i

abbrev pub checked : ℕ → Option (Head Slice × Slice) → Option (Head Slice × Slice)
checked n none = none
checked n (some (h, rest)) = if all_in n h && in_frame n rest then some (h, rest) else none

-- postcard fails where a length is more than what follows.
abbrev pub deserialize : Bytes → Option (Head Slice × Slice)
deserialize frame = checked (length frame) (parse frame)

pub checked-same :
    (frame : Bytes) (h : Head Slice) (rest : Slice)
    → HeadWithin frame h
    → Within frame rest
    → checked (length frame) (some (h, rest)) ≡ some (h, rest)
checked-same frame (notify m) rest v w = ground arith
checked-same frame (request i m) rest v w = ground arith
checked-same frame (response i) rest v w = ground arith
checked-same frame (response_err i errc) rest v w = ground arith

in_frame-Within : (frame : Bytes) (s : Slice) → in_frame (length frame) s ≡ true → Within frame s
in_frame-Within frame s e = ground arith

checked-Within :
    (frame : Bytes) (h : Head Slice) (rest : Slice)
    → all_in (length frame) h ≡ true
    → HeadWithin frame h
checked-Within frame (notify m) rest e = in_frame-Within frame m e
checked-Within frame (request i m) rest e =
    (in_frame-Within frame i (ground arith), in_frame-Within frame m (ground arith))
checked-Within frame (response i) rest e = in_frame-Within frame i e
checked-Within frame (response_err i errc) rest e = in_frame-Within frame i e

pub deserialize-Borrowing : Borrowing deserialize
deserialize-Borrowing frame h rest e = go (parse frame) e
  where
    go :
        (o : Option (Head Slice × Slice))
        → checked (length frame) o ≡ some (h, rest)
        → HeadWithin frame h × Within frame rest
    go none e = cc
    go (some (h', rest')) e =
        if-split (λ o. o ≡ some (h, rest) → HeadWithin frame h × Within frame rest)
          (all_in (length frame) h' && in_frame (length frame) rest')
          (λ passed kept_same.
            subst (λ (x : Head Slice × Slice). HeadWithin frame x.0 × Within frame x.1)
              (some-injective _ _ kept_same)
              (
                checked-Within frame h' rest' (ground (arith, passed)),
                in_frame-Within frame rest' (ground (arith, passed)),
              ))
          (λ _ gone. cc) e
