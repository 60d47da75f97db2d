-- ===== src/Examples/PostcardReads.antt =====
-- The heads of Examples.Postcard are read back.
use mathlib.Core.List.{append_assoc}
use mathlib.Core.Option.{some-injective}
use rpc_it_rs.Base.{
  ℕ, ◌<◌, ◌+◌, ◌-◌, ◌≡◌, refl, sym, subst, ap, ◌∙◌, some, [], ◌∷◌, ◌++◌, drop, drop-append, length,
  length-append, slice, slice-middle, arith,
}
use rpc_it_rs.Defs.{Bytes}
use rpc_it_rs.ExtCodec.RawRpc.Encode.{Head, notify, request, response, response_err}
use rpc_it_rs.ExtCodec.RawRpc.Decode.{Slice}
use rpc_it_rs.ExtCodec.RawRpc.Reads.{Borrows, behind, Reads, behind-Borrows}
use rpc_it_rs.ExtCodec.RawRpc.Bounds.{HeadWithin}
use rpc_it_rs.Examples.Postcard.{
  text, head_bytes, postcard, at, with_method, with_code, parse, checked, deserialize, checked-same,
}

borrow :
    (front part rear frame : Bytes) (offset : ℕ)
    → offset ≡ length front
    → front ++ (part ++ rear) ≡ frame
    → Borrows (at offset (length part)) frame part
borrow front part rear frame offset o whole = (
  omega (arith, o, ap length whole, length-append front (part ++ rear), length-append part rear),
  ap (slice offset (offset + length part)) (sym whole)
      ∙ slice-middle front part rear offset (offset + length part) o (ap (λ n. n + length part) o),
)

at-same : (a b c d : ℕ) → a ≡ c → b ≡ d → at a b ≡ at c d
at-same a b c d p q = ap (λ x. at x b) p ∙ ap (at c) q

-- What is left behind the head, from the length of what follows the head's last byte string.
behind-at :
    (w rest t : Bytes) (offset len : ℕ)
    → offset ≡ length w
    → length t ≡ len + length rest
    → at offset (length t - len) ≡ behind w rest
behind-at w rest t offset len o l =
    at-same offset (length t - len) (length w) (length rest) o (omega (arith, l))

read_notify :
    (m rest : Bytes)
    → parse (head_bytes (notify m) ++ rest)
      ≡ some (notify (at 2 (length m)), behind (head_bytes (notify m)) rest)
read_notify m rest =
    ap (λ (s : Slice). some (notify (at 2 (length m)), s))
      (behind-at (head_bytes (notify m)) rest (m ++ rest) (2 + length m) (length m) (omega arith)
        (length-append m rest))

read_response :
    (i rest : Bytes)
    → parse (head_bytes (response i) ++ rest)
      ≡ some (response (at 2 (length i)), behind (head_bytes (response i)) rest)
read_response i rest =
    ap (λ (s : Slice). some (response (at 2 (length i)), s))
      (behind-at (head_bytes (response i)) rest (i ++ rest) (2 + length i) (length i) (omega arith)
        (length-append i rest))

read_request :
    (i m rest : Bytes)
    → parse (head_bytes (request i m) ++ rest)
      ≡ some (
        request (at 2 (length i)) (at (3 + length i) (length m)),
        behind (head_bytes (request i m)) rest,
      )
read_request i m rest =
    ap (λ (t : Bytes). with_method (length i) (drop (length i) t)) (append_assoc i (text m) rest)
    ∙ ap (with_method (length i)) (drop-append i (text m ++ rest))
    ∙ ap (λ (s : Slice). some (request (at 2 (length i)) (at (3 + length i) (length m)), s))
        (behind-at (head_bytes (request i m)) rest (m ++ rest) (3 + length i + length m) (length m)
          (omega (arith, length-append i (text m))) (length-append m rest))

read_response_err :
    (i rest : Bytes) (errc : ℕ)
    → parse (head_bytes (response_err i errc) ++ rest)
      ≡ some (response_err (at 2 (length i)) errc, behind (head_bytes (response_err i errc)) rest)
read_response_err i rest errc =
    ap (λ (t : Bytes). with_code (length i) (drop (length i) t)) (append_assoc i (errc ∷ []) rest)
    ∙ ap (with_code (length i)) (drop-append i (errc ∷ rest))
    ∙ ap (λ (s : Slice). some (response_err (at 2 (length i)) errc, s))
        (at-same (3 + length i) (length rest) (length (head_bytes (response_err i errc)))
          (length rest) (omega (arith, length-append i (errc ∷ []))) refl)

-- The first byte string of a head, behind its tag and its length.
borrow_first :
    (tag : ℕ) (part more rest : Bytes)
    → Borrows (at 2 (length part)) ((tag ∷ length part ∷ (part ++ more)) ++ rest) part
borrow_first tag part more rest =
    borrow (tag ∷ length part ∷ []) part (more ++ rest) _ 2 refl
      (ap (λ (t : Bytes). tag ∷ length part ∷ t) (sym (append_assoc part more rest)))

borrow_whole :
    (tag : ℕ) (part rest : Bytes) → Borrows (at 2 (length part)) ((tag ∷ text part) ++ rest) part
borrow_whole tag part rest = borrow (tag ∷ length part ∷ []) part rest _ 2 refl refl

borrow_method :
    (i m rest : Bytes) → Borrows (at (3 + length i) (length m)) (head_bytes (request i m) ++ rest) m
borrow_method i m rest =
    borrow (1 ∷ length i ∷ (i ++ (length m ∷ []))) m rest _ (3 + length i)
      (omega (arith, length-append i (length m ∷ [])))
      (ap (λ (t : Bytes). 1 ∷ length i ∷ t)
        (append_assoc i (length m ∷ []) (m ++ rest) ∙ sym (append_assoc i (text m) rest)))

-- What is parsed of a head that was written stands the check.
kept :
    (w : Head Bytes) (h : Head Slice) (rest : Bytes)
    → parse (head_bytes w ++ rest) ≡ some (h, behind (head_bytes w) rest)
    → HeadWithin (head_bytes w ++ rest) h
    → deserialize (head_bytes w ++ rest) ≡ some (h, behind (head_bytes w) rest)
kept w h rest parsed within =
    ap (checked (length (head_bytes w ++ rest))) parsed
    ∙ checked-same (head_bytes w ++ rest) h (behind (head_bytes w) rest) within
        (nonempty w, (behind-Borrows (head_bytes w) rest).0)
  where
    nonempty : (w : Head Bytes) → 0 < length (head_bytes w)
    nonempty (notify m) = omega arith
    nonempty (request i m) = omega arith
    nonempty (response i) = omega arith
    nonempty (response_err i errc) = omega arith

pub reads : Reads postcard deserialize
reads = record {
  notify = λ method w rest e.
      subst
        (λ (w : Bytes).
          (m : Slice) × (deserialize (w ++ rest) ≡ some (notify m, behind w rest))
          × Borrows m (w ++ rest) method)
        (some-injective _ _ e)
        (
          at 2 (length method),
          kept (notify method) _ rest (read_notify method rest)
              (omega arith, (borrow_whole 0 method rest).0),
          borrow_whole 0 method rest,
        );
  request = λ id method w rest e.
      subst
        (λ (w : Bytes).
          (i m : Slice) × (deserialize (w ++ rest) ≡ some (request i m, behind w rest))
          × Borrows i (w ++ rest) id
          × Borrows m (w ++ rest) method)
        (some-injective _ _ e)
        (
          at 2 (length id),
          at (3 + length id) (length method),
          kept (request id method) _ rest (read_request id method rest) (
            (omega arith, (borrow_first 1 id (text method) rest).0),
            (omega arith, (borrow_method id method rest).0),
          ),
          borrow_first 1 id (text method) rest,
          borrow_method id method rest,
        );
  response = λ id w rest e.
      subst
        (λ (w : Bytes).
          (i : Slice) × (deserialize (w ++ rest) ≡ some (response i, behind w rest))
          × Borrows i (w ++ rest) id)
        (some-injective _ _ e)
        (
          at 2 (length id),
          kept (response id) _ rest (read_response id rest)
              (omega arith, (borrow_whole 2 id rest).0),
          borrow_whole 2 id rest,
        );
  response_err = λ id w rest errc e.
      subst
        (λ (w : Bytes).
          (i : Slice) × (deserialize (w ++ rest) ≡ some (response_err i errc, behind w rest))
          × Borrows i (w ++ rest) id)
        (some-injective _ _ e)
        (
          at 2 (length id),
          kept (response_err id errc) _ rest (read_response_err id rest errc)
              (omega arith, (borrow_first 3 id (errc ∷ []) rest).0),
          borrow_first 3 id (errc ∷ []) rest,
        );
}
