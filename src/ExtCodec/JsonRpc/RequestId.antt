-- ===== src/ExtCodec/JsonRpc/RequestId.antt =====
-- src/ext_codec/jsonrpc.rs, the request id as text: `format!("{:x}", ..)`, and `req_id_from_str`, by
-- `u64::from_str_radix` of base 16.
use rpc_it_rs.Base.{
  ℕ, zero, suc, ◌+◌, ◌-◌, ◌*◌, ◌/◌, ◌%◌, ◌^◌, ◌<◌, ◌≤◌, ◌≡◌, refl, sym, subst, ap, ◌∙◌, ◌&&◌,
  Option, none, some, [], ◌∷◌, ◌++◌, Result, ok, err, ◌==◌, ltb, leb, if◌then◌else◌, if-split,
  if-both, length, length-append, arith,
}
use mathlib.Core.List.{append_assoc, append-nil}
use rpc_it_rs.Defs.{Bytes, IsU64}
use rpc_it_rs.Codec.{DecodeError, invalid_format}

abbrev pub hex_digit : ℕ → ℕ
hex_digit d = if ltb d 10 then b'0' + d else b'a' + (d - 10)

-- The digits of a number, the highest first; `more` bounds the number of those behind the first.
unfoldable pub hex_digits : ℕ → ℕ → Bytes
hex_digits zero n = hex_digit n ∷ []
hex_digits (suc more) n =
    let front = hex_digits more (n / 16) in
    if ltb n 16 then hex_digit n ∷ [] else front ++ hex_digit (n % 16) ∷ []

-- A `u64` has at most sixteen digits.
unfoldable pub to_hex : ℕ → Bytes
unfolding hex_digits
to_hex id = hex_digits 15 id

abbrev pub digit_value : ℕ → Option ℕ
digit_value c =
    if leb b'0' c && leb c b'9'
    then some (c - b'0')
    else if leb b'a' c && leb c b'f'
    then some (c - b'a' + 10)
    else if leb b'A' c && leb c b'F'
    then some (c - b'A' + 10)
    else none

-- One digit more, `None` on an overflow.
unfoldable pub push_digit : ℕ → ℕ → Option ℕ
push_digit n c = elim (digit_value c) [
  | none ↦ none
  | some d ↦ if ltb (n * 16 + d) (2 ^ 64) then some (n * 16 + d) else none
]

unfoldable pub read_digits : ℕ → Bytes → Option ℕ
read_digits n [] = some n
read_digits n (c ∷ cs) = elim (push_digit n c) [ none ↦ none | some m ↦ read_digits m cs ]

-- A sign `+` is allowed; no digit is an error.
abbrev pub read_unsigned : Bytes → Option ℕ
read_unsigned [] = none
read_unsigned (c ∷ cs) = read_digits 0 (c ∷ cs)

unfoldable pub from_str_radix : Bytes → Option ℕ
from_str_radix [] = none
from_str_radix (c ∷ cs) = if c == b'+' then read_unsigned cs else read_unsigned (c ∷ cs)

-- An id is not zero.
abbrev pub nonzero_id : Option ℕ → Result ℕ DecodeError
nonzero_id none = err invalid_format
nonzero_id (some id) = if id == 0 then err invalid_format else ok id

unfoldable pub req_id_from_str : Bytes → Result ℕ DecodeError
unfolding from_str_radix
req_id_from_str s = nonzero_id (from_str_radix s)

-- A number of so many digits behind the first.
abbrev Fits : ℕ → ℕ → Type 0
Fits zero n = n < 16
Fits (suc more) n = Fits more (n / 16)

push_hex_digit :
    (n d m : ℕ) → d < 16 → n * 16 + d ≡ m → m < 2 ^ 64 → push_digit n (hex_digit d) ≡ some m
unfolding push_digit
push_hex_digit n d m h e k = ground (arith, h, e, k)

read_hex_digit :
    (n d m : ℕ) (rest : Bytes)
    → d < 16
    → n * 16 + d ≡ m
    → m < 2 ^ 64
    → read_digits n (hex_digit d ∷ rest) ≡ read_digits m rest
unfolding read_digits
read_hex_digit n d m rest h e k = rw (push_hex_digit n d m h e k, read_digits) refl

read_digits-hex_digits :
    (more n : ℕ) (rest : Bytes)
    → Fits more n
    → n < 2 ^ 64
    → read_digits 0 (hex_digits more n ++ rest) ≡ read_digits n rest
unfolding hex_digits
read_digits-hex_digits zero n rest h k = read_hex_digit 0 n n rest h (omega arith) k
read_digits-hex_digits (suc more) n rest h k =
    if-split (λ (ds : Bytes). read_digits 0 (ds ++ rest) ≡ read_digits n rest) (ltb n 16)
      (λ e. read_hex_digit 0 n n rest (ground (arith, e)) (omega arith) k)
      (λ e.
        ap (read_digits 0) (append_assoc (hex_digits more (n / 16)) (hex_digit (n % 16) ∷ []) rest)
        ∙ read_digits-hex_digits more (n / 16) (hex_digit (n % 16) ∷ rest) h (omega (arith, k))
        ∙ read_hex_digit (n / 16) (n % 16) n rest (omega arith) (omega arith) k)

from_str_radix-hex_digits :
    (more n : ℕ) (rest : Bytes)
    → Fits more n
    → from_str_radix (hex_digits more n ++ rest) ≡ read_digits 0 (hex_digits more n ++ rest)
unfolding hex_digits from_str_radix
from_str_radix-hex_digits zero n rest h = ground (arith, h)
from_str_radix-hex_digits (suc more) n rest h =
    if-split (λ (ds : Bytes). from_str_radix (ds ++ rest) ≡ read_digits 0 (ds ++ rest)) (ltb n 16)
      (λ e. ground (arith, e))
      (λ e.
        subst (λ (s : Bytes). from_str_radix s ≡ read_digits 0 s)
          (sym (append_assoc (hex_digits more (n / 16)) (hex_digit (n % 16) ∷ []) rest))
          (from_str_radix-hex_digits more (n / 16) (hex_digit (n % 16) ∷ rest) h))

length-hex_digits : (more n : ℕ) → length (hex_digits more n) ≤ suc more
unfolding hex_digits
length-hex_digits zero n = omega arith
length-hex_digits (suc more) n =
    if-both (λ (ds : Bytes). length ds ≤ suc (suc more)) (ltb n 16) (omega arith)
      (rw (length-append (hex_digits more (n / 16)) (hex_digit (n % 16) ∷ [])) omega
        (arith, length-hex_digits more (n / 16)))

from_str_radix-to_hex : (id : ℕ) → IsU64 id → from_str_radix (to_hex id) ≡ some id
unfolding to_hex read_digits
from_str_radix-to_hex id fits =
    let small : Fits 15 id = omega (arith, fits) in
    subst (λ (s : Bytes). from_str_radix s ≡ some id) (append-nil (hex_digits 15 id))
      (from_str_radix-hex_digits 15 id [] small ∙ read_digits-hex_digits 15 id [] small fits)

-- A nonzero 64-bit request id, written in hexadecimal, takes at most sixteen digits and is read back
-- as that id.
pub req_id_from_str-to_hex :
    (id : ℕ) → 0 < id → IsU64 id → (req_id_from_str (to_hex id) ≡ ok id) × (length (to_hex id) ≤ 16)
unfolding req_id_from_str to_hex
req_id_from_str-to_hex id positive fits = (
  ap nonzero_id (from_str_radix-to_hex id fits) ∙ ground (arith, positive),
  length-hex_digits 15 id,
)

abbrev IsSmall : Option ℕ → Type 0
IsSmall none = Unit
IsSmall (some n) = n < 2 ^ 64

read_digits-IsSmall : (n : ℕ) (s : Bytes) → n < 2 ^ 64 → IsSmall (read_digits n s)
unfolding read_digits push_digit
read_digits-IsSmall n [] h = h
read_digits-IsSmall n (c ∷ cs) h =
    elim (push_digit n c)
        as (λ r.
          push_digit n c ≡ r → IsSmall (elim r [ none ↦ none | some m ↦ read_digits m cs ])) [
            | none ↦ λ e. tt
            | some m ↦ λ e. read_digits-IsSmall m cs (ground (arith, e))
          ]
      refl

read_unsigned-IsSmall : (s : Bytes) → IsSmall (read_unsigned s)
read_unsigned-IsSmall [] = tt
read_unsigned-IsSmall (c ∷ cs) = read_digits-IsSmall 0 (c ∷ cs) (omega arith)

from_str_radix-IsSmall : (s : Bytes) → IsSmall (from_str_radix s)
unfolding from_str_radix
from_str_radix-IsSmall [] = tt
from_str_radix-IsSmall (c ∷ cs) =
    if-both IsSmall (c == b'+') (read_unsigned-IsSmall cs) (read_unsigned-IsSmall (c ∷ cs))

nonzero_id_bounds : (r : Option ℕ) (id : ℕ) → IsSmall r → nonzero_id r ≡ ok id → (0 < id) × IsU64 id
nonzero_id_bounds none id h e = ground (arith, e)
nonzero_id_bounds (some n) id h e = ground (arith, h, e)

-- A text that is read as a request id gives a nonzero 64-bit number.
pub req_id_from_str_bounds : (s : Bytes) (id : ℕ) → req_id_from_str s ≡ ok id → (0 < id) × IsU64 id
unfolding req_id_from_str
req_id_from_str_bounds s id e = nonzero_id_bounds (from_str_radix s) id (from_str_radix-IsSmall s) e
