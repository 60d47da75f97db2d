-- ===== src/ExtCodec/JsonRpc/ErrorCodes.antt =====
-- src/ext_codec/jsonrpc.rs, `mod errc`, `error_to_errc` and `errc_to_error`.
use rpc_it_rs.Base.{
  ℕ, ◌+◌, ◌^◌, ◌<◌, ◌≡◌, refl, ◌⊎◌, inl, inr, true, Outcome, returns, panics, ◌>>=◌, ltb,
  if◌then◌else◌, Bool-cases, if-both, ◌==◌, arith,
}
use rpc_it_rs.Base.Int.{ℤ, pos, negsuc, ◌+ℤ◌, ◌-ℤ◌, ◌==ℤ◌, is_i64, checked_i64}
use rpc_it_rs.Codec.{
  ResponseError, unknown, invalid_argument, unauthorized, busy, method_not_found, aborted,
  unhandled, non_utf8_method_name, parse_failed,
}
use rpc_it_rs.Codec.ErrorCodes.{from_u8, to_u8}

-- -32600, -32601, -32602, -32603, -32700 and -41000.
abbrev pub invalid_request : ℤ
invalid_request = negsuc 32599

abbrev pub method_not_found_code : ℤ
method_not_found_code = negsuc 32600

abbrev pub invalid_params : ℤ
invalid_params = negsuc 32601

abbrev pub internal_error : ℤ
internal_error = negsuc 32602

abbrev pub parse_error : ℤ
parse_error = negsuc 32699

abbrev pub internal_error_offset : ℤ
internal_error_offset = negsuc 40999

unfoldable pub error_to_errc : ResponseError → ℤ
unfolding to_u8
error_to_errc invalid_argument = invalid_params
error_to_errc method_not_found = method_not_found_code
error_to_errc non_utf8_method_name = invalid_request
error_to_errc parse_failed = parse_error
error_to_errc unauthorized = invalid_request
error_to_errc ec = pos (to_u8 ec) +ℤ internal_error_offset

-- `u8::try_from(..).unwrap_or_default()`.
abbrev pub u8_or_zero : ℤ → ℕ
u8_or_zero (pos n) = if ltb n 256 then n else 0
u8_or_zero (negsuc n) = 0

-- The subtraction panics on an overflow, as in a build with overflow checks.
unfoldable pub errc_to_error : ℤ → Outcome ResponseError
errc_to_error errc =
    if errc ==ℤ invalid_request
    then returns invalid_argument
    else if errc ==ℤ method_not_found_code
    then returns method_not_found
    else if errc ==ℤ invalid_params
    then returns invalid_argument
    else if errc ==ℤ parse_error
    then returns parse_failed
    else checked_i64 (errc -ℤ internal_error_offset) >>= λ code. returns (from_u8 (u8_or_zero code))

-- What the other side sees of an error.
abbrev pub seen_as : ResponseError → ResponseError
seen_as unauthorized = invalid_argument
seen_as non_utf8_method_name = invalid_argument
seen_as e = e

-- An error code that was sent is read as itself, but for `Unauthorized` and `NonUtf8MethodName`,
-- which are read as `InvalidArgument`.
pub errc_to_error-error_to_errc :
    (e : ResponseError) → errc_to_error (error_to_errc e) ≡ returns (seen_as e)
unfolding errc_to_error error_to_errc from_u8
errc_to_error-error_to_errc unknown = refl
errc_to_error-error_to_errc invalid_argument = refl
errc_to_error-error_to_errc unauthorized = refl
errc_to_error-error_to_errc busy = refl
errc_to_error-error_to_errc method_not_found = refl
errc_to_error-error_to_errc aborted = refl
errc_to_error-error_to_errc unhandled = refl
errc_to_error-error_to_errc non_utf8_method_name = refl
errc_to_error-error_to_errc parse_failed = refl

-- Up to 2 ^ 63 - 1 - 41000.
abbrev pub IsReadable : ℤ → Type 0
IsReadable (pos n) = n + 41000 < 2 ^ 63
IsReadable (negsuc n) = Unit {0}

offset_pos :
    (n : ℕ)
    → checked_i64 (pos n -ℤ internal_error_offset)
      ≡ (if ltb (n + 41000) (2 ^ 63) then returns (pos (n + 41000)) else panics)
offset_pos n = ground arith

-- A negative code is never too small.
offset_negsuc :
    (n : ℕ)
    → is_i64 (negsuc n) ≡ true
    → (d : ℤ) × (checked_i64 (negsuc n -ℤ internal_error_offset) ≡ returns d)
offset_negsuc n h = (negsuc n -ℤ internal_error_offset, ground arith)

abbrev Reads : Outcome ResponseError → Type 0
Reads o = (e : ResponseError) × (o ≡ returns e)

-- A code that another side may send, an `i64`, is read without a panic exactly up to
-- 2 ^ 63 - 1 - 41000.
pub errc_to_error_bounds :
    (errc : ℤ)
    → is_i64 errc ≡ true
    → (IsReadable errc × ((e : ResponseError) × (errc_to_error errc ≡ returns e)))
      ⊎ ((¬ IsReadable errc) × (errc_to_error errc ≡ panics))
unfolding errc_to_error
errc_to_error_bounds (pos n) h = elim (Bool-cases (ltb (n + 41000) (2 ^ 63))) [
  | inl e ↦ inl (ground (arith, e), (from_u8 (u8_or_zero (pos (n + 41000))), rw (offset_pos n, e)))
  | inr e ↦ inr (ground (arith, e), rw (offset_pos n, e))
]
errc_to_error_bounds (negsuc n) h =
    let (d, e) = offset_negsuc n h in
    inl (
      tt,
      if-both Reads (n == 32599) (invalid_argument, refl)
          (if-both Reads (n == 32600) (method_not_found, refl)
            (if-both Reads (n == 32601) (invalid_argument, refl)
              (if-both Reads (n == 32699) (parse_failed, refl) (from_u8 (u8_or_zero d), rw e)))),
    )
