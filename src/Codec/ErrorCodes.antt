-- ===== src/Codec/ErrorCodes.antt =====
-- src/codec.rs, `impl ResponseError`: error codes as strings and as bytes.
use Prim.Native.String.{String}
use text.Mathlib.Text.{◌==◌ as str_eq}
use text.Mathlib.TextEquality.{eq_iff}
use rpc_it_rs.Base.{
  ℕ, ◌≡◌, ◌↔◌, refl, Bool, true, false, Result, ok, err, ◌==◌, leb, if◌then◌else◌, arith,
}
use rpc_it_rs.Codec.{
  ResponseError, unknown, invalid_argument, unauthorized, busy, method_not_found, aborted,
  unhandled, non_utf8_method_name, parse_failed,
}

unfoldable pub is_error_code : ResponseError → Bool
is_error_code unknown = false
is_error_code _ = true

unfoldable pub to_str : ResponseError → String
to_str unknown = "RPC_IT_UNKNOWN"
to_str invalid_argument = "RPC_IT_INVALID_ARGUMENT"
to_str unauthorized = "RPC_IT_UNAUTHORIZED"
to_str busy = "RPC_IT_BUSY"
to_str method_not_found = "RPC_IT_METHOD_NOT_FOUND"
to_str aborted = "RPC_IT_ABORTED"
to_str unhandled = "RPC_IT_UNHANDLED"
to_str non_utf8_method_name = "RPC_IT_NON_UTF8_METHOD_NAME"
to_str parse_failed = "RPC_IT_PARSE_FAILED"

unfoldable pub from_str : String → Result ResponseError (Unit {0})
from_str s =
    if str_eq s "RPC_IT_UNKNOWN"
    then ok unknown
    else if str_eq s "RPC_IT_INVALID_ARGUMENT"
    then ok invalid_argument
    else if str_eq s "RPC_IT_UNAUTHORIZED"
    then ok unauthorized
    else if str_eq s "RPC_IT_BUSY"
    then ok busy
    else if str_eq s "RPC_IT_METHOD_NOT_FOUND"
    then ok method_not_found
    else if str_eq s "RPC_IT_ABORTED"
    then ok aborted
    else if str_eq s "RPC_IT_UNHANDLED"
    then ok unhandled
    else if str_eq s "RPC_IT_NON_UTF8_METHOD_NAME"
    then ok non_utf8_method_name
    else if str_eq s "RPC_IT_PARSE_FAILED"
    then ok parse_failed
    else err tt

-- `impl From<u8> for ResponseError`.
unfoldable pub from_u8 : ℕ → ResponseError
from_u8 code =
    if code == 0
    then unknown
    else if code == 1
    then invalid_argument
    else if code == 2
    then unauthorized
    else if code == 3
    then busy
    else if code == 4
    then method_not_found
    else if code == 5
    then aborted
    else if code == 6
    then unhandled
    else if code == 7
    then non_utf8_method_name
    else if code == 8
    then parse_failed
    else unknown

-- `impl From<ResponseError> for u8`.
unfoldable pub to_u8 : ResponseError → ℕ
to_u8 unknown = 0
to_u8 invalid_argument = 1
to_u8 unauthorized = 2
to_u8 busy = 3
to_u8 method_not_found = 4
to_u8 aborted = 5
to_u8 unhandled = 6
to_u8 non_utf8_method_name = 7
to_u8 parse_failed = 8

pub from_str-to_str : (e : ResponseError) → from_str (to_str e) ≡ ok e
unfolding from_str to_str
from_str-to_str unknown = refl
from_str-to_str _ = refl

to_str-from_str : (s : String) (e : ResponseError) → from_str s ≡ ok e → s ≡ to_str e
unfolding from_str to_str
to_str-from_str s e h = ground (
  arith,
  eq_iff s "RPC_IT_UNKNOWN",
  eq_iff s "RPC_IT_INVALID_ARGUMENT",
  eq_iff s "RPC_IT_UNAUTHORIZED",
  eq_iff s "RPC_IT_BUSY",
  eq_iff s "RPC_IT_METHOD_NOT_FOUND",
  eq_iff s "RPC_IT_ABORTED",
  eq_iff s "RPC_IT_UNHANDLED",
  eq_iff s "RPC_IT_NON_UTF8_METHOD_NAME",
  eq_iff s "RPC_IT_PARSE_FAILED",
)

-- A text is read as an error code exactly when it is the text that the code is written as.
pub from_str_iff : (s : String) (e : ResponseError) → (from_str s ≡ ok e) ↔ (to_str e ≡ s)
from_str_iff s e = (λ h. cc (to_str-from_str s e h), λ h. rw (← h) (from_str-to_str e))

-- Every error code is read back from its byte, and a byte above 8 is read as `Unknown`, whose byte
-- is 0; a byte up to 8 is written back unchanged.
pub u8_round_trip :
    (e : ResponseError) (code : ℕ)
    → (from_u8 (to_u8 e) ≡ e) × (to_u8 (from_u8 code) ≡ (if leb code 8 then code else 0))
unfolding from_u8 to_u8
u8_round_trip e code = (round e, ground arith)
  where
    round : (e : ResponseError) → from_u8 (to_u8 e) ≡ e
    round unknown = refl
    round _ = refl
