-- ===== src/Codec/RequestIdBytes.antt =====
-- src/ext_codec/rawrpc.rs, `RequestId::as_bytes` and `RequestId::from_bytes`: a request id, a nonzero
-- `u64`, as eight bytes with the lowest first.
use rpc_it_rs.Base.{
  ℕ, zero, suc, ◌+◌, ◌*◌, ◌/◌, ◌%◌, ◌<◌, ◌≡◌, Option, none, some, [], ◌∷◌, ◌++◌, ◌==◌, ltb, length,
  take, if◌then◌else◌, arith,
}
use rpc_it_rs.Defs.{Bytes, IsU64}

-- The lowest `count` bytes.
abbrev pub le_bytes : ℕ → ℕ → Bytes
le_bytes zero n = []
le_bytes (suc count) n = n % 256 ∷ le_bytes count (n / 256)

-- `u64::from_le_bytes`.
abbrev pub from_le_bytes : Bytes → ℕ
from_le_bytes [] = 0
from_le_bytes (b ∷ bs) = b + from_le_bytes bs * 256

unfoldable pub as_bytes : ℕ → Bytes
as_bytes id = le_bytes 8 id

unfoldable pub from_bytes : Bytes → Option ℕ
from_bytes bytes =
    if ltb (length bytes) 8
    then none
    else let id = from_le_bytes (take 8 bytes) in if id == 0 then none else some id

-- A number of so many bytes.
abbrev Fits : ℕ → ℕ → Type 0
Fits zero n = n ≡ 0
Fits (suc count) n = Fits count (n / 256)

from_le_bytes-le_bytes : (count n : ℕ) → Fits count n → from_le_bytes (le_bytes count n) ≡ n
from_le_bytes-le_bytes zero n h = omega (arith, h)
from_le_bytes-le_bytes (suc count) n h = omega (arith, from_le_bytes-le_bytes count (n / 256) h)

-- The bytes of a nonzero 64-bit request id are read back as that id, also with more bytes behind
-- them. Fewer than eight bytes give none.
pub from_bytes-as_bytes :
    (id : ℕ) (rest short : Bytes)
    → 0 < id
    → IsU64 id
    → length short < 8
    → (from_bytes (as_bytes id ++ rest) ≡ some id) × (from_bytes short ≡ none)
unfolding from_bytes as_bytes
from_bytes-as_bytes id rest short positive fits few =
    let same : from_le_bytes (le_bytes 8 id) ≡ id =
      from_le_bytes-le_bytes 8 id (omega (arith, fits)) in
    (ground (arith, same, positive), ground (arith, few))
