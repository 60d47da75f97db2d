-- ===== src/Defs.antt =====
-- src/lib.rs, `mod defs`: the 32-bit ranges. A `u32` is a number with its bound as a hypothesis.
pub mod RangeWord
use rpc_it_rs.Base.{
  ℕ, ◌<◌, ◌≤◌, ◌≡◌, ◌^◌, ◌&&◌, arith, List, Outcome, returns, panics, leb, if◌then◌else◌, length,
  slice,
}

-- `Bytes`, `BytesMut`, `Vec<u8>` and `&[u8]`.
abbrev pub Bytes : Type 0
Bytes = List ℕ

abbrev pub IsU32 : ℕ → Type 0
IsU32 n = n < 2 ^ 32

abbrev pub IsU64 : ℕ → Type 0
IsU64 n = n < 2 ^ 64

-- `RangeType([SizeType; 2])`.
pub record RangeType : Type 0 where
  pub begin : ℕ
  pub end : ℕ

-- `RangeType::default()`.
abbrev pub empty_range : RangeType
empty_range = record { begin = 0; end = 0 }

-- `NonZeroRangeType(SizeType, NonzeroSizeType)`: `end` is not zero.
pub record NonZeroRangeType : Type 0 where
  pub begin : ℕ
  pub end : ℕ

pub record IsNonZeroRange (r : NonZeroRangeType) : Type 0 where
  pub begin_fits : IsU32 r.begin
  pub end_fits : IsU32 r.end
  pub nonzero : 0 < r.end

-- `&buffer[range.range()]`, which panics out of bounds and on a reversed range.
unfoldable pub index_range : ℕ → ℕ → Bytes → Outcome Bytes
index_range begin end buffer =
    if leb begin end && leb end (length buffer) then returns (slice begin end buffer) else panics

-- An index in range gives the slice.
pub index_range-in :
    (begin end : ℕ) (buffer : Bytes)
    → begin ≤ end
    → end ≤ length buffer
    → index_range begin end buffer ≡ returns (slice begin end buffer)
unfolding index_range
index_range-in begin end buffer a b = ground arith
