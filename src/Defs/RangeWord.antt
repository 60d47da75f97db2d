-- ===== src/Defs/RangeWord.antt =====
-- src/rpc/receiver.rs, `req_id_to_inner` and `Inbound::to_req_range`: a range of the request id
-- packed in one `u64`. The word is read as on a little-endian machine.
use rpc_it_rs.Base.{
  ℕ, ◌+◌, ◌*◌, ◌/◌, ◌%◌, ◌^◌, ◌≡◌, ◌≢◌, Option, none, some, ◌==◌, if◌then◌else◌, arith,
}
use rpc_it_rs.Defs.{NonZeroRangeType, IsNonZeroRange, IsU64}

-- `transmute([begin, end])`, and zero for `None`.
unfoldable pub req_id_to_inner : Option NonZeroRangeType → ℕ
req_id_to_inner none = 0
req_id_to_inner (some r) = r.begin + r.end * 2 ^ 32

-- `transmute::<_, [SizeType; 2]>(i)`; a zero `end` is `None`.
unfoldable pub to_req_range : ℕ → Option NonZeroRangeType
to_req_range i =
    let end = i / 2 ^ 32 in
    if end == 0 then none else some (record { begin = i % 2 ^ 32; end = end })

-- Packing a request id range in a word and reading the word gives the range back. The word is a
-- nonzero `u64`, so it is never taken for the word of a notification.
pub to_req_range-req_id_to_inner :
    (r : NonZeroRangeType)
    → IsNonZeroRange r
    → (to_req_range (req_id_to_inner (some r)) ≡ some r)
      × (req_id_to_inner (some r) ≢ 0)
      × IsU64 (req_id_to_inner (some r))
unfolding to_req_range req_id_to_inner
to_req_range-req_id_to_inner r v = (ground arith, omega arith, omega arith)
