-- ===== src/Rpc/Receiver/Frame.antt =====
-- What becomes of a frame, by its type.
use rpc_it_rs.Base.{
  ℕ, ◌≤◌, ◌<◌, ◌≡◌, ◌⊎◌, Bool, true, false, Option, none, some, ok, err, returns, length, slice,
  if◌then◌else◌,
}
use rpc_it_rs.Base.Assoc.{lookup}
use rpc_it_rs.Defs.{Bytes, RangeType, IsU32}
use rpc_it_rs.Codec.{Codec, InboundFrameType, request, notify, response}
use rpc_it_rs.Waker.{AtomicWaker}
use rpc_it_rs.Rpc.Types.{ResponseState}
use rpc_it_rs.Rpc.ReqRep.{RequestContext, make_response, deliver}
use rpc_it_rs.Rpc.Inbound.{Inbound, method_bytes, request_id, is_request}
use rpc_it_rs.Rpc.Inbound.Once.{IsInbound}
use rpc_it_rs.Rpc.Receiver.{Handled, non_utf8_method_name, unhandled_response}

-- A range of the buffer.
abbrev pub InBounds : RangeType → Bytes → Type 0
InBounds r ib = (r.begin ≤ r.end) × (r.end ≤ length ib)

-- The ranges of a decoded frame lie in the buffer; an id's range has 32-bit ends and does not end at
-- zero.
abbrev pub FrameInBounds : InboundFrameType → Bytes → Type 0
FrameInBounds (request id method params) ib =
    InBounds id ib × IsU32 id.begin × IsU32 id.end × (0 < id.end) × InBounds method ib
FrameInBounds (notify method params) ib = InBounds method ib
FrameInBounds (response id errc payload) ib = Unit {0}

module _ {W S : Type 0} (IoError : Type 0) (aw : AtomicWaker W) (codec : Codec S)
    (is_utf8 : Bytes → Bool) where
  -- What a frame has to become.
  abbrev pub HandledAs :
      Option (RequestContext W)
      → Bytes
      → InboundFrameType
      → Handled IoError aw codec is_utf8
      → Type 0
  HandledAs reqs ib (request id method params) h =
      (inbound : Inbound) × IsInbound inbound
      × (is_request inbound ≡ true)
      × (request_id inbound ≡ returns (some (slice id.begin id.end ib)))
      × (method_bytes inbound ≡ returns (slice method.begin method.end ib))
      × (h ≡ (
        reqs,
        (if is_utf8 (slice method.begin method.end ib)
            then ok (some inbound)
            else err (non_utf8_method_name ib method)),
      ))
  HandledAs reqs ib (notify method params) h =
      (inbound : Inbound) × IsInbound inbound
      × (is_request inbound ≡ false)
      × (request_id inbound ≡ returns none)
      × (method_bytes inbound ≡ returns (slice method.begin method.end ib))
      × (h ≡ (
        reqs,
        (if is_utf8 (slice method.begin method.end ib)
            then ok (some inbound)
            else err (non_utf8_method_name ib method)),
      ))
  HandledAs none ib (response id errc payload) h =
      h ≡ (none, err (unhandled_response (make_response codec ib payload errc)))
  HandledAs (some c) ib (response id errc payload) h =
      ((at : ℕ) × (lookup id c.wait_list ≡ some at)
        × (c.expired ≡ false)
        × (h ≡ (some (deliver aw c at (ResponseState.ready ib errc payload)), ok none)))
      ⊎ (((lookup id c.wait_list ≡ none) ⊎ (c.expired ≡ true))
          × (h ≡ (some c, err (unhandled_response (make_response codec ib payload errc)))))
