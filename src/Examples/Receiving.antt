-- ===== src/Examples/Receiving.antt =====
-- Inbound messages, of src/rpc/receiver.rs, and the data of src/codec.rs and src/lib.rs.
use rpc_it_rs.Base.{
  ℕ, ◌+◌, ◌*◌, ◌^◌, ◌≡◌, refl, inr, Bool, true, false, none, some, List, [], ◌∷◌, ◌++◌, All, ok,
  err, returns, leb, arith,
}
use rpc_it_rs.Defs.{Bytes, NonZeroRangeType, IsNonZeroRange}
use rpc_it_rs.Defs.RangeWord.{req_id_to_inner}
use rpc_it_rs.Codec.{Codec, request, DecodeError, method_not_found}
use rpc_it_rs.Channel.{Channel, unbounded, unbounded-IsChannel}
use rpc_it_rs.Waker.{option_waker}
use rpc_it_rs.Rpc.Inbound.{Inbound}
use rpc_it_rs.Rpc.Inbound.Once.{IsInbound, Call, takes, responds, drops, Handles, run_calls}
use rpc_it_rs.Rpc.Inbound.Conservation.{total, Delivers, run_calls-total}
use rpc_it_rs.Rpc.Receiver.{Read}

abbrev id_range : NonZeroRangeType
id_range = record { begin = 1; end = 3 }

id_range-IsNonZeroRange : IsNonZeroRange id_range
id_range-IsNonZeroRange = record {
  begin_fits = omega arith;
  end_fits = omega arith;
  nonzero = omega arith;
}

-- A codec whose frames are all the same request: an id, and a method of two bytes.
abbrev fixed_codec : Codec (Unit {0})
fixed_codec = record {
  codec_reusability_id = 1;
  encode_notify = λ method params buf. (buf ++ method, ok tt);
  encode_request = λ id method params buf. (buf ++ id ∷ [], ok id);
  encode_response = λ id payload buf. (buf ++ id, ok tt);
  decode_inbound = λ scratch ib. (
    scratch,
    ib,
    ok (
        request (record { begin = 0; end = 1 }) (record { begin = 1; end = 2 })
          (record { begin = 2; end = 2 })),
  );
  restore_request_id = λ id. err DecodeError.invalid_format;
}

abbrev frame : Bytes
frame = 9 ∷ 65 ∷ []

abbrev ascii : Bytes → Bool
ascii [] = true
ascii (b ∷ bs) = leb b 127

-- A channel that takes every message.
abbrev mailbox : {D : Type 0} → Channel (List D) D
mailbox = record {
  try_send = λ q d. (q ++ d ∷ [], ok tt);
  send = λ q d. (q ++ d ∷ [], ok tt);
  close = λ q. q;
  is_closed = λ q. false;
  queued = λ q. q;
}

abbrev read : Read (Unit {0}) option_waker fixed_codec ascii
read = ok frame ∷ ok frame ∷ err tt ∷ []

abbrev message : Inbound
message = record {
  buffer = 9 ∷ 65 ∷ 66 ∷ [];
  method = record { begin = 0; end = 1 };
  payload = record { begin = 1; end = 1 };
  req_id = 1 + 3 * 2 ^ 32;
}

message-IsInbound : IsInbound message
unfolding req_id_to_inner
message-IsInbound = inr (id_range, id_range-IsNonZeroRange, omega arith, omega arith, refl)

abbrev start : Handles {S = Unit {0}} unbounded fixed_codec
start = record {
  tx = some (record { messages = []; is_closed = false });
  live = message ∷ [];
  responses = 0;
  failures = 0;
  silenced = 0;
}

abbrev calls : List (ℕ × Call (Unit {0}))
calls = (0, takes) ∷ (1, responds [] (err (method_not_found, none))) ∷ (0, drops) ∷ (0, drops) ∷ []

run_calls-total_example :
    (h : Handles {S = Unit {0}} unbounded fixed_codec) × (run_calls unbounded fixed_codec start
        calls
      ≡ returns h)
    × All IsInbound h.live
    × (total unbounded fixed_codec h ≡ total unbounded fixed_codec start)
    × Delivers unbounded fixed_codec start h
run_calls-total_example =
    run_calls-total unbounded fixed_codec start calls unbounded-IsChannel (message-IsInbound, tt)
