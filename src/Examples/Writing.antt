-- ===== src/Examples/Writing.antt =====
-- The writer's task and the senders, of src/rpc/core.rs and src/rpc/sender.rs.
use rpc_it_rs.Base.{
  ℕ, ◌≡◌, ◌≢◌, refl, ◌⊎◌, true, false, Option, none, some, List, [], ◌∷◌, ◌++◌, ok, err, returns,
  length,
}
use rpc_it_rs.Defs.{Bytes}
use rpc_it_rs.Codec.{Codec, not_reusable, DecodeError}
use rpc_it_rs.Waker.{option_waker}
use rpc_it_rs.Channel.{Unbounded, unbounded, unbounded-IsChannel}
use rpc_it_rs.Io.{FrameWriter}
use rpc_it_rs.Rpc.Types.{
  ResponseState, WriterDirective, close_after_flush, flush, write_msg, write_req_msg,
  all_handle_dropped,
}
use rpc_it_rs.Rpc.ReqRep.{RequestContext, new_context}
use rpc_it_rs.Rpc.ReqRep.Cells.{cell}
use rpc_it_rs.Rpc.ReqRep.Invariant.{new_context-IsConsistent}
use rpc_it_rs.Rpc.WriteRunner.{with_reqs, Turn, Runner, write_runner}
use rpc_it_rs.Rpc.WriteRunner.Transcript.{
  write_runner_delivers, IsReliable, HasReqs, exit_from, directives, perform, transcript,
  expired_calls,
}
use rpc_it_rs.Rpc.WriteRunner.Endings.{closes}
use rpc_it_rs.Rpc.WriteRunner.Closing.{write_runner_never_closes, closing_by}
use rpc_it_rs.Rpc.Sender.{encode_request, try_send_request, try_shutdown_writer}
use rpc_it_rs.Rpc.Sender.Requests.{Sends, try_send_request-Sends}
use rpc_it_rs.Rpc.Sender.Frames.{Appends, encode_request_stale_frame}
use rpc_it_rs.Rpc.Sender.Shutdown.{Refuses, try_shutdown_writer_closes}
use rpc_it_rs.Rpc.Burst.{PreparedPacket, from_packets}
use rpc_it_rs.Rpc.Burst.Packets.{AllHash, payloads, frames_of, SendsNothing, SendsOne, burst_sends}

-- A writer that keeps the frames.
abbrev keeper : FrameWriter (List Bytes) (Unit {0})
keeper = record {
  write_frame = λ s b. (s ++ b ∷ [], ok tt);
  write_frame_burst = λ s bs. (s ++ bs, ok tt);
  flush = λ s. (s, ok tt);
  close = λ s. (s, ok tt);
}

keeper-IsReliable : IsReliable keeper
keeper-IsReliable = record {
  frames = λ s b. refl;
  bursts = λ s bs. refl;
  flushes = λ s. refl;
  closes = λ s. refl;
}

abbrev turn : WriterDirective → Turn
turn d = record { directive = d; upgrade = with_reqs }

abbrev turns : List Turn
turns =
    turn (write_req_msg (1 ∷ []) 9)
    ∷ turn flush
    ∷ turn close_after_flush
    ∷ turn (write_msg (2 ∷ []))
    ∷ []

turns-HasReqs : HasReqs turns
turns-HasReqs = (λ e. cc, (tt, (tt, (tt, tt))))

write_runner_delivers_example :
    (r : Runner (List Bytes)) × (write_runner keeper [] turns with_reqs
      ≡ returns (r, ok (exit_from all_handle_dropped (directives turns))))
    × (r.writer ≡ perform keeper [] (transcript (directives turns)))
    × (r.calls ≡ expired_calls with_reqs)
write_runner_delivers_example =
    write_runner_delivers keeper [] turns with_reqs keeper-IsReliable turns-HasReqs

write_runner_never_closes_example :
    write_runner (closing_by keeper (λ s. (s, err tt))) [] turns with_reqs
    ≡ write_runner keeper [] turns with_reqs
write_runner_never_closes_example =
    write_runner_never_closes keeper (λ s. (s, err tt)) [] turns with_reqs
      (λ e. cc, (λ e. cc, (λ e. cc, (λ e. cc, tt))))

-- A codec whose frame of a request is the id.
abbrev id_codec : Codec (Unit {0})
id_codec = record {
  codec_reusability_id = 0;
  encode_notify = λ method params buf. (buf ++ method, ok tt);
  encode_request = λ id method params buf. (buf ++ id ∷ [], ok id);
  encode_response = λ id payload buf. (buf ++ id, ok tt);
  decode_inbound = λ scratch ib. (scratch, ib, err DecodeError.unsupported_action);
  restore_request_id = λ id. err DecodeError.unsupported_action;
}

abbrev frame : ℕ → Bytes
frame id = id ∷ []

id_codec-Appends : Appends id_codec [] tt frame
id_codec-Appends = λ id buf. refl

abbrev idle : Unbounded WriterDirective
idle = record { messages = []; is_closed = false }

try_send_request-Sends_example :
    Sends unbounded option_waker id_codec new_context
      (try_send_request unbounded option_waker id_codec (λ left. left) idle new_context [] [] tt)
try_send_request-Sends_example =
    try_send_request-Sends unbounded option_waker id_codec (λ left. left) idle new_context [] [] tt
      unbounded-IsChannel new_context-IsConsistent

abbrev pending_3 : RequestContext (Option ℕ)
pending_3 = record {
  wait_list = (3, 0) ∷ [];
  expired = false;
  waiters = cell none ResponseState.none ∷ [];
  woken = [];
}

encode_request_stale_frame_example :
    (d : RequestContext (Option ℕ)) × (encode_request option_waker id_codec
        (λ left. left)
        pending_3
        []
        []
        tt
      ≡ (d, 3 ∷ 2 ∷ [], some (ok (record { request_id = 2; wait_obj = 1 }))))
encode_request_stale_frame_example =
    encode_request_stale_frame option_waker id_codec (λ left. left) pending_3 [] [] tt frame 0
      id_codec-Appends refl refl refl

abbrev shut : Unbounded WriterDirective
shut = record { messages = close_after_flush ∷ []; is_closed = true }

try_shutdown_writer_accepted : try_shutdown_writer unbounded idle false ≡ (shut, ok tt)
unfolding try_shutdown_writer
try_shutdown_writer_accepted = refl

try_shutdown_writer_closes_example :
    (shut.messages ≡ close_after_flush ∷ []) × Refuses unbounded shut flush true
try_shutdown_writer_closes_example =
    try_shutdown_writer_closes unbounded idle shut false true flush unbounded-IsChannel
      try_shutdown_writer_accepted

abbrev packet : ℕ → PreparedPacket
packet h = record { data_bytes = h ∷ []; hash = h }

abbrev packets : List PreparedPacket
packets = packet 6 ∷ packet 6 ∷ packet 7 ∷ []

burst_sends_example :
    ((packets ≡ []) × SendsNothing unbounded idle 6 (from_packets packets) (ok 0))
    ⊎ ((packets ≢ [])
        × AllHash 6 packets
        × ((d : WriterDirective) × (frames_of d ≡ payloads packets)
            × SendsOne unbounded idle 6 (from_packets packets) (length packets) d))
    ⊎ ((packets ≢ [])
        × (¬ AllHash 6 packets)
        × SendsNothing unbounded idle 6 (from_packets packets) (err not_reusable))
burst_sends_example = burst_sends unbounded 6 packets idle unbounded-IsChannel
