-- ===== src/Examples/Connections.antt =====
-- Connections that are built and used, of src/rpc/core.rs.
use rpc_it_rs.Base.{
  ℕ, ◌≡◌, refl, ◌⊎◌, true, false, Option, none, some, List, [], ◌∷◌, ◌++◌, Result, ok, err, pending,
  ready, returns, arith,
}
use rpc_it_rs.Defs.{Bytes}
use rpc_it_rs.Codec.{Codec, DecodeError}
use rpc_it_rs.Waker.{option_waker, option_waker-IsAtomicWaker}
use rpc_it_rs.Channel.{Unbounded, unbounded, unbounded-IsChannel}
use rpc_it_rs.Io.{FrameWriter}
use rpc_it_rs.Rpc.Types.{
  ResponseState, WriterDirective, write_req_msg, ReadRunnerExitType, WriteRunnerExitType,
  WriteRunnerError,
}
use rpc_it_rs.Rpc.ReqRep.{RequestContext, new_context, try_allocate_new_request, poll}
use rpc_it_rs.Rpc.ReqRep.Cells.{cell}
use rpc_it_rs.Rpc.Sender.{
  try_send_request, try_send_encoded, try_send_frame, encode_request, encode_rounds, after_encode,
  after_allocate,
}
use rpc_it_rs.Rpc.WriteRunner.{dropped, Runner, write_runner}
use rpc_it_rs.Rpc.Core.{
  Builder, Connection, ChannelMaker, no_handles, builder, with_frame_writer, with_frame_reader,
  with_user_data, with_codec, with_outbound_queue_capacity, make_write_channel, build_client,
  build_server, tx_deferred, reqs,
}
use rpc_it_rs.Rpc.Core.HandleSteps.{upgrade, HandleStep, RequestCall, request_call}
use rpc_it_rs.Rpc.Core.Steps.{Step, Reach, here, next, with_tx, with_context}
use rpc_it_rs.Rpc.Core.Built.{IsMaker, client, write_runner_of_connection}
use rpc_it_rs.Rpc.Core.Accessors.{TxFound, accessors_of_connection}
use rpc_it_rs.Rpc.Core.Dropping.{drop_core, poll_all_dropped, register_wake_on_drop}
use rpc_it_rs.Rpc.Core.WeakTask.{
  Exit, poll_receive_loop, poll_weak_task, start_weak_task, drop_self, poll_runner_task,
}
use rpc_it_rs.Rpc.Receiver.{drop_receiver}
use rpc_it_rs.Rpc.Core.WeakTask.Ending.{last_drop_ends}
use rpc_it_rs.Rpc.Core.WeakTask.Waiting.{weak_task_leaves_waiting}
use rpc_it_rs.Rpc.ReqRep.Machine.{handle_at}

-- A codec whose frame of a request is the id.
abbrev tag_codec : Codec (Unit {0})
tag_codec = record {
  codec_reusability_id = 0;
  encode_notify = λ method params buf. (buf ++ method, ok tt);
  encode_request = λ id method params buf. (buf ++ id ∷ [], ok id);
  encode_response = λ id payload buf. (buf ++ id, ok tt);
  decode_inbound = λ scratch ib. (scratch, ib, err DecodeError.unsupported_action);
  restore_request_id = λ id. err DecodeError.unsupported_action;
}

abbrev empty : Unbounded WriterDirective
empty = record { messages = []; is_closed = false }

abbrev unbounded_maker : ChannelMaker (Unbounded WriterDirective)
unbounded_maker = record { unbounded = empty; bounded = λ _. empty }

unbounded_maker-IsMaker : IsMaker unbounded unbounded_maker
unbounded_maker-IsMaker = record { unbounded_empty = refl; bounded_empty = λ _. refl }

abbrev list_writer : FrameWriter (List Bytes) (Unit {0})
list_writer = record {
  write_frame = λ s b. (s ++ b ∷ [], ok tt);
  write_frame_burst = λ s bs. (s ++ bs, ok tt);
  flush = λ s. (s, ok tt);
  close = λ s. (s, ok tt);
}

abbrev configured : Builder (List Bytes) ℕ ℕ (Codec (Unit {0}))
configured =
    with_outbound_queue_capacity (some 4)
      (with_user_data 8 (with_codec tag_codec (with_frame_reader 6 (with_frame_writer [] builder))))

abbrev Conn : Type 0
Conn = Connection (Option ℕ) (Unbounded WriterDirective) (Unit {0}) ℕ (List Bytes) ℕ

abbrev Reaches : Conn → Conn → Type 0
Reaches = Reach (Unit {0}) option_waker unbounded (λ _. true)

abbrev new_client : Conn
new_client = build_client option_waker unbounded_maker configured

-- The request 9 was sent.
abbrev queue_9 : Unbounded WriterDirective
queue_9 = record { messages = write_req_msg (9 ∷ []) 9 ∷ []; is_closed = false }

abbrev context_9 : RequestContext (Option ℕ)
context_9 = record {
  wait_list = (9, 0) ∷ [];
  expired = false;
  waiters = cell none ResponseState.none ∷ [];
  woken = [];
}

abbrev requested : Conn
requested = with_context (with_tx new_client (some queue_9)) (some context_9)

-- The writing task received it.
abbrev taken : Conn
taken = record (with_tx requested (some empty)) {
  turns = record { directive = write_req_msg (9 ∷ []) 9; upgrade = upgrade requested } ∷ [];
}

call_9 :
    request_call unbounded tag_codec option_waker
      (RequestCall.try_send_request (λ _. 9) [] [] tt)
      empty
      new_context
    ≡ returns (queue_9, context_9)
unfolding request_call try_send_request try_send_encoded try_send_frame encode_request encode_rounds
    after_encode after_allocate try_allocate_new_request new_context
call_9 = refl

taken-Reach : Reaches new_client taken
unfolding build_client make_write_channel with_frame_writer with_frame_reader with_user_data
    with_codec with_outbound_queue_capacity tx_deferred reqs builder
taken-Reach =
    next
      (next here (
        Step.requests (RequestCall.try_send_request (λ _. 9) [] [] tt) empty queue_9 new_context
          context_9 (omega arith) refl refl call_9 refl))
      (Step.takes (write_req_msg (9 ∷ []) 9) [] queue_9 empty refl refl refl refl)

write_runner_of_connection_example :
    (r : Runner (List Bytes)) × (result : Result WriteRunnerExitType (WriteRunnerError (Unit {0})))
    × (write_runner list_writer [] taken.turns dropped ≡ returns (r, result))
write_runner_of_connection_example =
    write_runner_of_connection (Unit {0}) option_waker unbounded (λ _. true) unbounded_maker
      configured new_client taken list_writer [] dropped unbounded-IsChannel unbounded_maker-IsMaker
      (client refl) taken-Reach

accessors_of_connection_example :
    TxFound (Unit {0}) option_waker unbounded (λ _. true) unbounded_maker configured true taken.core
    × ((taken.handles.request_senders ≡ 0)
        ⊎ ((c : RequestContext (Option ℕ)) × (reqs taken.core ≡ returns c)))
accessors_of_connection_example =
    accessors_of_connection (Unit {0}) option_waker unbounded (λ _. true) unbounded_maker configured
      new_client taken (client refl) unbounded-IsChannel unbounded_maker-IsMaker taken-Reach

-- The receiver of a server becomes a task, which waits beside one sender.
abbrev serving : Conn
serving = record (build_server option_waker unbounded_maker configured true) {
  handles = record no_handles { weak_receivers = 1; notify_senders = 1 };
}

abbrev waiting_server : Conn
waiting_server = record serving { core = register_wake_on_drop option_waker serving.core 7 }

abbrev abandoned : Conn
abandoned = record waiting_server { handles = record no_handles { weak_receivers = 1 } }

waiting_server_polled :
    poll_weak_task (Unit {0}) option_waker (λ _. true) true [] false serving 7
    ≡ returns (waiting_server, [], pending)
unfolding poll_weak_task poll_receive_loop poll_all_dropped build_server make_write_channel
waiting_server_polled = refl

abandoned-Reach : Reaches waiting_server abandoned
abandoned-Reach =
    next here
      (Step.handles abandoned.handles (HandleStep.drop_notify_sender (omega arith) refl) refl)

last_drop_ends_example :
    ((drop_core option_waker abandoned.core).1 ≡ some 7)
    × ((exit : Exit (Unit {0}) option_waker abandoned.core.codec (λ _. true)) × (poll_weak_task
            (Unit {0})
            option_waker
            (λ _. true)
            true
            (ok (65 ∷ []) ∷ [])
            true
            abandoned
            8
          ≡ returns (abandoned, [], ready exit)))
last_drop_ends_example =
    last_drop_ends (Unit {0}) option_waker (λ _. true) unbounded serving waiting_server abandoned
      true true [] (ok (65 ∷ []) ∷ []) false true 7 8 [] option_waker-IsAtomicWaker
      waiting_server_polled abandoned-Reach refl

-- The reading task of a client, whose request 9 waits, finds the end of the file.
abbrev reading : Conn
reading = record requested {
  handles = record no_handles { weak_receivers = 1; request_senders = 1 };
}

abbrev finished : Conn
finished = record reading { handles = record no_handles { request_senders = 1 } }

reading_started :
    start_weak_task (Unit {0}) option_waker (λ _. true) (some tt) requested
    ≡ returns (reading, none)
unfolding start_weak_task build_client
reading_started = refl

reading_ended :
    poll_runner_task (Unit {0}) option_waker (λ _. true) none true [] true reading 7
    ≡ returns (finished, [], ready (ok ReadRunnerExitType.eof))
unfolding poll_runner_task poll_weak_task poll_receive_loop drop_self drop_receiver
reading_ended = refl

weak_task_leaves_waiting_example :
    (e : RequestContext (Option ℕ)) × (poll option_waker finished.core.codec context_9
        (some (handle_at 9 0))
        8
      ≡ returns (e, some (handle_at 9 0), pending))
weak_task_leaves_waiting_example =
    weak_task_leaves_waiting (Unit {0}) option_waker (λ _. true) (some tt) none requested reading
      reading finished context_9 context_9 true [] true 7 [] (ready (ok ReadRunnerExitType.eof)) 9 0
      8 none reading_started refl refl reading_ended refl refl refl
