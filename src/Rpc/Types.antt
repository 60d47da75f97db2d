-- ===== src/Rpc/Types.antt =====
-- The data of src/rpc/req_rep.rs, src/rpc/sender.rs and src/rpc/error.rs.
use rpc_it_rs.Base.{ℕ, List, Option}
use rpc_it_rs.Defs.{Bytes, RangeType}
use rpc_it_rs.Codec.{ResponseError, EncodeError}

pub data ResponseState : Type 0 where
  none : ResponseState
  ready : Bytes → Option ResponseError → RangeType → ResponseState
  write_failed : ResponseState
  pending_remove : ResponseState

-- `Response<C>`.
pub record Response (C : Type 0) : Type 0 where
  pub codec : C
  pub raw : Bytes
  pub payload : RangeType

-- `ErrorResponse<C>`.
pub record ErrorResponse (C : Type 0) : Type 0 where
  pub errc : ResponseError
  pub codec : C
  pub raw : Bytes
  pub payload : RangeType

pub data ResponseReceiveError (C : Type 0) : Type 0 where
  closed empty retrieved : ResponseReceiveError C
  response : ErrorResponse C → ResponseReceiveError C

pub data WriterDirective : Type 0 where
  close_immediately close_after_flush flush : WriterDirective
  write_msg : Bytes → WriterDirective
  write_msg_burst : List Bytes → WriterDirective
  write_req_msg : Bytes → ℕ → WriterDirective

pub data SendMsgError : Type 0 where
  encode_failed : EncodeError → SendMsgError
  channel_closed receiver_expired : SendMsgError

pub data TrySendMsgError : Type 0 where
  encode_failed : EncodeError → TrySendMsgError
  channel_closed channel_at_capacity receiver_expired : TrySendMsgError

pub data SendResponseError : Type 0 where
  msg_error : SendMsgError → SendResponseError
  inbound_not_request : SendResponseError

pub data TrySendResponseError : Type 0 where
  msg_error : TrySendMsgError → TrySendResponseError
  inbound_not_request : TrySendResponseError

-- `IoError` stands for `std::io::Error`, whose content the code only passes on.
pub data WriteRunnerError (IoError : Type 0) : Type 0 where
  writer_close_failed writer_flush_failed write_failed : IoError → WriteRunnerError IoError

pub data WriteRunnerExitType : Type 0 where
  all_handle_dropped manual_close_immediate manual_close : WriteRunnerExitType

pub data ReadRunnerExitType : Type 0 where
  all_handle_dropped eof : ReadRunnerExitType
