-- ===== src/Rpc/Core.antt =====
-- src/rpc/core.rs, the builder and the core that the handles of a connection share; and of
-- src/rpc/sender.rs and src/rpc/receiver.rs how handles are made from others.
pub mod HandleSteps
pub mod Steps
pub mod Linked
pub mod Built
pub mod Accessors
pub mod Dropping
pub mod WeakTask
use rpc_it_rs.Base.{ℕ, Bool, true, false, Option, none, some, List, [], Outcome, returns, panics}
use rpc_it_rs.Codec.{Codec}
use rpc_it_rs.Waker.{AtomicWaker}
use rpc_it_rs.Rpc.ReqRep.{RequestContext, new_context}
use rpc_it_rs.Rpc.WriteRunner.{Turn}

abbrev pub is_some : {A : Type 0} → Option A → Bool
is_some none = false
is_some (some a) = true

-- `InitConfig`; a capacity is not zero.
pub record InitConfig : Type 0 where
  pub writer_channel_capacity : Option ℕ

pub record Builder (Wr Rd U C : Type 0) : Type 0 where
  pub writer : Wr
  pub reader : Rd
  pub user_data : U
  pub codec : C
  pub cfg : InitConfig

-- `RpcCore<R>`.
pub record RpcCore (W Q S U : Type 0) : Type 0 where
  pub codec : Codec S
  pub user_data : U
  pub reqs : Option (RequestContext W)
  pub t_tx_deferred : Option Q
  pub r_wake_on_drop : W

-- The handles that were made and not dropped, by their kinds. Each of the strong ones keeps the core
-- alive; the task of a receiver that `into_weak_runner_task` took, and the weak senders do not.
pub record Handles : Type 0 where
  pub receivers : ℕ
  pub inbounds : ℕ
  pub notify_senders : ℕ
  pub request_senders : ℕ
  pub weak_receivers : ℕ
  pub weak_notify_senders : ℕ
  pub weak_request_senders : ℕ

abbrev pub no_handles : Handles
no_handles = record {
  receivers = 0;
  inbounds = 0;
  notify_senders = 0;
  request_senders = 0;
  weak_receivers = 0;
  weak_notify_senders = 0;
  weak_request_senders = 0;
}

-- `writer` and `linked` are what `write_runner` is called with: the writer, and whether its weak
-- handle is one of the core. `reader` is what the receiver reads from. `turns` are
-- the messages that the writing task has received, each with what its weak handle gave.
pub record Connection (W Q S U Wr Rd : Type 0) : Type 0 where
  pub core : RpcCore W Q S U
  pub handles : Handles
  pub writer : Option Wr
  pub linked : Bool
  pub reader : Option Rd
  pub turns : List Turn

-- `mpsc::unbounded` and `mpsc::bounded`, which are not part of the repository.
pub record ChannelMaker (Q : Type 0) : Type 0 where
  pub unbounded : Q
  pub bounded : ℕ → Q

-- `builder()`.
unfoldable pub builder : Builder (Unit {0}) (Unit {0}) (Unit {0}) (Unit {0})
builder = record {
  writer = tt;
  reader = tt;
  user_data = tt;
  codec = tt;
  cfg = record { writer_channel_capacity = none };
}

module _ {Wr Rd U C : Type 0} where
  unfoldable pub with_frame_writer : {Wr2 : Type 0} → Wr2 → Builder Wr Rd U C → Builder Wr2 Rd U C
  with_frame_writer writer b = record {
    writer = writer;
    reader = b.reader;
    user_data = b.user_data;
    codec = b.codec;
    cfg = b.cfg;
  }

  -- The adapter that is declared in the body is not applied.
  unfoldable pub with_stream_writer : {Wr2 : Type 0} → Wr2 → Builder Wr Rd U C → Builder Wr2 Rd U C
  with_stream_writer writer b = record {
    writer = writer;
    reader = b.reader;
    user_data = b.user_data;
    codec = b.codec;
    cfg = b.cfg;
  }

  unfoldable pub with_frame_reader : {Rd2 : Type 0} → Rd2 → Builder Wr Rd U C → Builder Wr Rd2 U C
  with_frame_reader reader b = record {
    writer = b.writer;
    reader = reader;
    user_data = b.user_data;
    codec = b.codec;
    cfg = b.cfg;
  }

  unfoldable pub with_user_data : {U2 : Type 0} → U2 → Builder Wr Rd U C → Builder Wr Rd U2 C
  with_user_data user_data b = record {
    writer = b.writer;
    reader = b.reader;
    user_data = user_data;
    codec = b.codec;
    cfg = b.cfg;
  }

  unfoldable pub with_codec : {C2 : Type 0} → C2 → Builder Wr Rd U C → Builder Wr Rd U C2
  with_codec codec b = record {
    writer = b.writer;
    reader = b.reader;
    user_data = b.user_data;
    codec = codec;
    cfg = b.cfg;
  }

  -- `capacity` is what `capacity.try_into().ok()` gives: `none` for zero.
  unfoldable pub with_outbound_queue_capacity : Option ℕ → Builder Wr Rd U C → Builder Wr Rd U C
  with_outbound_queue_capacity capacity b = record b {
    cfg = record { writer_channel_capacity = capacity };
  }

-- `InitConfig::make_write_channel`.
unfoldable pub make_write_channel : {Q : Type 0} → ChannelMaker Q → InitConfig → Q
make_write_channel mk cfg = elim cfg.writer_channel_capacity [
  | none ↦ mk.unbounded
  | some x ↦ mk.bounded x
]

module _ {W Q S U Wr Rd : Type 0} (aw : AtomicWaker W) (mk : ChannelMaker Q) where
  -- The reading task holds the receiver until it is polled.
  unfoldable pub build_client : Builder Wr Rd U (Codec S) → Connection W Q S U Wr Rd
  unfolding make_write_channel new_context
  build_client b = record {
    core = record {
      user_data = b.user_data;
      reqs = some new_context;
      codec = b.codec;
      t_tx_deferred = some (make_write_channel mk b.cfg);
      r_wake_on_drop = aw.new;
    };
    handles = record no_handles { receivers = 1; request_senders = 1 };
    writer = some b.writer;
    linked = true;
    reader = some b.reader;
    turns = [];
  }

  unfoldable pub build_server : Builder Wr Rd U (Codec S) → Bool → Connection W Q S U Wr Rd
  unfolding make_write_channel new_context
  build_server b enable_request = record {
    core = record {
      user_data = b.user_data;
      reqs = elim enable_request [ true ↦ some new_context | false ↦ none ];
      codec = b.codec;
      t_tx_deferred = some (make_write_channel mk b.cfg);
      r_wake_on_drop = aw.new;
    };
    handles = record no_handles { receivers = 1 };
    writer = some b.writer;
    linked = true;
    reader = some b.reader;
    turns = [];
  }

  unfoldable pub build_read_only : Builder Wr Rd U (Codec S) → Connection W Q S U Wr Rd
  build_read_only b = record {
    core = record {
      user_data = b.user_data;
      codec = b.codec;
      reqs = none;
      t_tx_deferred = none;
      r_wake_on_drop = aw.new;
    };
    handles = record no_handles { receivers = 1 };
    writer = none;
    linked = false;
    reader = some b.reader;
    turns = [];
  }

  -- The weak handle of this writing task is `Weak::default()`, which leads to no core.
  unfoldable pub build_write_only : Builder Wr Rd U (Codec S) → Connection W Q S U Wr Rd
  unfolding make_write_channel
  build_write_only b = record {
    core = record {
      user_data = b.user_data;
      codec = b.codec;
      reqs = none;
      t_tx_deferred = some (make_write_channel mk b.cfg);
      r_wake_on_drop = aw.new;
    };
    handles = record no_handles { notify_senders = 1 };
    writer = some b.writer;
    linked = false;
    reader = none;
    turns = [];
  }

module _ {W Q S U : Type 0} where
  -- `NotifySender::tx_deferred`. `unwrap_unchecked` of `None` is undefined behaviour, which is
  -- `panics` here.
  unfoldable pub tx_deferred : RpcCore W Q S U → Outcome Q
  tx_deferred core = elim core.t_tx_deferred [ none ↦ panics | some q ↦ returns q ]

  -- `RequestSender::reqs`.
  unfoldable pub reqs : RpcCore W Q S U → Outcome (RequestContext W)
  reqs core = elim core.reqs [ none ↦ panics | some c ↦ returns c ]

  -- The test of `NotifySender::try_into_request_sender`: `request_context().is_some()`.
  unfoldable pub has_reqs : RpcCore W Q S U → Bool
  has_reqs core = is_some core.reqs
