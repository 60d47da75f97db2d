-- ===== src/Lib.antt =====
-- Verification of rpc-it, an RPC library over pluggable codecs, frames and channels.
--
-- The program. A connection has a writer task, a reader, and handles. Handles (`RequestSender`,
-- `NotifySender`) encode a frame with the codec and put a directive on a channel; the writer task
-- (`write_runner`) takes the directives off and calls the frame writer. A request is put on the
-- wait list of the `RequestContext` before it is sent, and a `ReceiveResponse` waits for its
-- waiter. The reader (`Receiver`) decodes a frame: a response goes to the request context, a
-- request or a notification goes to the caller as an `Inbound`, which is answered through the
-- same channel. A `Router` picks a handler by the method of an `Inbound`.
--
-- The files, by the code that they model (paths from the root of the repository):
-- - Base: shared names, lists and association lists over native numbers, results, and the outcome
--   of code that may panic.
-- - Defs, Defs.RangeWord: src/lib.rs (`RangeType`, `NonZeroRangeType`), and the word of
--   src/rpc/receiver.rs that packs the range of a request id. A `u32` is a number; its bound is a
--   hypothesis where it matters. The word is read as on a little-endian machine.
-- - Codec, Codec.ErrorCodes: src/codec.rs. The trait `Codec` is a record of functions; `&mut`
--   buffers are passed and returned.
-- - Codec.RequestIdBytes: src/ext_codec/rawrpc.rs, the bytes of a request id.
-- - Io, Io.InMemory: src/io.rs, `AsyncFrameWrite` with its default methods, and the in-memory
--   pipe. A `usize` has 64 bits; a send into a full queue, on which the code spins, is `none`.
-- - Waker, Channel: `AtomicWaker` of futures and the sender of async_channel, which are not part
--   of the repository, as interfaces with the laws that their documentation promises, and
--   instances of them.
-- - Rpc.Types: the data of src/rpc/req_rep.rs, src/rpc/sender.rs and src/rpc/error.rs.
-- - Rpc.ReqRep: src/rpc/req_rep.rs. A waiter is shared by the wait list, the `ReceiveResponse`
--   and the runner that delivers to it, so it stands in a store and each of them holds its
--   address. Machine has the events, where a delivery is two of them, as the code gives up the
--   lock of the wait list between the lookup and the write; Invariant, Preserve, Polling and
--   Safety have the invariant of the runs; Cells, Wakeup and Expiry follow one waiting task.
-- - Rpc.WriteRunner: src/rpc/core.rs, `write_runner`. The messages that the channel yields are a
--   list, each with the state of the weak handle when it is handled.
-- - Rpc.Core: src/rpc/core.rs, the builder and the core that handles share, and of
--   src/rpc/sender.rs and src/rpc/receiver.rs how handles are made from others. Handles are
--   counted by their kind. HandleSteps has the operations on handles and the calls that reach the
--   channel; Steps the steps of a connection, in any order, and what they reach; Linked the
--   invariant of those states; Built the four kinds of connection; Accessors what unchecked
--   accessors find; Dropping the drop of the core and the wait for it; WeakTask the task of
--   `into_weak_runner_task`, its start, which takes the core out of the receiver, its polls, and
--   the drop of the receiver behind it, its Waiting and Ending the proofs.
-- - Rpc.Exchange: one call over both sides of a connection. Contract has what is asked of the
--   codec, Sides what each side does, Call the way of the call.
-- - Rpc.Sender, Rpc.Burst: src/rpc/sender.rs. The random ids of a request are a function of the
--   number of rounds left, with `MAX_RETRY_HEURISTIC` = 4 rounds as in the code.
-- - Rpc.Inbound, Rpc.Receiver: src/rpc/receiver.rs. Frames are a list, whose end is the end of
--   the file. The loop of `split_recv_task` is on fuel, and one round for each frame and one for
--   the end are enough.
-- - ExtCodec.JsonRpc: src/ext_codec/jsonrpc.rs. serde_json is a parameter: what it writes for an
--   `Encode` struct, and the fields that it parses, with the place in the frame that each text is
--   borrowed from. Encode and Decode have the code; ErrorCodes and RequestId its numbers; Bounds,
--   Fields, Requests, Responses and Contract the proofs, the last for the contract of
--   Rpc.Exchange.
-- - ExtCodec.MsgpackRpc: src/ext_codec/msgpack_rpc.rs. The readers of rmp are parameters that
--   return the rest of the input; Format has the form that rmp writes. Bounds, Requests and
--   Responses are about the decoder and the way from the encoder to it.
-- - ExtCodec.RawRpc: src/ext_codec/rawrpc.rs. postcard is a parameter: the bytes of an item, and
--   the head of a frame with the parts of the frame that its byte strings are borrowed from.
--   Reads has what is asked of it; RoundTrip, Bounds and Contract have the proofs, the last for
--   the contract of Rpc.Exchange.
-- - Router: src/macros/route.rs, with the map implementation of the router function.
-- - Macros.GenRoute: macros/src/gen_route.rs, the targets of a `Route` item from its syntax, with
--   compile errors as values; Generated has what the generated code does, for targets that each
--   have a route, as a target without one does not compile, with the response of
--   src/macros/route.rs to a failed route. Routes, Setup and Installed have the proofs.
-- - Macros.Cached: src/macros/inbound.rs, typed messages and the wait for a typed response; what
--   serde parses is a parameter.
-- - Macros.GenFunc: macros/src/gen_func.rs, the attributes of a method; macros/src/lib.rs, the
--   lookup of methods.
-- - Examples: the theorems at concrete inputs. Postcard has a concrete form of the items of
--   rawrpc, PostcardReads that its heads are read back.
--
-- Atomic steps. A section under a lock, an atomic operation and an awaited call of a parameter
-- are one step each; interleavings of the request context are sequences of events, those of a
-- connection sequences of steps, in which a call of a handle is one step, as is the receipt of a
-- message by the writing task together with the upgrade of its weak handle. One poll of the weak
-- reading task is one step too. Memory orderings are not modelled, nor what another thread does
-- inside a call on the in-memory pipe.
--
-- Not modelled: serialization (serde, postcard, serde_json, rmp), in macros/src the arguments of
-- `service`, the types and visibilities and the module around the generated code, the calls of
-- src/macros/inbound.rs that only pass on the name of a method, and what user data is used for.
-- `unwrap_unchecked` of `None`, which is undefined behaviour, is a panic. An error of a closure
-- in the MessagePack-RPC decoder is `ParseFailed` whatever its kind, as `SerDeError` has no
-- detail.
pub mod Base
pub mod Defs
pub mod Codec
pub mod Waker
pub mod Io
pub mod ExtCodec
pub mod Macros
pub mod Channel
pub mod Router
pub mod Rpc
pub mod Examples
