-- ===== src/Rpc/Burst.antt =====
-- src/rpc/sender.rs, the broadcast part: packets that are encoded once and sent in bursts.
pub mod Packets
use rpc_it_rs.Base.{
  ℕ, Option, none, some, List, [], ◌∷◌, ◌++◌, Result, ok, err, Outcome, returns, ◌>>=◌, ◌==◌,
  length, if◌then◌else◌,
}
use rpc_it_rs.Defs.{Bytes}
use rpc_it_rs.Codec.{Codec, EncodeError, not_reusable}
use rpc_it_rs.Channel.{Channel}
use rpc_it_rs.Rpc.Types.{WriterDirective, write_msg, write_msg_burst, SendMsgError, TrySendMsgError}
use rpc_it_rs.Rpc.Sender.{try_send_frame, send_frame}

-- `PreparedPacket<C>`; `hash` is not zero.
pub record PreparedPacket : Type 0 where
  pub data_bytes : Bytes
  pub hash : ℕ

pub data PacketWriteBurst : Type 0 where
  err_hash_mismatch : PacketWriteBurst
  empty : PacketWriteBurst
  mono : PreparedPacket → PacketWriteBurst
  burst : ℕ → List Bytes → PacketWriteBurst

-- The loop over the packets behind the second.
unfoldable pub push_packets : ℕ → List Bytes → List PreparedPacket → PacketWriteBurst
push_packets codec_hash vec [] = burst codec_hash vec
push_packets codec_hash vec (p ∷ ps) =
    let rest = push_packets codec_hash (vec ++ p.data_bytes ∷ []) ps in
    if p.hash == codec_hash then rest else err_hash_mismatch

-- `impl From<T> for PacketWriteBurst<C>`.
unfoldable pub from_packets : List PreparedPacket → PacketWriteBurst
unfolding push_packets
from_packets [] = empty
from_packets (one ∷ []) = mono one
from_packets (one ∷ two ∷ ps) =
    if two.hash == one.hash
    then push_packets one.hash (one.data_bytes ∷ two.data_bytes ∷ []) ps
    else err_hash_mismatch

-- `PreparePacket::prepare_notify`: the buffer, and the packet.
unfoldable pub prepare_notify :
    {P : Type 0} → Codec P → Bytes → Bytes → P → Bytes × Result PreparedPacket EncodeError
prepare_notify codec buf method params =
    if codec.codec_reusability_id == 0
    then ([], err not_reusable)
    else let (buf', r) = codec.encode_notify method params [] in
      elim r [
        | err e ↦ (buf', err e)
        | ok _ ↦ ([], ok (record { data_bytes = buf'; hash = codec.codec_reusability_id }))
      ]

-- `burst_into_directive`, by the hash of the sending codec.
unfoldable pub burst_into_directive :
    ℕ → PacketWriteBurst → Result (Option (ℕ × WriterDirective)) EncodeError
burst_into_directive codec_hash empty = ok none
burst_into_directive codec_hash err_hash_mismatch = err not_reusable
burst_into_directive codec_hash (mono pkt) =
    if pkt.hash == codec_hash then ok (some (1, write_msg pkt.data_bytes)) else err not_reusable
burst_into_directive codec_hash (burst hash chunks) =
    if hash == codec_hash
    then ok (some (length chunks, write_msg_burst chunks))
    else err not_reusable

abbrev pub count_sent {ℓ} : {E : Type ℓ} → ℕ → Result (Unit {0}) E → Result ℕ E
count_sent count (ok _) = ok count
count_sent count (err e) = err e

module _ {Q : Type 0} (ch : Channel Q WriterDirective) where
  -- `try_burst`.
  unfoldable pub try_burst : Q → ℕ → PacketWriteBurst → Outcome (Q × Result ℕ TrySendMsgError)
  unfolding burst_into_directive try_send_frame
  try_burst q codec_hash b = elim (burst_into_directive codec_hash b) [
    | err e ↦ returns (q, err (TrySendMsgError.encode_failed e))
    | ok none ↦ returns (q, ok 0)
    | ok (some (count, msg)) ↦ try_send_frame ch q msg >>= λ s. returns (s.0, count_sent count s.1)
  ]

  -- `burst`.
  unfoldable pub send_burst : Q → ℕ → PacketWriteBurst → Q × Result ℕ SendMsgError
  unfolding burst_into_directive send_frame
  send_burst q codec_hash b = elim (burst_into_directive codec_hash b) [
    | err e ↦ (q, err (SendMsgError.encode_failed e))
    | ok none ↦ (q, ok 0)
    | ok (some (count, msg)) ↦ let s = send_frame ch q msg in (s.0, count_sent count s.1)
  ]
