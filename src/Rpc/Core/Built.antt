-- ===== src/Rpc/Core/Built.antt =====
-- The four kinds of connection that the builder makes, and their writing task.
use rpc_it_rs.Base.{
  ℕ, ◌≡◌, refl, sym, subst, inl, inr, Bool, true, false, [], All, Result, returns, Option-cases,
}
use rpc_it_rs.Defs.{Bytes}
use rpc_it_rs.Codec.{Codec}
use rpc_it_rs.Waker.{AtomicWaker}
use rpc_it_rs.Channel.{Channel, IsChannel}
use rpc_it_rs.Io.{FrameWriter}
use rpc_it_rs.Rpc.Types.{WriterDirective, WriteRunnerError, WriteRunnerExitType}
use rpc_it_rs.Rpc.WriteRunner.{Upgrade, Runner, write_runner}
use rpc_it_rs.Rpc.WriteRunner.Endings.{write_runner_ends}
use rpc_it_rs.Rpc.Core.{
  InitConfig, Builder, Connection, ChannelMaker, make_write_channel, build_client, build_server,
  build_read_only, build_write_only, has_reqs,
}
use rpc_it_rs.Rpc.Core.Steps.{Reach}
use rpc_it_rs.Rpc.Core.Linked.Queue.{NotRequest, Quiet}
use rpc_it_rs.Rpc.Core.Linked.Invariant.{IsLinked}
use rpc_it_rs.Rpc.Core.Linked.Running.{Reach-IsLinked}

-- A new channel is empty.
pub record IsMaker {Q : Type 0} (ch : Channel Q WriterDirective) (mk : ChannelMaker Q)
    : Type 0 where
  pub unbounded_empty : ch.queued mk.unbounded ≡ []
  pub bounded_empty : (n : ℕ) → ch.queued (mk.bounded n) ≡ []

-- What `build_client`, `build_server`, `build_write_only` and `build_read_only` return.
pub data Built {W Q S U Wr Rd : Type 0} (aw : AtomicWaker W) (mk : ChannelMaker Q)
    (b : Builder Wr Rd U (Codec S)) (s : Connection W Q S U Wr Rd) : Type 0 where
  client : s ≡ build_client aw mk b → Built aw mk b s
  server : (enable_request : Bool) → s ≡ build_server aw mk b enable_request → Built aw mk b s
  write_only : s ≡ build_write_only aw mk b → Built aw mk b s
  read_only : s ≡ build_read_only aw mk b → Built aw mk b s

-- The connections that can write: all but the read-only ones.
abbrev pub can_write :
    {W Q S U Wr Rd : Type 0} {aw : AtomicWaker W} {mk : ChannelMaker Q}
    {b : Builder Wr Rd U (Codec S)} {s : Connection W Q S U Wr Rd}
    → Built aw mk b s
    → Bool
can_write (client e) = true
can_write (server enable_request e) = true
can_write (write_only e) = true
can_write (read_only e) = false

module _ {W Q S U Wr Rd : Type 0} (IoError : Type 0) (aw : AtomicWaker W)
    (ch : Channel Q WriterDirective) (is_utf8 : Bytes → Bool) (mk : ChannelMaker Q)
    (b : Builder Wr Rd U (Codec S)) where
  made-Quiet : IsMaker ch mk → (cfg : InitConfig) → Quiet ch (make_write_channel mk cfg)
  unfolding make_write_channel
  made-Quiet maker cfg = elim (Option-cases cfg.writer_channel_capacity) [
    | inl e ↦ rw (e, make_write_channel) (subst (All NotRequest) (sym maker.unbounded_empty) tt)
    | inr (n, e) ↦
        rw (e, make_write_channel) (subst (All NotRequest) (sym (maker.bounded_empty n)) tt)
  ]

  pub Built-IsLinked :
      (s : Connection W Q S U Wr Rd) → IsMaker ch mk → Built aw mk b s → IsLinked ch s
  unfolding build_client build_server build_read_only build_write_only has_reqs
  Built-IsLinked s maker (client e) =
      subst (IsLinked ch) (sym e) (record { linked = inl refl; allowed = tt })
  Built-IsLinked s maker (server true e) =
      subst (IsLinked ch) (sym e) (record { linked = inl refl; allowed = tt })
  Built-IsLinked s maker (server false e) =
      subst (IsLinked ch) (sym e)
        (record { linked = inr (refl, (refl, refl), made-Quiet maker b.cfg); allowed = tt })
  Built-IsLinked s maker (write_only e) =
      subst (IsLinked ch) (sym e)
        (record { linked = inr (refl, (refl, refl), made-Quiet maker b.cfg); allowed = tt })
  Built-IsLinked s maker (read_only e) =
      subst (IsLinked ch) (sym e) (record { linked = inr (refl, (refl, refl), tt); allowed = tt })

  -- However the handles of a connection are used, its writing task does not reach the panic for a
  -- request without a request context: run on the messages that it received, on any writer, it
  -- returns.
  pub write_runner_of_connection :
      {V E : Type 0} (s t : Connection W Q S U Wr Rd) (fw : FrameWriter V E) (w : V)
      (final : Upgrade)
      → IsChannel ch
      → IsMaker ch mk
      → Built aw mk b s
      → Reach IoError aw ch is_utf8 s t
      → (r : Runner V) × (result : Result WriteRunnerExitType (WriteRunnerError E)) × (write_runner
            fw w t.turns final
          ≡ returns (r, result))
  write_runner_of_connection s t fw w final laws maker built reach =
      let (r, result, failed, e, _, _, _) =
        write_runner_ends fw w t.turns final
          (Reach-IsLinked IoError aw ch is_utf8 laws s t (Built-IsLinked s maker built)
            reach).allowed in
      (r, result, e)
