-- ===== src/Rpc/Sender/Shutdown.antt =====
-- Shutting the writer down.
use rpc_it_rs.Base.{
  ◌≡◌, refl, ap, ◌∙◌, Bool, true, [], ◌∷◌, ◌++◌, Result, ok, err, returns, arith, if◌then◌else◌,
}
use rpc_it_rs.Channel.{Channel, IsChannel, TrySendError, closed}
use rpc_it_rs.Rpc.Types.{
  WriterDirective, close_immediately, close_after_flush, flush, TrySendMsgError,
}
use rpc_it_rs.Rpc.Sender.{
  try_shutdown_writer, try_flush_writer, try_send_frame, convert_deferred_write_err,
  convert_deferred_action_err,
}

module _ {Q : Type 0} (ch : Channel Q WriterDirective) where
  -- Frames, flushes and shutdowns are refused with `ChannelClosed`, and change nothing.
  abbrev pub Refuses : Q → WriterDirective → Bool → Type 0
  Refuses q d again =
      (try_send_frame ch q d ≡ returns (q, err TrySendMsgError.channel_closed))
      × (try_flush_writer ch q ≡ (q, err TrySendMsgError.channel_closed))
      × (try_shutdown_writer ch q again ≡ (q, err TrySendMsgError.channel_closed))

  refuses :
      (q : Q) (d : WriterDirective) (again : Bool)
      → IsChannel ch
      → ch.is_closed q ≡ true
      → Refuses q d again
  unfolding try_send_frame try_flush_writer try_shutdown_writer convert_deferred_write_err
      convert_deferred_action_err
  refuses q d again laws e =
      let closing = if again then close_immediately else close_after_flush in
      (
        rw (refused d, kept d, try_send_frame),
        rw (refused flush, kept flush, try_flush_writer),
        rw (refused closing, kept closing, try_shutdown_writer),
      )
    where
      refused : (d : WriterDirective) → (ch.try_send q d).1 ≡ err (closed d)
      refused d =
          ap (λ (p : Q × Result (Unit {0}) (TrySendError WriterDirective)). p.1)
            (laws.try_send_closed q d e)

      kept : (d : WriterDirective) → (ch.try_send q d).0 ≡ q
      kept d =
          ap (λ (p : Q × Result (Unit {0}) (TrySendError WriterDirective)). p.0)
            (laws.try_send_closed q d e)

  -- A successful `try_shutdown_writer` leaves everything that was queued, in order, with the closing
  -- directive behind it, and closes the channel: any later frame, flush or shutdown is refused with
  -- `ChannelClosed` and changes nothing.
  pub try_shutdown_writer_closes :
      (q q' : Q) (drop_after_this again : Bool) (d : WriterDirective)
      → IsChannel ch
      → try_shutdown_writer ch q drop_after_this ≡ (q', ok tt)
      → (ch.queued q'
          ≡ ch.queued q ++ (if drop_after_this then close_immediately else close_after_flush) ∷ [])
        × Refuses q' d again
  unfolding try_shutdown_writer
  try_shutdown_writer_closes q q' drop_after_this again d laws e = go (ch.try_send q closing).1 refl
    where
      closing : WriterDirective
      closing = if drop_after_this then close_immediately else close_after_flush

      go :
          (r : Result (Unit {0}) (TrySendError WriterDirective))
          → (ch.try_send q closing).1 ≡ r
          → (ch.queued q' ≡ ch.queued q ++ closing ∷ []) × Refuses q' d again
      go (err x) p = cc (rw (p, try_shutdown_writer) at e)
      go (ok _) p =
          let same : ch.close (ch.try_send q closing).0 ≡ q' = ground (arith, e, p) in
          let shut = laws.close_closes (ch.try_send q closing).0 in
          (
            rw (← same) (shut.1 ∙ (laws.try_send_ok q closing p).0),
            refuses q' d again laws (rw (← same) shut.0),
          )
