-- ===== src/Io.antt =====
-- src/io.rs: the trait `AsyncFrameWrite`, and its default methods.
pub mod InMemory
use rpc_it_rs.Base.{List, [], ◌∷◌, Result, ok, err}
use rpc_it_rs.Defs.{Bytes}

-- A writer of type `S` with errors `E`. A future that is awaited is a step of the writer.
pub record FrameWriter (S E : Type 0) : Type 0 where
  pub write_frame : S → Bytes → S × Result (Unit {0}) E
  pub write_frame_burst : S → List Bytes → S × Result (Unit {0}) E
  pub flush : S → S × Result (Unit {0}) E
  pub close : S → S × Result (Unit {0}) E

module _ {S E : Type 0} where
  -- The default `write_frame_burst`: the frames one by one, up to the first that fails.
  unfoldable pub default_burst :
      (S → Bytes → S × Result (Unit {0}) E) → S → List Bytes → S × Result (Unit {0}) E
  default_burst write_frame s [] = (s, ok tt)
  default_burst write_frame s (buf ∷ bufs) =
      let (s', r) = write_frame s buf in
      elim r [ ok _ ↦ default_burst write_frame s' bufs | err e ↦ (s', err e) ]

  -- The default `flush` and `close`.
  unfoldable pub default_done : S → S × Result (Unit {0}) E
  default_done s = (s, ok tt)

  -- A type that gives `write_frame` only, as the implementation for every `Sink` does.
  unfoldable pub from_write_frame : (S → Bytes → S × Result (Unit {0}) E) → FrameWriter S E
  unfolding default_burst default_done
  from_write_frame write_frame = record {
    write_frame = write_frame;
    write_frame_burst = default_burst write_frame;
    flush = default_done;
    close = default_done;
  }
