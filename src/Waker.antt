-- ===== src/Waker.antt =====
-- `futures::task::AtomicWaker`, which is not part of the repository, as an interface: a cell of a
-- type `W` with the operations that the code calls, and what their documentation promises. A
-- waker is the number of its task.
use rpc_it_rs.Base.{ℕ, ◌≡◌, refl, Option, none, some}

pub record AtomicWaker (W : Type 0) : Type 0 where
  pub new : W
  pub register : W → ℕ → W
  -- Returns the cell after the call, and the waker that it held.
  pub take : W → W × Option ℕ

pub record IsAtomicWaker {W : Type 0} (aw : AtomicWaker W) : Type 0 where
  -- The last waker that was registered is the one that is taken.
  pub take-register : (w : W) (task : ℕ) → (aw.take (aw.register w task)).1 ≡ some task
  -- A waker is taken once.
  pub take-take : (w : W) → (aw.take (aw.take w).0).1 ≡ none

-- A cell that does what is asked.
abbrev pub option_waker : AtomicWaker (Option ℕ)
option_waker = record { new = none; register = λ _ task. some task; take = λ w. (none, w) }

pub option_waker-IsAtomicWaker : IsAtomicWaker option_waker
option_waker-IsAtomicWaker = record { take-register = λ _ _. refl; take-take = λ _. refl }
