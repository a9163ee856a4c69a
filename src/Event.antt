-- ===== src/Event.antt =====
-- pkg/event: what an event is, for the parts of the program that are modelled.
--
-- An event is known by its pointer, `ref`. The metadata that the program changes after the event was
-- built stands in a store of its own, by pointer, so that a change is seen through every slice that
-- holds the event. Of the parameters the model has the numbers that its code reads with the `Must`
-- getters; an event that lacks one of them (there the getters panic) is outside the model.
pub mod Types
pub mod Values
pub mod Bitsets
use fibratus.Prelude.{ℕ, Bool, List, Option}
use Types.{EventType}
use Values.{Link}

pub record Event : Type 0 where
  pub ref : ℕ
  pub type : EventType
  pub pid : ℕ  -- uint32
  pub tid : ℕ  -- uint32
  pub timestamp : ℕ
  pub param_pid : ℕ  -- uint32, as are the next three
  pub param_tid : ℕ
  pub param_ppid : ℕ
  pub param_real_ppid : ℕ

-- `ooo` is the presence of the key `rule.seq.ooo`, `links` the set under `rule.seq.links`, and `ps`
-- the pointer to the process state.
pub record Metadata : Type 0 where
  pub ooo : ℕ → Bool
  pub links : ℕ → Option (List Link)
  pub ps : ℕ → Option ℕ
