-- ===== src/LogBlock/Slots.antt =====
-- Which logs a thread is given, and where they lie.
use softwrap.LogBlock.{LogBlock, get_wrap_log}
use softwrap.Prelude.{ℕ, ◌+◌, ◌*◌, ◌≡◌, inl, inr, Option-cases}
use softwrap.Scm.{Scm}
use softwrap.WrapLogger.{Logger}

-- A log that lies at its slot of the block.
pub record InSlot (area size j : ℕ) (lg : Logger) : Type 0 where
  pub start : lg.log ≡ area + j * size
  pub extent : lg.size_of_log ≡ size

-- Giving a log out does not change the logs.
pub logs-get_wrap_log : (b : LogBlock) → (get_wrap_log b).1.logs ≡ b.logs
unfolding get_wrap_log
logs-get_wrap_log b = elim (Option-cases b.current_id) [ inl e ↦ rw e | inr (id, e) ↦ rw e ]
