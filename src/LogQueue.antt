-- ===== src/LogQueue.antt =====
-- src/main/WrapLogManager.cpp and .h: the logs in a queue, each known by the address of its memory.
pub mod Replays
use softwrap.Prelude.{
  ℕ, zero, suc, ◌+◌, ◌*◌, ◌==◌, if◌then◌else◌, List, [], ◌∷◌, ◌++◌, Run, ok, abort, no_fuel, ◌>>=◌,
}
use softwrap.Scm.{Scm}
use softwrap.WrapLogger.{Logger, new_logger, restore_wrap_log_entries}

pub record LogManager : Type 0 where
  pub size : ℕ
  pub queue : List ℕ

-- The size without the environment variable.
unfoldable pub new_log_manager : LogManager
new_log_manager = record { size = 1024 * 1024 * 8 * 2; queue = [] }

-- `area` is what `pmallocLog` returned.
unfoldable pub get_wrap_log : ℕ → LogManager → Scm → Logger × Scm
get_wrap_log area m st = new_logger m.size area st

unfoldable pub add_log : ℕ → LogManager → LogManager
add_log log m = record m { queue = m.queue ++ (log ∷ []) }

-- `std::list::remove`
unfoldable pub remove : ℕ → List ℕ → List ℕ
remove log [] = []
remove log (l ∷ queue) = let rest = remove log queue in if l == log then rest else l ∷ rest

unfoldable pub remove_log : ℕ → LogManager → LogManager
unfolding remove
remove_log log m = record m { queue = remove log m.queue }

-- `while (!_queue.empty()) _queue.pop_front();`
unfoldable pub remove_logs : List ℕ → List ℕ
remove_logs [] = []
remove_logs (l ∷ queue) = remove_logs queue

unfoldable pub remove_all_logs : LogManager → LogManager
unfolding remove_logs
remove_all_logs m = record m { queue = remove_logs m.queue }

-- The count of the entries; an empty list has no `front`, so that the call is a fault there.
unfoldable pub restore_one_log : ℕ → LogManager × Scm → Run (ℕ × (LogManager × Scm))
restore_one_log fuel (m, st) = elim m.queue [
  | [] ↦ abort
  | log ∷ queue ↦
      restore_wrap_log_entries fuel log st >>= λ r. ok (r.0, (record m { queue = queue }, r.1))
]

-- `while (!_queue.empty())`, with `i` logs and `n` entries so far.
unfoldable pub restore_logs : ℕ → ℕ → ℕ → ℕ → LogManager × Scm → Run ((ℕ × ℕ) × (LogManager × Scm))
unfolding restore_one_log
restore_logs zero fuel i n (m, st) = elim m.queue [
  | [] ↦ ok ((i, n), (m, st))
  | log ∷ queue ↦ no_fuel
]
restore_logs (suc turns) fuel i n (m, st) = elim m.queue [
  | [] ↦ ok ((i, n), (m, st))
  | log ∷ queue ↦
      restore_one_log fuel (m, st) >>= λ r. restore_logs turns fuel (i + 1) (n + r.0) r.1
]

-- The count of the logs, with fuel for as many turns, and in each for as many entries.
unfoldable pub restore_all_logs : ℕ → LogManager × Scm → Run (ℕ × (LogManager × Scm))
unfolding restore_logs
restore_all_logs fuel s = restore_logs fuel fuel 0 0 s >>= λ r. ok (r.0.0, r.1)
