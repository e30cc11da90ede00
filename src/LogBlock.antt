-- ===== src/LogBlock.antt =====
-- src/main/WrapLogManagerBlock.cpp and .h: the logs of all threads side by side in one block of
-- persistent memory, five for each thread, which takes them in turn.
pub mod Slots
use softwrap.Prelude.{
  ℕ, zero, suc, ◌+◌, ◌*◌, ◌%◌, ◌^◌, int_rem, ◌==◌, if◌then◌else◌, Option, none, some,
}
use softwrap.Scm.{Scm}
use softwrap.WrapLogger.{Logger, new_logger}

abbrev pub max_threads : ℕ
max_threads = 5

abbrev pub logs_per_thread : ℕ
logs_per_thread = 5

-- The object's fields, and the two of the thread: `current_id` is none where the code has -1.
pub record LogBlock : Type 0 where
  pub logs : ℕ → Logger
  pub log_size : ℕ
  pub active_threads : ℕ
  pub current_id : Option ℕ
  pub current_free : ℕ

abbrev pub with_log : (ℕ → Logger) → ℕ → Logger → ℕ → Logger
with_log logs i lg j = if j == i then lg else logs j

-- `for (i = 0; i < m_maxLogs; i++)`, by the logs left; `area` is what `pmallocLog` returned.
unfoldable pub create_logs : ℕ → ℕ → ℕ → ℕ → (ℕ → Logger) × Scm → (ℕ → Logger) × Scm
create_logs zero i size area s = s
create_logs (suc n) i size area (logs, st) =
    let (lg, st') = new_logger size (area + i * size) st in
    create_logs n (i + 1) size area (with_log logs i lg, st')

unfoldable pub new_log_block : ℕ → ℕ → (ℕ → Logger) → Scm → LogBlock × Scm
unfolding create_logs
new_log_block size area unset st =
    let (logs, st') = create_logs (logs_per_thread * max_threads) 0 size area (unset, st) in
    (
      record {
        logs = logs;
        log_size = size;
        active_threads = 0;
        current_id = none;
        current_free = 0;
      },
      st',
    )

-- `if (m_currentId == -1) m_currentId = __sync_fetch_and_add(&m_activeThreads, 1);`
abbrev pub thread_id : LogBlock → ℕ × LogBlock
thread_id b = elim b.current_id [
  | some id ↦ (id, b)
  | none ↦ (
    b.active_threads,
    record b { current_id = some b.active_threads; active_threads = b.active_threads + 1 },
  )
]

-- The index of the log in `m_logs`, the bit pattern of an int as `current_free` is.
unfoldable pub get_wrap_log : LogBlock → ℕ × LogBlock
get_wrap_log b =
    let (id, b') = thread_id b in
    (
      (id * logs_per_thread + int_rem b.current_free logs_per_thread) % 2 ^ 32,
      record b' { current_free = (b.current_free + 1) % 2 ^ 32 },
    )
