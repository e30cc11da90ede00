-- ===== src/Scm.antt =====
-- src/main/memtool.c: persistent memory, and the streaming stores that write it.
pub mod Bytes
pub mod NtStore
use softwrap.Prelude.{ℕ, zero, suc, ◌+◌, ◌*◌, ◌/◌, ◌%◌, List, [], ◌∷◌, ◌++◌, ◌==◌, if◌then◌else◌}
use Bytes.{Mem, read_bytes, write_bytes}

-- Memory with the counters `numntstores` and `numpmsyncs`.
pub record Scm : Type 0 where
  pub mem : Mem
  pub ntstores : ℕ
  pub pmsyncs : ℕ

-- `_mm_stream_si32` of the four bytes `word`, counted by the caller's `numntstores++`.
unfoldable pub streaming_store : ℕ → List ℕ → Scm → Scm
streaming_store p word st = record st {
  mem = write_bytes p word st.mem;
  ntstores = st.ntstores + 1;
}

-- `for (i = 0; i < size>>2; i++)`, by the rounds left.
unfoldable pub ntstore_words : ℕ → ℕ → ℕ → Scm → Scm
ntstore_words zero d s st = st
ntstore_words (suc n) d s st =
    ntstore_words n (d + 4) (s + 4) (streaming_store d (read_bytes 4 s st.mem) st)

-- The last word of `tail` bytes from the source, filled up from the destination.
unfoldable pub ntstore_tail : ℕ → ℕ → ℕ → Scm → Scm
unfolding streaming_store
ntstore_tail zero d s st = st
ntstore_tail (suc zero) d s st =
    streaming_store d (read_bytes 1 s st.mem ++ read_bytes 3 (d + 1) st.mem) st
ntstore_tail (suc (suc zero)) d s st =
    streaming_store d (read_bytes 2 s st.mem ++ read_bytes 2 (d + 2) st.mem) st
ntstore_tail (suc (suc (suc n))) d s st =
    streaming_store d (read_bytes 3 s st.mem ++ read_bytes 1 (d + 3) st.mem) st

unfoldable pub ntstore : ℕ → ℕ → ℕ → Scm → Scm
unfolding ntstore_words ntstore_tail
ntstore dest src size st =
    if dest == src
    then st
    else ntstore_tail (size % 4) (dest + size / 4 * 4) (src + size / 4 * 4)
        (ntstore_words (size / 4) dest src st)

-- The same loop where the source is a variable of the caller, outside the modelled memory.
unfoldable pub ntstore_bytes : ℕ → List ℕ → Scm → Scm
unfolding streaming_store
ntstore_bytes d [] st = st
ntstore_bytes d (a ∷ []) st = streaming_store d (a ∷ read_bytes 3 (d + 1) st.mem) st
ntstore_bytes d (a ∷ b ∷ []) st = streaming_store d (a ∷ b ∷ read_bytes 2 (d + 2) st.mem) st
ntstore_bytes d (a ∷ b ∷ c ∷ []) st = streaming_store d (a ∷ b ∷ c ∷ read_bytes 1 (d + 3) st.mem) st
ntstore_bytes d (a ∷ b ∷ c ∷ e ∷ rest) st =
    ntstore_bytes (d + 4) rest (streaming_store d (a ∷ b ∷ c ∷ e ∷ []) st)

-- `p_msync` with no write delay configured: the fence is counted.
unfoldable pub p_msync : Scm → Scm
p_msync st = record st { pmsyncs = st.pmsyncs + 1 }
