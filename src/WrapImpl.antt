-- ===== src/WrapImpl.antt =====
-- src/main/WrapImpl.cpp: the implementations of wraps without a log, whose reads and writes go to
-- memory at once. `wrap_hardware` is meant to be replaced from outside, and fails its assertion.
pub mod Homes
pub mod Places
use softwrap.Prelude.{
  ℕ, ◌+◌, ◌^◌, ◌<◌, ◌≤◌, ◌≡◌, ◌⊎◌, Bool, true, false, List, ◌==◌, ◌&&◌, ◌||◌, if◌then◌else◌, Run,
  ok, abort,
}
use softwrap.Scm.Bytes.{read_bytes, write_bytes, le, load}
use softwrap.Scm.{Scm, ntstore, ntstore_bytes, p_msync}

pub data WrapImplType : Type 0 where
  mem_check : WrapImplType
  no_scm : WrapImplType
  no_guarantee : WrapImplType
  no_atomicity : WrapImplType
  undo_log : WrapImplType
  redo_log : WrapImplType
  wrap_software : WrapImplType
  wrap_hardware : WrapImplType
  wrap_memory : WrapImplType

abbrev pub is_hardware : WrapImplType → Bool
is_hardware mem_check = false
is_hardware no_scm = false
is_hardware no_guarantee = false
is_hardware no_atomicity = false
is_hardware undo_log = false
is_hardware redo_log = false
is_hardware wrap_software = false
is_hardware wrap_hardware = true
is_hardware wrap_memory = false

abbrev pub is_no_atomicity : WrapImplType → Bool
is_no_atomicity mem_check = false
is_no_atomicity no_scm = false
is_no_atomicity no_guarantee = false
is_no_atomicity no_atomicity = true
is_no_atomicity undo_log = false
is_no_atomicity redo_log = false
is_no_atomicity wrap_software = false
is_no_atomicity wrap_hardware = false
is_no_atomicity wrap_memory = false

-- `(t == NoSCM) || (t == NoGuarantee) || (t == MemCheck)`
abbrev pub is_plain : WrapImplType → Bool
is_plain mem_check = true
is_plain no_scm = true
is_plain no_guarantee = true
is_plain no_atomicity = false
is_plain undo_log = false
is_plain redo_log = false
is_plain wrap_software = false
is_plain wrap_hardware = false
is_plain wrap_memory = false

-- The types for which `getWrapImpl` makes an object of the base class. For `undo_log` and
-- `wrap_software` it makes one of a class with calls of its own, and for the other two none.
abbrev pub is_base_class : WrapImplType → Bool
is_base_class t = is_plain t || is_no_atomicity t || is_hardware t

-- The token, and the next one; the code keeps it in a static variable.
unfoldable pub wrap_impl_open : WrapImplType → ℕ → Run (ℕ × ℕ)
wrap_impl_open t i = if is_plain t || is_no_atomicity t then ok (i, i + 1) else abort

-- `opened` and `closed` are the counters `totWrapOpen` and `totWrapClose`.
unfoldable pub wrap_impl_close : WrapImplType → ℕ → ℕ → ℕ → Scm → Run (ℕ × Scm)
wrap_impl_close t options opened closed st =
    let forced = (options == 0 && opened == closed) || options == 1 in
    if is_no_atomicity t
    then ok (1, if forced then p_msync st else st)
    else if is_plain t
    then ok (1, st)
    else abort

unfoldable pub wrap_impl_write : WrapImplType → ℕ → ℕ → ℕ → Scm → Run Scm
wrap_impl_write t ptr src size st =
    let copied = record st { mem = write_bytes ptr (read_bytes size src st.mem) st.mem } in
    if is_hardware t
    then abort
    else if is_no_atomicity t
    then ok (ntstore ptr src size st)
    else ok (if ptr == src then st else copied)

-- Into a variable of the caller.
unfoldable pub wrap_impl_read : WrapImplType → ℕ → ℕ → Scm → Run (List ℕ)
wrap_impl_read t src size st = if is_hardware t then abort else ok (read_bytes size src st.mem)

-- The stores and loads of the base class are the same calls for every type but the hardware's.
-- What `wrapImplStore64` and the others for four, two and one bytes leave, and `wrapImplWrite` from a
-- variable of the caller.
abbrev pub stored : WrapImplType → ℕ → ℕ → ℕ → Scm → Scm
stored t ptr size value st =
    if is_no_atomicity t
    then ntstore_bytes ptr (le size value) st
    else record st { mem = write_bytes ptr (le size value) st.mem }

unfoldable pub wrap_impl_store : WrapImplType → ℕ → ℕ → ℕ → Scm → Run Scm
wrap_impl_store t ptr size value st =
    if is_hardware t then abort else ok (stored t ptr size value st)

unfoldable pub wrap_impl_load : WrapImplType → ℕ → ℕ → Scm → Run ℕ
wrap_impl_load t ptr size st = if is_hardware t then abort else ok (load size ptr st.mem)

-- What a structure in persistent memory asks of the calls in a wrap, on objects of `size` bytes.
pub record WrapMemory : Type 1 where
  pub State : Type 0
  pub read : ℕ → ℕ → State → ℕ
  pub write : ℕ → ℕ → ℕ → State → State
  pub read_self : (a n v : ℕ) (s : State) → v < 256 ^ n → read a n (write a n v s) ≡ v
  pub read_apart :
      (a n b m v : ℕ) (s : State)
      → (a + n ≤ b) ⊎ (b + m ≤ a)
      → read a n (write b m v s) ≡ read a n s
  pub read_zero : (a n : ℕ) (s : State) → ((i : ℕ) → i < n → read (a + i) 1 s ≡ 0) → read a n s ≡ 0
