-- ===== src/WrapImpl/Homes.antt =====
-- The stores and loads of the base class, as a memory with reads and writes of objects.
use softwrap.Prelude.{
  ℕ, zero, suc, refl, sym, ◌+◌, ◌*◌, ◌^◌, ◌<◌, ◌≤◌, ◌≡◌, ◌⊎◌, inl, inr, ap, arith, true, false,
  Bool-cases, ok, Returns,
}
use softwrap.Scm.Bytes.{
  Mem, read_bytes, Holds-write_self, read_bytes_congr, write_bytes, write_bytes_outside, le,
  length-le, of_le, load, load-Holds,
}
use softwrap.Scm.NtStore.{mem-ntstore_bytes}
use softwrap.Scm.{Scm}
use softwrap.WrapImpl.{
  WrapImplType, WrapMemory, is_base_class, is_hardware, is_no_atomicity, stored, wrap_impl_store,
  wrap_impl_load,
}

pub mem-stored :
    (t : WrapImplType) (ptr size value : ℕ) (st : Scm)
    → (stored t ptr size value st).mem ≡ write_bytes ptr (le size value) st.mem
mem-stored t ptr size value st = elim (Bool-cases (is_no_atomicity t)) [
  | inl e ↦ rw e (mem-ntstore_bytes ptr (le size value) st)
  | inr e ↦ rw e
]

pub stored_self :
    (t : WrapImplType) (ptr size value : ℕ) (st : Scm)
    → value < 256 ^ size
    → load size ptr (stored t ptr size value st).mem ≡ value
stored_self t ptr size value st small =
    rw (mem-stored t ptr size value st)
      (load-Holds size value _ ptr small (Holds-write_self ptr (le size value) st.mem))

pub stored_apart :
    (t : WrapImplType) (ptr size value other n : ℕ) (st : Scm)
    → (other + n ≤ ptr) ⊎ (ptr + size ≤ other)
    → load n other (stored t ptr size value st).mem ≡ load n other st.mem
unfolding load
stored_apart t ptr size value other n st apart = rw (mem-stored t ptr size value st) (
    ap of_le (
      read_bytes_congr n other (write_bytes ptr (le size value) st.mem) st.mem (λ i lo hi.
        write_bytes_outside ptr (le size value) st.mem i (omega (arith, length-le size value)))))

pub load_zero : (a n : ℕ) (m : Mem) → ((i : ℕ) → i < n → load 1 (a + i) m ≡ 0) → load n a m ≡ 0
unfolding load read_bytes of_le
load_zero a zero m h = refl
load_zero a (suc n) m h =
    let first : m a + 256 * 0 ≡ 0 = rw (sym stay) (h 0 (omega arith)) in
    omega
      (arith, first, load_zero (a + 1) n m (λ i lt. rw (shift i) (h (suc i) (omega (arith, lt)))))
  where
    stay : a + 0 ≡ a
    stay = omega arith

    shift : (i : ℕ) → a + 1 + i ≡ a + suc i
    shift i = omega arith

-- The base class is a memory as a structure asks for.
abbrev pub scm_memory : WrapImplType → WrapMemory
scm_memory t = record {
  State = Scm;
  read = λ a n st. load n a st.mem;
  write = λ a n v st. stored t a n v st;
  read_self = λ a n v st. stored_self t a n v st;
  read_apart = λ a n b m v st apart. stored_apart t b m v a n st apart;
  read_zero = λ a n st h. load_zero a n st.mem h;
}

-- For the implementation types that are objects of the base class, but the hardware's, a store of
-- any size ends normally, and leaves memory as the write of the value's bytes does: a load of them
-- then gives the value, if it has no more bytes than that, and a load of an object that it does not
-- overlap gives what it gave before.
pub wrap_impl_load-store :
    (t : WrapImplType) (ptr size value other n : ℕ) (st : Scm)
    → is_base_class t ≡ true
    → is_hardware t ≡ false
    → value < 256 ^ size
    → (other + n ≤ ptr) ⊎ (ptr + size ≤ other)
    → Returns (wrap_impl_store t ptr size value st) λ st'.
      (st'.mem ≡ write_bytes ptr (le size value) st.mem)
      × (wrap_impl_load t ptr size st' ≡ ok value)
      × (wrap_impl_load t other n st' ≡ wrap_impl_load t other n st)
unfolding wrap_impl_store wrap_impl_load
wrap_impl_load-store t ptr size value other n st base soft small apart =
    let mem = mem-stored t ptr size value st in
    (
      stored t ptr size value st,
      rw soft,
      (
        mem,
        rw soft (ap ok (stored_self t ptr size value st small)),
        rw soft (ap ok (stored_apart t ptr size value other n st apart)),
      ),
    )
