-- ===== src/WrapArray/Changes.antt =====
-- The parts of the calls keep the invariant.
use native.Mathlib.Nat.{mul-le-mul_right, one-le-pow}
use softwrap.Prelude.{
  ℕ, ◌+◌, ◌*◌, ◌^◌, ◌<◌, ◌≤◌, ◌≡◌, ◌≢◌, ◌⊎◌, inl, inr, refl, ◌∙◌, arith, ◌==◌, ==→eq, leb,
  if◌then◌else◌, Bool-cases,
}
use softwrap.WrapImpl.{WrapMemory}
use softwrap.WrapImpl.Places.{Away}
use softwrap.WrapArray.{WrapArray, size_incr, item, new_array, grow}
use softwrap.WrapArray.Items.{IsLaid, IsChunk, IsArray, resize-IsArray}
use softwrap.WrapArray.Loops.{within_lem, item-Away, clear_bytes_lem}
use softwrap.WrapVar.Operators.{with_value}

-- The number of elements in use, when the one at `i` is.
abbrev pub next_after : ℕ → ℕ → ℕ
next_after nx i = if leb nx i then i + 1 else nx

module _ (w : WrapMemory) (width most : ℕ) (m : WrapArray) (laid : IsLaid m)
    (bounds : (most < 2 ^ 31) × (most * width < 2 ^ 31)) where
  open w use {State, read, write, read_self, read_apart, read_zero}

  -- The constructor leaves an array of zeros.
  pub new_array-IsArray :
      (arr n : ℕ) (s : State)
      → IsChunk m (most * width) arr
      → n ≤ most
      → IsArray w width most m arr n 0 (λ i. 0) (new_array w width arr n m s)
  unfolding new_array
  new_array-IsArray arr n s chunk room =
      let zeros =
        clear_bytes_lem w 0 (n * width) arr s (omega arith)
          (omega (arith, mul-le-mul_right width room, bounds.1)) in
      let all = mul-le-mul_right width room in
      record {
        pa =
            read_apart m.pa_var 8 m.next_var 4 0 _ (omega (arith, laid.pa_next))
            ∙ read_apart m.pa_var 8 m.length_var 4 n _ (omega (arith, laid.pa_length))
            ∙ read_self m.pa_var 8 arr _ chunk.address;
        length =
            read_apart m.length_var 4 m.next_var 4 0 _ (omega (arith, laid.length_next))
            ∙ read_self m.length_var 4 n _ (omega (arith, room, bounds.0));
        next = read_self m.next_var 4 0 _ (omega arith);
        fits = omega arith;
        room = room;
        items = λ i lt.
            let here = within_lem width i n lt in
            read_apart (item width arr i) width m.next_var 4 0 _
              (omega (arith, here, all, chunk.off_next))
            ∙ read_apart (item width arr i) width m.length_var 4 n _
                (omega (arith, here, all, chunk.off_length))
            ∙ read_apart (item width arr i) width m.pa_var 8 arr _
                (omega (arith, here, all, chunk.off_pa))
            ∙ read_zero (item width arr i) width _ (λ k in_item.
              let e : item width arr i + k ≡ arr + (i * width + k) = omega arith in
              rw e (zeros.1 (i * width + k) (omega arith) (omega (arith, in_item, here))));
        small = λ i. omega (arith, one-le-pow width 256 (omega arith));
        beyond = λ i lt. refl;
        chunk = chunk;
      }

  module _ (arr len nx : ℕ) (env : ℕ → ℕ) (s : State)
      (inv : IsArray w width most m arr len nx env s) where
    -- An index behind the end makes the array larger.
    pub grow-IsArray :
        (fresh index : ℕ)
        → IsChunk m (most * width) fresh
        → Away arr (most * width) fresh (most * width)
        → index + size_incr ≤ most
        → (arr' : ℕ) × (len' : ℕ) × IsArray w width most m arr' len' nx env
            (grow w width fresh index m s)
          × (index < len')
          × ((arr' ≡ arr) ⊎ (arr' ≡ fresh))
    grow-IsArray fresh index new apart room = elim (Bool-cases (leb len index)) [
      | inl e ↦
          let behind : len ≤ index = ground (arith, e) in
          (
            fresh,
            index + size_incr,
            rw (inv.length, e)
                (resize-IsArray w width most m laid bounds arr len nx env s inv fresh index new
                  apart (omega (arith, inv.fits, behind)) room),
            omega arith,
            inr refl,
          )
      | inr e ↦
          let inside : index < len = ground (arith, e) in
          (arr, len, rw (inv.length, e) inv, inside, inl refl)
    ]

    -- An element is written.
    written :
        (i v : ℕ)
        → i < len
        → v < 256 ^ width
        → (j : ℕ) → j < len
        → read (item width arr j) width (write (item width arr i) width v s) ≡ with_value env i v j
    written i v lt small j lt' = elim (Bool-cases (j == i)) [
      | inl e ↦ rw (e, ==→eq j i e) (read_self (item width arr i) width v s small)
      | inr e ↦
          let ne : j ≢ i = λ z. ground (arith, z, e) in
          rw e (
            read_apart (item width arr j) width (item width arr i) width v s
              (item-Away width arr j i ne)
            ∙ inv.items j lt')
    ]

    small_with : (i v : ℕ) → v < 256 ^ width → (j : ℕ) → with_value env i v j < 256 ^ width
    small_with i v lt j = elim (Bool-cases (j == i)) [
      | inl e ↦ rw e lt
      | inr e ↦ rw e (inv.small j)
    ]

    beyond_with : (i v n : ℕ) → i < n → nx ≤ n → (j : ℕ) → n ≤ j → with_value env i v j ≡ 0
    beyond_with i v n lt le j lt' = elim (Bool-cases (j == i)) [
      | inl e ↦ absurd (omega (arith, ==→eq j i e))
      | inr e ↦ rw e (inv.beyond j (omega arith))
    ]

    pub write-IsArray :
        (i v : ℕ)
        → i < nx
        → v < 256 ^ width
        → IsArray w width most m arr len nx
            (with_value env i v)
            (write (item width arr i) width v s)
    write-IsArray i v lt small =
        let here = within_lem width i len (omega (arith, inv.fits)) in
        let all = mul-le-mul_right width inv.room in
        record {
          pa =
              read_apart m.pa_var 8 (item width arr i) width v s
                (omega (arith, here, all, inv.chunk.off_pa))
              ∙ inv.pa;
          length =
              read_apart m.length_var 4 (item width arr i) width v s
                (omega (arith, here, all, inv.chunk.off_length))
              ∙ inv.length;
          next =
              read_apart m.next_var 4 (item width arr i) width v s
                (omega (arith, here, all, inv.chunk.off_next))
              ∙ inv.next;
          fits = inv.fits;
          room = inv.room;
          items = written i v (omega (arith, inv.fits)) small;
          small = small_with i v small;
          beyond = beyond_with i v nx lt (omega arith);
          chunk = inv.chunk;
        }

    -- More elements are in use.
    pub next-IsArray :
        (n : ℕ) → nx ≤ n → n ≤ len → IsArray w width most m arr len n env (write m.next_var 4 n s)
    next-IsArray n le fits =
        let all = mul-le-mul_right width inv.room in
        record {
          pa = read_apart m.pa_var 8 m.next_var 4 n s (omega (arith, laid.pa_next)) ∙ inv.pa;
          length =
              read_apart m.length_var 4 m.next_var 4 n s (omega (arith, laid.length_next))
              ∙ inv.length;
          next = read_self m.next_var 4 n s (omega (arith, fits, inv.room, bounds.0));
          fits = fits;
          room = inv.room;
          items = λ i lt.
              read_apart (item width arr i) width m.next_var 4 n s
                (omega (arith, within_lem width i len lt, all, inv.chunk.off_next))
              ∙ inv.items i lt;
          small = inv.small;
          beyond = λ i lt. inv.beyond i (omega arith);
          chunk = inv.chunk;
        }

    -- The element behind those in use is written, and comes into use.
    pub append-IsArray :
        (v : ℕ)
        → nx < len
        → v < 256 ^ width
        → IsArray w width most m arr len
            (nx + 1)
            (with_value env nx v)
            (write m.next_var 4 (nx + 1) (write (item width arr nx) width v s))
    append-IsArray v lt small =
        let here = within_lem width nx len lt in
        let all = mul-le-mul_right width inv.room in
        let s1 = write (item width arr nx) width v s in
        record {
          pa =
              read_apart m.pa_var 8 m.next_var 4 (nx + 1) s1 (omega (arith, laid.pa_next))
              ∙ read_apart m.pa_var 8 (item width arr nx) width v s
                  (omega (arith, here, all, inv.chunk.off_pa))
              ∙ inv.pa;
          length =
              read_apart m.length_var 4 m.next_var 4 (nx + 1) s1 (omega (arith, laid.length_next))
              ∙ read_apart m.length_var 4 (item width arr nx) width v s
                  (omega (arith, here, all, inv.chunk.off_length))
              ∙ inv.length;
          next = read_self m.next_var 4 (nx + 1) s1 (omega (arith, lt, inv.room, bounds.0));
          fits = omega (arith, lt);
          room = inv.room;
          items = λ i lt'.
              read_apart (item width arr i) width m.next_var 4 (nx + 1) s1
                (omega (arith, within_lem width i len lt', all, inv.chunk.off_next))
              ∙ written nx v lt small i lt';
          small = small_with nx v small;
          beyond = beyond_with nx v (nx + 1) (omega arith) (omega arith);
          chunk = inv.chunk;
        }
