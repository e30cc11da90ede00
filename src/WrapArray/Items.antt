-- ===== src/WrapArray/Items.antt =====
-- The invariant of an array, and that a larger copy is the same array.
use native.Mathlib.Nat.{mul-le-mul_right}
use softwrap.Prelude.{ℕ, ◌+◌, ◌-◌, ◌*◌, ◌^◌, ◌<◌, ◌≤◌, ◌≡◌, ◌⊎◌, inl, inr, refl, sym, ◌∙◌, arith}
use softwrap.WrapImpl.{WrapMemory}
use softwrap.WrapImpl.Places.{Away, Keeps}
use softwrap.WrapArray.{WrapArray, size_incr, item, resize, copy_items, clear_bytes}
use softwrap.WrapArray.Loops.{within_lem, clear_bytes_lem, rounds_lem, copy_items_lem}

-- The three variables do not overlap.
pub record IsLaid (m : WrapArray) : Type 0 where
  pub pa_length : Away m.pa_var 8 m.length_var 4
  pub pa_next : Away m.pa_var 8 m.next_var 4
  pub length_next : Away m.length_var 4 m.next_var 4

-- Memory of `room` bytes for the elements: an address, off the variables.
pub record IsChunk (m : WrapArray) (room arr : ℕ) : Type 0 where
  pub off_pa : Away m.pa_var 8 arr room
  pub off_length : Away m.length_var 4 arr room
  pub off_next : Away m.next_var 4 arr room
  pub address : arr < 256 ^ 8

-- The array at `arr` has `len` elements, of which `nx` are in use, and they have the values of `env`.
pub record IsArray (w : WrapMemory) (width most : ℕ) (m : WrapArray) (arr len nx : ℕ) (env : ℕ → ℕ)
    (s : WrapMemory.State w) : Type 0 where
  pub pa : w.read m.pa_var 8 s ≡ arr
  pub length : w.read m.length_var 4 s ≡ len
  pub next : w.read m.next_var 4 s ≡ nx
  pub fits : nx ≤ len
  pub room : len ≤ most
  pub items : (i : ℕ) → i < len → w.read (item width arr i) width s ≡ env i
  pub small : (i : ℕ) → env i < 256 ^ width
  pub beyond : (i : ℕ) → nx ≤ i → env i ≡ 0
  pub chunk : IsChunk m (most * width) arr

module _ (w : WrapMemory) (width most : ℕ) (m : WrapArray) (laid : IsLaid m)
    (bounds : (most < 2 ^ 31) × (most * width < 2 ^ 31)) where
  open w use {State, read, write, read_self, read_apart, read_zero}

  module _ (arr len nx : ℕ) (env : ℕ → ℕ) (s : State)
      (inv : IsArray w width most m arr len nx env s) (fresh n : ℕ)
      (new : IsChunk m (most * width) fresh) (apart : Away arr (most * width) fresh (most * width))
      (enough : nx ≤ n + size_incr) (room : n + size_incr ≤ most) where
    abbrev grown : ℕ
    grown = n + size_incr

    abbrev copied : State
    copied = copy_items w width nx 0 arr fresh s

    abbrev zeroed : State
    zeroed = clear_bytes w (nx * width) (grown * width) fresh copied

    abbrev now : State
    now = write m.pa_var 8 fresh (write m.length_var 4 grown zeroed)

    resize_lem : resize w width fresh n m s ≡ now
    unfolding resize
    resize_lem =
        rw (resize, inv.pa, inv.next, rounds_lem nx (omega (arith, enough, room, bounds.0))) refl

    used : nx * width ≤ grown * width
    used = mul-le-mul_right width enough

    all : grown * width ≤ most * width
    all = mul-le-mul_right width room

    all_copied :
        Keeps w s copied (fresh + 0 * width) (nx * width)
        × ((k : ℕ)
            → 0 ≤ k
            → k < 0 + nx
            → read (item width fresh k) width copied ≡ read (item width arr k) width s)
    all_copied =
        copy_items_lem w width most arr fresh apart nx 0 s (omega (arith, enough, room))
          (λ k lt. rw (inv.items k (omega (arith, lt, inv.fits))) (inv.small k))

    zero_rest :
        Keeps w copied zeroed (fresh + nx * width) (grown * width - nx * width)
        × ((k : ℕ) → nx * width ≤ k → k < grown * width → read (fresh + k) 1 zeroed ≡ 0)
    zero_rest =
        clear_bytes_lem w (nx * width) (grown * width) fresh copied used
          (omega (arith, all, bounds.1))

    -- What is off the new chunk.
    off_chunk : (a b : ℕ) → Away a b fresh (most * width) → read a b zeroed ≡ read a b s
    off_chunk a b away =
        zero_rest.0 a b (omega (arith, away, used, all))
        ∙ all_copied.0 a b (omega (arith, away, used, all))

    zeroed-items : (i : ℕ) → i < grown → read (item width fresh i) width zeroed ≡ env i
    zeroed-items i lt =
        let cases : (i < nx) ⊎ (nx ≤ i) = omega arith in
        elim cases [
          | inl old ↦
              zero_rest.0 (item width fresh i) width (omega (arith, within_lem width i nx old))
              ∙ all_copied.1 i (omega arith) (omega (arith, old))
              ∙ inv.items i (omega (arith, old, inv.fits))
          | inr new' ↦
              read_zero (item width fresh i) width zeroed (λ k in_item.
                let e : item width fresh i + k ≡ fresh + (i * width + k) = omega arith in
                rw e (
                  zero_rest.1 (i * width + k) (omega (arith, mul-le-mul_right width new'))
                    (omega (arith, in_item, within_lem width i grown lt))))
              ∙ sym (inv.beyond i new')
        ]

    now-items : (i : ℕ) → i < grown → read (item width fresh i) width now ≡ env i
    now-items i lt =
        let here = within_lem width i grown lt in
        read_apart (item width fresh i) width m.pa_var 8 fresh _
          (omega (arith, here, all, new.off_pa))
        ∙ read_apart (item width fresh i) width m.length_var 4 grown _
            (omega (arith, here, all, new.off_length))
        ∙ zeroed-items i lt

    pub resize-IsArray : IsArray w width most m fresh grown nx env (resize w width fresh n m s)
    resize-IsArray = rw resize_lem (record {
      pa = read_self m.pa_var 8 fresh _ new.address;
      length =
          read_apart m.length_var 4 m.pa_var 8 fresh _ (omega (arith, laid.pa_length))
          ∙ read_self m.length_var 4 grown _ (omega (arith, room, bounds.0));
      next =
          read_apart m.next_var 4 m.pa_var 8 fresh _ (omega (arith, laid.pa_next))
          ∙ read_apart m.next_var 4 m.length_var 4 grown _ (omega (arith, laid.length_next))
          ∙ off_chunk m.next_var 4 new.off_next
          ∙ inv.next;
      fits = enough;
      room = room;
      items = now-items;
      small = inv.small;
      beyond = inv.beyond;
      chunk = new;
    })
