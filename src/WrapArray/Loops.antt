-- ===== src/WrapArray/Loops.antt =====
-- The loops that copy and clear.
use softwrap.Prelude.{
  ℕ, zero, suc, ◌+◌, ◌-◌, ◌%◌, lt→ltb, ◌*◌, ◌^◌, ◌<◌, ◌≤◌, ◌≡◌, ◌≢◌, ◌⊎◌, inl, inr, refl, ◌∙◌,
  arith, ◌==◌, ==→eq, Bool-cases,
}
use softwrap.WrapImpl.{WrapMemory}
use softwrap.WrapImpl.Places.{Away, Keeps}
use softwrap.WrapArray.{item, copy_items, zero_bytes, rounds, clear_bytes}

-- Elements of `width` bytes.
pub step_lem : (width i : ℕ) → (i + 1) * width ≡ i * width + width
step_lem width i = grind arith

pub within_lem : (width i n : ℕ) → i < n → i * width + width ≤ n * width
within_lem width i n lt = grind arith

pub item-Away : (width a i j : ℕ) → i ≢ j → Away (a + i * width) width (a + j * width) width
item-Away width a i j ne =
    let cases : (i < j) ⊎ (j < i) = omega (arith, ne) in
    elim cases [
      | inl lt ↦ inl (omega (arith, within_lem width i j lt))
      | inr lt ↦ inr (omega (arith, within_lem width j i lt))
    ]

module _ (w : WrapMemory) where
  open w use {State, read, write, read_self, read_apart}

  pub zero_bytes_lem :
      (n j a : ℕ) (s : State)
      → Keeps w s (zero_bytes w n j a s) (a + j) n
        × ((k : ℕ) → j ≤ k → k < j + n → read (a + k) 1 (zero_bytes w n j a s) ≡ 0)
  unfolding zero_bytes
  zero_bytes_lem zero j a s = ((λ b m away. refl), λ k lo hi. absurd (omega arith))
  zero_bytes_lem (suc n) j a s =
      let (keeps, zeros) = zero_bytes_lem n (j + 1) a (write (a + j) 1 0 s) in
      (
        (λ b m away.
            keeps b m (omega (arith, away)) ∙ read_apart b m (a + j) 1 0 s (omega (arith, away))),
        λ k lo hi. elim (Bool-cases (k == j)) [
          | inl e ↦
              rw (==→eq k j e)
                (keeps (a + j) 1 (omega arith) ∙ read_self (a + j) 1 0 s (omega arith))
          | inr e ↦
              let ne : k ≢ j = λ z. ground (arith, z, e) in
              zeros k (omega (arith, ne)) (omega arith)
        ],
      )

  pub copy_items_lem :
      (width total pold pnew : ℕ)
      → Away pold (total * width) pnew (total * width)
      → (n i : ℕ) (s : State) → i + n ≤ total
      → ((k : ℕ) → k < i + n → read (item width pold k) width s < 256 ^ width)
      → Keeps w s (copy_items w width n i pold pnew s) (pnew + i * width) (n * width)
        × ((k : ℕ)
            → i ≤ k
            → k < i + n
            → read (item width pnew k) width (copy_items w width n i pold pnew s)
              ≡ read (item width pold k) width s)
  unfolding copy_items
  copy_items_lem width total pold pnew apart zero i s fits small =
      ((λ b m away. refl), λ k lo hi. absurd (omega arith))
  copy_items_lem width total pold pnew apart (suc n) i s fits small =
      let s' = write (item width pnew i) width (read (item width pold i) width s) s in
      let old : (k : ℕ)
          → k < total
          → read (item width pold k) width s' ≡ read (item width pold k) width s =
        λ k lt. read_apart (item width pold k) width (item width pnew i) width _ s (
          omega (
            arith,
            apart,
            within_lem width k total lt,
            within_lem width i total (omega (arith, fits)),
          )) in
      let (keeps, copies) =
        copy_items_lem width total pold pnew apart n (i + 1) s' (omega (arith, fits))
          (λ k lt. rw (old k (omega (arith, fits))) (small k (omega arith))) in
      (
        (λ b m away.
            keeps b m (omega (arith, away, step_lem width i, step_lem width n))
            ∙ read_apart b m (item width pnew i) width _ s (omega (arith, away, step_lem width n))),
        λ k lo hi. elim (Bool-cases (k == i)) [
          | inl e ↦ rw (==→eq k i e) (
              keeps (item width pnew i) width (omega (arith, step_lem width i))
              ∙ read_self (item width pnew i) width _ s (small i (omega arith)))
          | inr e ↦
              let ne : k ≢ i = λ z. ground (arith, z, e) in
              copies k (omega (arith, ne)) (omega arith) ∙ old k (omega (arith, fits))
        ],
      )

  pub clear_bytes_lem :
      (start stop a : ℕ) (s : State)
      → start ≤ stop
      → stop < 2 ^ 31
      → Keeps w s (clear_bytes w start stop a s) (a + start) (stop - start)
        × ((k : ℕ) → start ≤ k → k < stop → read (a + k) 1 (clear_bytes w start stop a s) ≡ 0)
  unfolding clear_bytes
  clear_bytes_lem start stop a s le int =
      let turns : rounds start stop ≡ stop - start = omega arith in
      let pattern : start % 2 ^ 32 ≡ start = omega arith in
      let (keeps, zeros) = zero_bytes_lem (stop - start) 0 (a + 1 * start) s in
      rw (turns, pattern, lt→ltb start (2 ^ 31) (omega arith))
        (
          (λ b m away. keeps b m (omega (arith, away, le))),
          λ k lo hi.
              let e : a + k ≡ a + 1 * start + (k - start) = omega (arith, lo) in
              rw e (zeros (k - start) (omega arith) (omega (arith, lo, hi))),
        )

pub rounds_lem : (n : ℕ) → n < 2 ^ 31 → rounds 0 n ≡ n
rounds_lem n int = omega arith
