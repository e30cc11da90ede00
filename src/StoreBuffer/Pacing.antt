-- ===== src/StoreBuffer/Pacing.antt =====
-- What draining the ring does, and that a flush ends.
use native.Mathlib.Nat.{mod-add-mod, mod-lt, mod-eq_of_lt, add-mul-mod_self_left}
use native.Mathlib.Decide.{dec_le}
use softwrap.Prelude.{
  ℕ, zero, suc, ◌+◌, ◌-◌, ◌*◌, ◌%◌, ◌≤◌, ◌<◌, ◌≡◌, ◌≢◌, ◌⊎◌, inl, inr, refl, sym, ap, ◌∙◌, true,
  false, ltb, ◌==◌, arith, Bool-cases, ==_refl, ==→eq, Returns,
}
use softwrap.StoreBuffer.{
  StoreBuffer, expired, drop_head, process_loop, process_buffer, flush_buffer,
}

pub record IsBuffer (b : StoreBuffer) : Type 0 where
  pub head_below : b.head < b.buff_size
  pub tail_below : b.tail < b.buff_size

-- What `processBuffer` at time `t` makes of `b`: only the head moves, until the ring is empty or its
-- first write is still on its way.
pub record Processed (t : ℕ) (b b' : StoreBuffer) : Type 0 where
  pub buffer : IsBuffer b'
  pub tail : b'.tail ≡ b.tail
  pub start : b'.start ≡ b.start
  pub size : b'.buff_size ≡ b.buff_size
  pub twr : b'.twr ≡ b.twr
  pub done : (b'.head ≡ b'.tail) ⊎ (expired b' t b'.head ≡ false)

process_loop_lem :
    (fuel d t : ℕ) (b : StoreBuffer)
    → IsBuffer b
    → (b.head + d) % b.buff_size ≡ b.tail
    → 0 < d
    → d ≤ fuel
    → Returns (process_loop fuel t b) (Processed t b)
unfolding process_loop
process_loop_lem zero d t b ring there pos enough = absurd (omega arith)
process_loop_lem (suc fuel) d t b ring there pos enough =
    let b' = drop_head b in
    let inside : b'.head < b.buff_size = mod-lt (b.head + 1) (omega (arith, ring.head_below)) in
    let ring' : IsBuffer b' = record { head_below = inside; tail_below = ring.tail_below } in
    let e : b.head + d ≡ b.head + 1 + (d - 1) = omega arith in
    let there' : (b'.head + (d - 1)) % b.buff_size ≡ b.tail =
      mod-add-mod (b.head + 1) b.buff_size (d - 1)
      ∙ sym (ap (λ (x : ℕ). x % b.buff_size) e)
      ∙ there in
    elim (Bool-cases (expired b t b.head)) [
      | inr late ↦ (
        b,
        rw late,
        record {
          buffer = ring;
          tail = refl;
          start = refl;
          size = refl;
          twr = refl;
          done = inr late;
        },
      )
      | inl early ↦ elim (Bool-cases (b'.head == b'.tail)) [
        | inl empty ↦ (
          b',
          rw (early, empty),
          record {
            buffer = ring';
            tail = refl;
            start = refl;
            size = refl;
            twr = refl;
            done = inl (==→eq _ _ empty);
          },
        )
        | inr more ↦
            let pos' : 0 < d - 1 = elim (dec_le d 1) [
              | no p ↦ omega arith
              | yes p ↦
                  let z : b'.head + (d - 1) ≡ b'.head = omega arith in
                  let same : b'.head ≡ b'.tail =
                    sym (mod-eq_of_lt inside) ∙ sym (ap (λ (x : ℕ). x % b.buff_size) z) ∙ there' in
                  let yes' : (b'.head == b'.tail) ≡ true = rw same (==_refl b'.tail) in
                  absurd (cc (more, yes'))
            ] in
            let (r, run, p) = process_loop_lem fuel (d - 1) t b' ring' there' pos' (omega arith) in
            (
              r,
              rw (early, more) run,
              record {
                buffer = p.buffer;
                tail = p.tail;
                start = p.start;
                size = p.size;
                twr = p.twr;
                done = p.done;
              },
            )
      ]
    ]

-- Draining at time `t` ends within as many rounds as the ring has entries.
pub process_buffer-Returns :
    (t : ℕ) (b : StoreBuffer) → IsBuffer b → Returns (process_buffer t b) (Processed t b)
unfolding process_buffer
process_buffer-Returns t b ring = elim (Bool-cases (b.head == b.tail)) [
  | inl empty ↦ (
    b,
    rw empty,
    record {
      buffer = ring;
      tail = refl;
      start = refl;
      size = refl;
      twr = refl;
      done = inl (==→eq _ _ empty);
    },
  )
  | inr more ↦
      let n = b.buff_size in
      let ne : b.head ≢ b.tail =
        λ e. let y : (b.head == b.tail) ≡ true = rw e (==_refl b.tail) in cc (more, y) in
      elim (dec_le b.head b.tail) [
        | yes le ↦
            let z : b.head + (b.tail - b.head) ≡ b.tail = omega arith in
            let (r, run, p) =
              process_loop_lem n (b.tail - b.head) t b ring (rw z (mod-eq_of_lt ring.tail_below))
                (omega (arith, ne)) (omega (arith, ring.tail_below)) in
            (r, rw more run, p)
        | no gt ↦
            let z : b.head + (b.tail + n - b.head) ≡ b.tail + n * 1 =
              omega (arith, ring.head_below) in
            let (r, run, p) =
              process_loop_lem n (b.tail + n - b.head) t b ring
                (rw z (add-mul-mod_self_left b.tail n 1 ∙ mod-eq_of_lt ring.tail_below))
                (omega (arith, ring.head_below)) (omega arith) in
            (r, rw more run, p)
      ]
]

-- An empty ring is flushed already.
drained :
    (fuel : ℕ) (clock : ℕ → ℕ) (b : StoreBuffer)
    → b.head ≡ b.tail
    → 0 < fuel
    → Returns (flush_buffer fuel clock b) λ b'. b' ≡ b
unfolding flush_buffer
drained zero clock b e pos = absurd (omega arith)
drained (suc fuel) clock b e pos =
    let y : (b.head == b.tail) ≡ true = rw e (==_refl b.tail) in (b, rw y, refl)

-- A flush ends with an empty ring once the clock reads later, by more than the time of a write, than
-- every start time in the ring: `k` further readings of the clock are enough fuel.
pub flush_buffer-Returns :
    (k fuel : ℕ) (clock : ℕ → ℕ) (b : StoreBuffer)
    → IsBuffer b
    → ((i : ℕ) → b.start i + b.twr < clock k)
    → k + 1 < fuel
    → Returns
        (flush_buffer fuel clock b)
        λ b'. (b'.head ≡ b'.tail) × IsBuffer b' × (b'.tail ≡ b.tail)
unfolding flush_buffer
flush_buffer-Returns k zero clock b ring late enough = absurd (omega arith)
flush_buffer-Returns k (suc fuel) clock b ring late enough = elim (Bool-cases (b.head == b.tail)) [
  | inl empty ↦ (b, rw empty, (==→eq _ _ empty, ring, refl))
  | inr more ↦
      let (b1, run, p) = process_buffer-Returns (clock 0) b ring in
      elim p.done [
        | inl none' ↦
            let (b2, run', e) = drained fuel (λ i. clock (suc i)) b1 none' (omega arith) in
            (b2, rw more (rw run run'), (cc (e, none'), rw e p.buffer, cc (e, p.tail)))
        | inr still ↦ elim (dec_le k 0) [
          | yes p0 ↦
              let z : k ≡ 0 = omega arith in
              let past : b.start b1.head + b.twr < clock 0 = rw z at (late b1.head) in
              let waits : ltb b.twr (clock 0 - b.start b1.head) ≡ false =
                rw (p.start, p.twr) at still in
              absurd (ground arith)
          | no p0 ↦
              let z : suc (k - 1) ≡ k = omega arith in
              let late' : (i : ℕ) → b1.start i + b1.twr < clock (suc (k - 1)) =
                λ i. rw (z, p.start, p.twr) (late i) in
              let (b2, run', (empty, ring2, tail2)) =
                flush_buffer-Returns (k - 1) fuel (λ i. clock (suc i)) b1 p.buffer late'
                  (omega arith) in
              (b2, rw more (rw run run'), (empty, ring2, tail2 ∙ p.tail))
        ]
      ]
]
