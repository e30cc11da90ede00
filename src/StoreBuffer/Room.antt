-- ===== src/StoreBuffer/Room.antt =====
-- A write that is not combined waits for room, and is paced behind the one before it.
use native.Mathlib.Nat.{mod-lt, mod-eq_of_lt, mod_self}
use native.Mathlib.Decide.{dec_le}
use softwrap.Prelude.{
  ℕ, zero, suc, ◌+◌, ◌-◌, ◌/◌, ◌%◌, ◌^◌, ◌≤◌, ◌<◌, ◌≡◌, ◌≢◌, ◌⊎◌, inl, inr, refl, sym, ◌∙◌, Bool,
  true, false, ◌||◌, ltb, ◌==◌, arith, Bool-cases, ==_refl, ==→eq, ne→==_false, lt→ltb, ok, Returns,
}
use softwrap.StoreBuffer.Pacing.{IsBuffer, process_buffer-Returns}
use softwrap.StoreBuffer.{
  StoreBuffer, wait_for_room, before, start_time, add_write, combines, combines_below,
  streaming_store_delay,
}

-- The ring with a free slot, after waiting.
pub record Roomy (b b' : StoreBuffer) : Type 0 where
  pub buffer : IsBuffer b'
  pub tail : b'.tail ≡ b.tail
  pub start : b'.start ≡ b.start
  pub size : b'.buff_size ≡ b.buff_size
  pub twr : b'.twr ≡ b.twr
  pub free : (b'.tail + 1) % b'.buff_size ≢ b'.head

-- The slot behind a slot is another one.
next_slot : (n i : ℕ) → 1 < n → i < n → (i + 1) % n ≢ i
next_slot n i big lt e = elim (dec_le (i + 2) n) [
  | yes p ↦ let s : (i + 1) % n ≡ i + 1 = mod-eq_of_lt (omega arith) in omega (arith, e, s)
  | no p ↦
      let whole : i + 1 ≡ n = omega arith in
      let s : (i + 1) % n ≡ 0 = rw whole (mod_self n) in omega (arith, e, s)
]

-- With an empty ring there is nothing to wait for.
empty_room :
    (fuel : ℕ) (clock : ℕ → ℕ) (l : ℕ) (b : StoreBuffer)
    → IsBuffer b
    → 1 < b.buff_size
    → b.head ≡ b.tail
    → 0 < fuel
    → wait_for_room fuel clock l b ≡ ok (l, b)
unfolding wait_for_room
empty_room zero clock l b ring big e pos = absurd (omega arith)
empty_room (suc fuel) clock l b ring big e pos =
    let ne = next_slot b.buff_size b.tail big ring.tail_below in
    let f : ((b.tail + 1) % b.buff_size == b.head) ≡ false = ne→==_false _ _ (λ h. ne (h ∙ e)) in
    rw f

-- The wait ends once the clock has read late enough at its k-th reading, `time 0` being the first.
wait_for_room-Returns :
    (k fuel : ℕ) (time : ℕ → ℕ) (b : StoreBuffer)
    → IsBuffer b
    → 1 < b.buff_size
    → ((i : ℕ) → b.start i + b.twr < time k)
    → k + 1 < fuel
    → Returns (wait_for_room fuel (λ i. time (suc i)) (time 0) b) λ r. Roomy b r.1
unfolding wait_for_room
wait_for_room-Returns k zero time b ring big late enough = absurd (omega arith)
wait_for_room-Returns k (suc fuel) time b ring big late enough =
    elim (Bool-cases ((b.tail + 1) % b.buff_size == b.head)) [
      | inr free' ↦ (
        (time 0, b),
        rw free',
        record {
          buffer = ring;
          tail = refl;
          start = refl;
          size = refl;
          twr = refl;
          free = λ e.
              let y : ((b.tail + 1) % b.buff_size == b.head) ≡ true = rw e (==_refl b.head) in
              cc (free', y);
        },
      )
      | inl full' ↦
          let (b1, run, p) = process_buffer-Returns (time 0) b ring in
          let big1 : 1 < b1.buff_size = omega (arith, p.size) in
          elim p.done [
            | inl none' ↦
                let ne = next_slot b1.buff_size b1.tail big1 p.buffer.tail_below in
                (
                  (time 1, b1),
                  rw full'
                      (rw run (empty_room fuel _ (time 1) b1 p.buffer big1 none' (omega arith))),
                  record {
                    buffer = p.buffer;
                    tail = p.tail;
                    start = p.start;
                    size = p.size;
                    twr = p.twr;
                    free = λ h. ne (h ∙ none');
                  },
                )
            | inr still ↦ elim (dec_le k 0) [
              | yes p0 ↦
                  let z : k ≡ 0 = omega arith in
                  let past : b.start b1.head + b.twr < time 0 = rw z at (late b1.head) in
                  let waits : ltb b.twr (time 0 - b.start b1.head) ≡ false =
                    rw (p.start, p.twr) at still in
                  absurd (ground arith)
              | no p0 ↦
                  let z : suc (k - 1) ≡ k = omega arith in
                  let late' : (i : ℕ) → b1.start i + b1.twr < time (suc (k - 1)) =
                    λ i. rw (z, p.start, p.twr) (late i) in
                  let (r2, run', r) =
                    wait_for_room-Returns (k - 1) fuel (λ i. time (suc i)) b1 p.buffer big1 late'
                      (omega arith) in
                  (
                    r2,
                    rw full' (rw run run'),
                    record {
                      buffer = r.buffer;
                      tail = r.tail ∙ p.tail;
                      start = r.start ∙ p.start;
                      size = r.size ∙ p.size;
                      twr = r.twr ∙ p.twr;
                      free = r.free;
                    },
                  )
            ]
          ]
    ]

-- A new write of the line in the ring `b`: no other slot has the line but the head, if it has ended;
-- the write stands at the old tail, the ring is well formed, and where other writes are still in it,
-- it starts no earlier than the one before it has ended.
pub record Queued (line l : ℕ) (b b' : StoreBuffer) : Type 0 where
  pub buffer : IsBuffer b'
  pub single : (i : ℕ) → i < b.buff_size → b.dest i ≡ line → (i ≡ b.head) × (b.start i + b.twr ≤ l)
  pub last : b'.tail ≡ (b.tail + 1) % b.buff_size
  pub line_at : b'.dest b.tail ≡ line
  pub not_empty : b'.head ≢ b'.tail
  pub paced : (b'.head ≡ b.tail) ⊎ (b.start (before b) + b.twr ≤ b'.start b.tail)

-- A write that is combined at time `l`: a slot of the ring has its line, and if it is the head it
-- has not ended; the write is counted, and nothing else changes.
pub record Combined (line l : ℕ) (b b' : StoreBuffer) : Type 0 where
  pub slot : ℕ
  pub in_ring : slot < b.buff_size
  pub same_line : b.dest slot ≡ line
  pub not_ended : (slot ≢ b.head) ⊎ (l < b.start slot + b.twr)
  pub counted : b' ≡ record b { num_write_comb = b.num_write_comb + 1 }

or_false : (x y : Bool) → (x || y) ≡ false → (x ≡ false) × (y ≡ false)
or_false true y h = cc h
or_false false y h = (refl, h)

combines-true :
    (b : StoreBuffer) (line l i : ℕ)
    → combines b line l i ≡ true
    → (b.dest i ≡ line) × ((i ≢ b.head) ⊎ (l < b.start i + b.twr))
combines-true b line l i h = (
  ground (arith, h),
  elim (Bool-cases (i == b.head)) [
    | inl e ↦ inr (ground (arith, h, e))
    | inr e ↦ inl (λ z. ground (arith, z, e))
  ],
)

combines-false :
    (b : StoreBuffer) (line l i : ℕ)
    → combines b line l i ≡ false
    → b.dest i ≡ line
    → (i ≡ b.head) × (b.start i + b.twr ≤ l)
combines-false b line l i h e = (ground (arith, h, e), ground (arith, h, e))

combines_below-true :
    (n : ℕ) (b : StoreBuffer) (line l : ℕ)
    → combines_below n b line l ≡ true
    → (i : ℕ) × (i < n) × (combines b line l i ≡ true)
unfolding combines_below
combines_below-true zero b line l h = cc h
combines_below-true (suc n) b line l h = elim (Bool-cases (combines b line l n)) [
  | inl here ↦ (n, omega arith, here)
  | inr not_here ↦
      let (i, lt, there) = combines_below-true n b line l (ground (arith, h, not_here)) in
      (i, omega arith, there)
]

combines_below-false :
    (n : ℕ) (b : StoreBuffer) (line l i : ℕ)
    → combines_below n b line l ≡ false
    → i < n
    → combines b line l i ≡ false
unfolding combines_below
combines_below-false zero b line l i h lt = absurd (omega arith)
combines_below-false (suc n) b line l i h lt =
    let both : (combines_below n b line l ≡ false) × (combines b line l n ≡ false) =
      or_false _ _ h in
    elim (Bool-cases (i == n)) [
      | inl e ↦ rw (==→eq i n e) both.1
      | inr e ↦ combines_below-false n b line l i both.0 (ground (arith, lt, e))
    ]

start_time_lem :
    (l : ℕ) (b : StoreBuffer)
    → (b.head == b.tail) ≡ false
    → 0 < b.twr
    → b.start (before b) + b.twr ≤ start_time b l
start_time_lem l b more pos = rw more (ground arith)

add_write-Queued :
    (line now l : ℕ) (b b1 : StoreBuffer)
    → 0 < b.twr
    → combines_below b.buff_size b line now ≡ false
    → Roomy b b1
    → Queued line now b (add_write line l b1)
unfolding add_write
add_write-Queued line now l b b1 pos none r = record {
  single = λ i lt e.
      combines-false b line now i (combines_below-false b.buff_size b line now i none lt) e;
  buffer = record {
    head_below = r.buffer.head_below;
    tail_below = mod-lt (b1.tail + 1) (omega (arith, r.buffer.head_below));
  };
  last = rw (r.tail, r.size);
  line_at = rw r.tail (rw (==_refl b.tail));
  not_empty = λ e. r.free (sym e);
  paced = elim (Bool-cases (b1.head == b1.tail)) [
    | inl empty ↦ inl (==→eq _ _ empty ∙ r.tail)
    | inr more ↦ inr (
        let late = start_time_lem l b1 more (omega (arith, r.twr)) in
        let same : before b1 ≡ before b = rw (r.tail, r.size) in
        let at : b.start (before b) ≡ b1.start (before b1) = cc (same, r.start) in
        let here : (b.tail == b1.tail) ≡ true = rw r.tail (==_refl b.tail) in
        let value : b.start (before b) + b.twr ≤ start_time b1 l = omega (arith, late, at, r.twr) in
        rw here value)
  ];
}

-- A streaming store under a delay ends once the clock reads later, by more than the time of a
-- write, than every start time in the ring (at its k-th reading, the caller's being the first),
-- with fuel for one round more than readings. If a slot of the ring has its cache line, and is not
-- a head that has ended, the store is counted as combined with it and changes nothing else; if none
-- has, it stands behind the last as `Queued` says.
pub streaming_store_delay-Returns :
    (k fuel : ℕ) (time : ℕ → ℕ) (dest : ℕ) (b : StoreBuffer)
    → IsBuffer b
    → 1 < b.buff_size
    → 0 < b.twr
    → ((i : ℕ) → b.start i + b.twr < time k)
    → k + 1 < fuel
    → Returns
        (streaming_store_delay fuel (λ i. time (suc i)) dest (time 0) b)
        λ b'. Combined (dest / 2 ^ 6) (time 0) b b' ⊎ Queued (dest / 2 ^ 6) (time 0) b b'
unfolding streaming_store_delay
streaming_store_delay-Returns k fuel time dest b ring big pos late enough =
    let line = dest / 2 ^ 6 in
    elim (Bool-cases (combines_below b.buff_size b line (time 0))) [
      | inl there ↦
          let (i, lt, hit) = combines_below-true b.buff_size b line (time 0) there in
          let (same, live) = combines-true b line (time 0) i hit in
          (
            _,
            rw (lt→ltb 0 b.twr pos) (rw there),
            inl (record {
              slot = i;
              in_ring = lt;
              same_line = same;
              not_ended = live;
              counted = refl;
            }),
          )
      | inr new' ↦
          let ((l1, b1), run, r) = wait_for_room-Returns k fuel time b ring big late enough in
          (
            add_write line l1 b1,
            rw (lt→ltb 0 b.twr pos) (rw new' (rw run)),
            inr (add_write-Queued line (time 0) l1 b b1 pos new' r),
          )
    ]
