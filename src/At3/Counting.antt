-- ===== src/At3/Counting.antt =====
-- How many of the threads are in a wrap on a table, and how many of them read the other table too.
use softwrap.At2.{Which, other, same}
use softwrap.At3.{Thread}
use softwrap.Prelude.{
  ℕ, zero, suc, ◌+◌, ◌<◌, ◌≤◌, ◌≡◌, inl, inr, refl, arith, Bool, true, false, ◌==◌, ◌&&◌,
  if◌then◌else◌, some, none, Bool-cases, ne→==_false, ==→eq,
}

-- One for a test that holds.
abbrev pub one : Bool → ℕ
one true = 1
one false = 0

pub count : ℕ → (Thread → Bool) → (ℕ → Thread) → ℕ
count zero p threads = 0
count (suc n) p threads = one (p (threads n)) + count n p threads

abbrev pub put : (ℕ → Thread) → ℕ → Thread → ℕ → Thread
put threads i th j = if j == i then th else threads j

-- In a wrap on the table, and in a wrap on the other table that reads this one.
abbrev pub is_on : Which → Thread → Bool
is_on x th = elim th.table [ some y ↦ same x y | none ↦ false ]

abbrev pub is_reader : Which → Thread → Bool
is_reader x th = is_on (other x) th && th.read_other

count-put_above :
    (n : ℕ) (p : Thread → Bool) (threads : ℕ → Thread) (i : ℕ) (th : Thread)
    → n ≤ i
    → count n p (put threads i th) ≡ count n p threads
unfolding count
count-put_above zero p threads i th h = refl
count-put_above (suc n) p threads i th h =
    rw (ne→==_false n i (omega arith), count-put_above n p threads i th (omega arith))

-- A thread's change shifts the count by what the thread was and is.
pub count-put :
    (n : ℕ) (p : Thread → Bool) (threads : ℕ → Thread) (i : ℕ) (th : Thread)
    → i < n
    → count n p (put threads i th) + one (p (threads i)) ≡ count n p threads + one (p th)
unfolding count
count-put zero p threads i th h = absurd (omega arith)
count-put (suc n) p threads i th h = elim (Bool-cases (n == i)) [
  | inl here ↦
      let e : n ≡ i = ==→eq n i here in
      rw (here, count-put_above n p threads i th (omega arith), e) (omega arith)
  | inr there ↦
      let ih = count-put n p threads i th (ground (arith, there)) in rw there (omega (arith, ih))
]

-- A thread of which the test holds is counted.
pub count_pos :
    (n : ℕ) (p : Thread → Bool) (threads : ℕ → Thread) (i : ℕ)
    → i < n
    → p (threads i) ≡ true
    → 0 < count n p threads
unfolding count
count_pos zero p threads i h t = absurd (omega arith)
count_pos (suc n) p threads i h t = elim (Bool-cases (n == i)) [
  | inl here ↦ let e : n ≡ i = ==→eq n i here in rw (e, t) (omega arith)
  | inr there ↦ let ih = count_pos n p threads i (ground (arith, there)) t in omega (arith, ih)
]

-- Where the test holds of no thread the count is 0.
pub count_zero :
    (n : ℕ) (p : Thread → Bool) (threads : ℕ → Thread)
    → ((i : ℕ) → i < n → p (threads i) ≡ false)
    → count n p threads ≡ 0
unfolding count
count_zero zero p threads h = refl
count_zero (suc n) p threads h =
    let ih = count_zero n p threads (λ i lt. h i (omega arith)) in
    rw (h n (omega arith)) (omega (arith, ih))

-- Where the count is not 0 there is such a thread.
pub count_find :
    (n : ℕ) (p : Thread → Bool) (threads : ℕ → Thread)
    → 0 < count n p threads
    → (i : ℕ) × (i < n) × (p (threads i) ≡ true)
unfolding count
count_find zero p threads h = absurd (omega arith)
count_find (suc n) p threads h = elim (Bool-cases (p (threads n))) [
  | inl here ↦ (n, omega arith, here)
  | inr there ↦
      let (i, lt, e) = count_find n p threads (omega (arith, rw there at h)) in (i, omega arith, e)
]
