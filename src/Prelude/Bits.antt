-- ===== src/Prelude/Bits.antt =====
-- A mask of low ones is a remainder.
use Prim.Native.Nat.{
  ℕ, zero, suc, ◌+◌, ◌-◌, ◌*◌, ◌/◌, ◌%◌, ◌^◌, ◌≤◌, ◌<◌, min, max, bit_and, bit_or, digits,
  bit_and-bitwise, bit_or-bitwise,
}
use mathlib.Core.Path.{◌≡◌, refl, sym, ap, ◌∙◌}
use native.Mathlib.Decide.{dec_le}
use native.Mathlib.Nat.{
  pow-suc, mod-lt, mod-eq_of_lt, div-add-mod, add-mul-mod_self_left, one-le-pow,
}
use native.Mathlib.Omega.{arith}

-- The definition that the native operations stand for runs on a count of digits, which may be any
-- that is not below the first number.
module _ (rest : ℕ → ℕ) (op : ℕ → ℕ → ℕ) where
  spare_digit : (n x y : ℕ) → x ≤ n → digits rest op (suc n) x y ≡ digits rest op n x y
  spare_digit zero x y h = let e : x ≡ 0 = omega arith in rw e
  spare_digit (suc n) zero y h = refl
  spare_digit (suc n) (suc x) y h =
      let half = spare_digit n (suc x / 2) (y / 2) (omega arith) in
      ap (λ (t : ℕ). t * 2 + op (suc x % 2) (y % 2)) half

  enough_digits : (n x y : ℕ) → x ≤ n → digits rest op n x y ≡ digits rest op x x y
  enough_digits zero x y h = let e : x ≡ 0 = omega arith in rw e
  enough_digits (suc n) x y h = elim (dec_le x n) [
    | yes le ↦ spare_digit n x y le ∙ enough_digits n x y le
    | no gt ↦ let e : x ≡ suc n = omega arith in rw e
  ]

  lowest_digit :
      (x y : ℕ)
      → digits rest op (suc x) (suc x) y
        ≡ digits rest op (suc x / 2) (suc x / 2) (y / 2) * 2 + op (suc x % 2) (y % 2)
  lowest_digit x y =
      ap (λ (t : ℕ). t * 2 + op (suc x % 2) (y % 2))
        (enough_digits x (suc x / 2) (y / 2) (omega arith))

-- The halves and the last digits of the two operations.
bit_and_half :
    (x y : ℕ)
    → (bit_and x y / 2 ≡ bit_and (x / 2) (y / 2)) × (bit_and x y % 2 ≡ min (x % 2) (y % 2))
bit_and_half zero y =
    let none = bit_and-bitwise 0 y in
    let none' = bit_and-bitwise 0 (y / 2) in (omega (arith, none, none'), omega (arith, none))
bit_and_half (suc x) y =
    let whole = bit_and-bitwise (suc x) y ∙ lowest_digit (λ t. 0) min x y in
    let half = bit_and-bitwise (suc x / 2) (y / 2) in
    (omega (arith, whole, half), omega (arith, whole))

bit_or_half :
    (x y : ℕ) → (bit_or x y / 2 ≡ bit_or (x / 2) (y / 2)) × (bit_or x y % 2 ≡ max (x % 2) (y % 2))
bit_or_half zero y =
    let same = bit_or-bitwise 0 y in
    let same' = bit_or-bitwise 0 (y / 2) in (omega (arith, same, same'), omega (arith, same))
bit_or_half (suc x) y =
    let whole = bit_or-bitwise (suc x) y ∙ lowest_digit (λ t. t) max x y in
    let half = bit_or-bitwise (suc x / 2) (y / 2) in
    (omega (arith, whole, half), omega (arith, whole))

-- No digit is common with zero.
bit_and-no_digits : (n x : ℕ) → x ≤ n → bit_and x 0 ≡ 0
bit_and-no_digits zero x h = let e : x ≡ 0 = omega arith in rw e (bit_and-bitwise 0 0)
bit_and-no_digits (suc n) x h =
    let (half, low) = bit_and_half x 0 in
    omega (arith, half, low, bit_and-no_digits n (x / 2) (omega arith))

double_mod : (a p : ℕ) → 0 < p → a / 2 % p * 2 + a % 2 ≡ a % (p * 2)
double_mod a p pos =
    let q = a / 2 / p in
    let r = a / 2 % p in
    let small : r * 2 + a % 2 < p * 2 = omega (arith, mod-lt (a / 2) pos) in
    let split : a ≡ r * 2 + a % 2 + p * 2 * q =
      omega (arith, ap (λ (t : ℕ). t * 2) (div-add-mod (a / 2) p)) in
    sym (
      ap (λ (t : ℕ). t % (p * 2)) split
      ∙ add-mul-mod_self_left (r * 2 + a % 2) (p * 2) q
      ∙ mod-eq_of_lt small)

-- x & (2^k - 1) is x % 2^k.
pub bit_and_mask : (k a : ℕ) → bit_and a (2 ^ k - 1) ≡ a % 2 ^ k
bit_and_mask zero a = omega (arith, bit_and-no_digits a a (omega arith))
bit_and_mask (suc k) a =
    let pos = one-le-pow k 2 (omega arith) in
    let p = 2 ^ k in
    let e : 2 ^ suc k ≡ p * 2 = pow-suc 2 k in
    let h : (p * 2 - 1) / 2 ≡ p - 1 = omega arith in
    let o : (p * 2 - 1) % 2 ≡ 1 = omega arith in
    rw e (
      omega (
        arith,
        (bit_and_half a (p * 2 - 1)).0,
        (bit_and_half a (p * 2 - 1)).1,
        h,
        o,
        ap (bit_and (a / 2)) h,
        bit_and_mask k (a / 2),
        double_mod a p pos,
      ))

-- The low k bits of (w | c) & b are those of b where c is b, and none is lost that w & b has.
pub bit_and-bit_or_self : (k w b : ℕ) → bit_and (bit_or w b) b % 2 ^ k ≡ b % 2 ^ k
bit_and-bit_or_self zero w b = omega arith
bit_and-bit_or_self (suc k) w b =
    let e : 2 ^ suc k ≡ 2 ^ k * 2 = pow-suc 2 k in
    let pos = one-le-pow k 2 (omega arith) in
    let x = bit_and (bit_or w b) b in
    let half : x / 2 ≡ bit_and (bit_or (w / 2) (b / 2)) (b / 2) =
      (bit_and_half (bit_or w b) b).0 ∙ ap (λ (t : ℕ). bit_and t (b / 2)) (bit_or_half w b).0 in
    let low : x % 2 ≡ b % 2 = omega (arith, (bit_and_half (bit_or w b) b).1, (bit_or_half w b).1) in
    rw e (
      sym (double_mod x (2 ^ k) pos)
      ∙ rw (half, low, bit_and-bit_or_self k (w / 2) (b / 2)) (double_mod b (2 ^ k) pos))

pub bit_and-bit_or_mono :
    (k w c b : ℕ) → bit_and (bit_or w c) b % 2 ^ k ≡ 0 → bit_and w b % 2 ^ k ≡ 0
bit_and-bit_or_mono zero w c b h = omega arith
bit_and-bit_or_mono (suc k) w c b h =
    let e : 2 ^ suc k ≡ 2 ^ k * 2 = pow-suc 2 k in
    let pos = one-le-pow k 2 (omega arith) in
    let x = bit_and (bit_or w c) b in
    let y = bit_and w b in
    let zero' : x / 2 % 2 ^ k * 2 + x % 2 ≡ 0 = double_mod x (2 ^ k) pos ∙ rw e at h in
    let half : x / 2 ≡ bit_and (bit_or (w / 2) (c / 2)) (b / 2) =
      (bit_and_half (bit_or w c) b).0 ∙ ap (λ (t : ℕ). bit_and t (b / 2)) (bit_or_half w c).0 in
    let high : x / 2 % 2 ^ k ≡ 0 = omega (arith, zero') in
    let upper : bit_and (w / 2) (b / 2) % 2 ^ k ≡ 0 =
      bit_and-bit_or_mono k (w / 2) (c / 2) (b / 2) (rw half at high) in
    let low : y % 2 ≡ 0 =
      omega (
        arith,
        zero',
        (bit_and_half (bit_or w c) b).1,
        (bit_or_half w c).1,
        (bit_and_half w b).1,
      ) in
    rw e (sym (double_mod y (2 ^ k) pos) ∙ rw ((bit_and_half w b).0, upper, low) (omega arith))
