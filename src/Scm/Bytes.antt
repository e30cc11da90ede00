-- ===== src/Scm/Bytes.antt =====
-- Byte memory, and the byte strings that lie in it. Numbers are stored with the low byte first.
use native.Mathlib.Decide.{dec_lt}
use native.Mathlib.Nat.{pow-suc}
use softwrap.Prelude.{
  ℕ, zero, suc, ◌+◌, ◌*◌, ◌/◌, ◌%◌, ◌^◌, ◌≤◌, ◌<◌, ◌≡◌, refl, ap, ◌∙◌, fun_ext, ◌⊎◌, List, [], ◌∷◌,
  ◌++◌, length, arith, ◌==◌, if◌then◌else◌, ltb, leb, ◌&&◌, ◌-◌,
}

abbrev pub Mem : Type 0
Mem = ℕ → ℕ

abbrev pub put : Mem → ℕ → ℕ → Mem
put m a v b = if a == b then v else m b

-- memcpy from a buffer
unfoldable pub write_bytes : ℕ → List ℕ → Mem → Mem
write_bytes d [] m = m
write_bytes d (x ∷ xs) m = write_bytes (d + 1) xs (put m d x)

unfoldable pub read_bytes : ℕ → ℕ → Mem → List ℕ
read_bytes zero a m = []
read_bytes (suc n) a m = m a ∷ read_bytes n (a + 1) m

pub length-read_bytes : (n a : ℕ) (m : Mem) → length (read_bytes n a m) ≡ n
unfolding read_bytes
length-read_bytes zero a m = refl
length-read_bytes (suc n) a m = ap suc (length-read_bytes n (a + 1) m)

-- What is read depends on memory only where it is read.
pub read_bytes_congr :
    (n a : ℕ) (f g : Mem)
    → ((i : ℕ) → a ≤ i → i < a + n → f i ≡ g i)
    → read_bytes n a f ≡ read_bytes n a g
unfolding read_bytes
read_bytes_congr zero a f g h = refl
read_bytes_congr (suc n) a f g h = cc (
  h a (omega arith) (omega arith),
  read_bytes_congr n (a + 1) f g (λ i lo hi. h i (omega arith) (omega arith)),
)

-- A write changes nothing outside its range.
pub write_bytes_outside :
    (d : ℕ) (xs : List ℕ) (m : Mem) (a : ℕ)
    → (a < d) ⊎ (d + length xs ≤ a)
    → write_bytes d xs m a ≡ m a
unfolding write_bytes
write_bytes_outside d [] m a h = refl
write_bytes_outside d (x ∷ xs) m a h =
    write_bytes_outside (d + 1) xs (put m d x) a (omega arith) ∙ ground arith

pub write_bytes-append :
    (d : ℕ) (xs ys : List ℕ) (m : Mem)
    → write_bytes d (xs ++ ys) m ≡ write_bytes (d + length xs) ys (write_bytes d xs m)
unfolding write_bytes
write_bytes-append d [] ys m = let e : d + 0 ≡ d = omega arith in rw e
write_bytes-append d (x ∷ xs) ys m =
    let e : d + suc (length xs) ≡ d + 1 + length xs = omega arith in
    rw e (write_bytes-append (d + 1) xs ys (put m d x))

-- The bytes `xs` lie at `a`.
abbrev pub Holds : Mem → ℕ → List ℕ → Type 0
Holds m a [] = Unit
Holds m a (x ∷ xs) = (m a ≡ x) × Holds m (a + 1) xs

pub Holds-write_self : (d : ℕ) (xs : List ℕ) (m : Mem) → Holds (write_bytes d xs m) d xs
unfolding write_bytes
Holds-write_self d [] m = tt
Holds-write_self d (x ∷ xs) m = (
  write_bytes_outside (d + 1) xs (put m d x) d (omega arith) ∙ ground arith,
  Holds-write_self (d + 1) xs (put m d x),
)

pub Holds_congr :
    (m k : Mem) (s : ℕ) (xs : List ℕ)
    → ((a : ℕ) → s ≤ a → a < s + length xs → k a ≡ m a)
    → Holds m s xs
    → Holds k s xs
Holds_congr m k s [] same h = tt
Holds_congr m k s (x ∷ xs) same h = (
  same s (omega arith) (omega arith) ∙ h.0,
  Holds_congr m k (s + 1) xs (λ a lo hi. same a (omega arith) (omega arith)) h.1,
)

pub Holds-write_other :
    (d : ℕ) (ys : List ℕ) (m : Mem) (a : ℕ) (xs : List ℕ)
    → (a + length xs ≤ d) ⊎ (d + length ys ≤ a)
    → Holds m a xs
    → Holds (write_bytes d ys m) a xs
Holds-write_other d ys m a [] apart h = tt
Holds-write_other d ys m a (x ∷ xs) apart h = (
  write_bytes_outside d ys m a (omega arith) ∙ h.0,
  Holds-write_other d ys m (a + 1) xs (omega arith) h.1,
)

pub Holds-split :
    (m : Mem) (a : ℕ) (xs ys : List ℕ)
    → Holds m a (xs ++ ys)
    → Holds m a xs × Holds m (a + length xs) ys
Holds-split m a [] ys h = (tt, let e : a + 0 ≡ a = omega arith in rw e h)
Holds-split m a (x ∷ xs) ys h =
    let (first, rest) = Holds-split m (a + 1) xs ys h.1 in
    ((h.0, first), let e : a + suc (length xs) ≡ a + 1 + length xs = omega arith in rw e rest)

pub Holds-join :
    (m : Mem) (a : ℕ) (xs ys : List ℕ)
    → Holds m a xs
    → Holds m (a + length xs) ys
    → Holds m a (xs ++ ys)
Holds-join m a [] ys h k = let e : a ≡ a + 0 = omega arith in rw e k
Holds-join m a (x ∷ xs) ys h k = (
  h.0,
  Holds-join m (a + 1) xs ys h.1
      (let e : a + 1 + length xs ≡ a + suc (length xs) = omega arith in rw e k),
)

pub read_bytes-Holds :
    (m : Mem) (a : ℕ) (xs : List ℕ) → Holds m a xs → read_bytes (length xs) a m ≡ xs
unfolding read_bytes
read_bytes-Holds m a [] h = refl
read_bytes-Holds m a (x ∷ xs) h = rw (h.0, read_bytes-Holds m (a + 1) xs h.1)

-- What lies in memory already may be written again.
pub write_bytes-Holds : (d : ℕ) (xs : List ℕ) (m : Mem) → Holds m d xs → write_bytes d xs m ≡ m
unfolding write_bytes
write_bytes-Holds d [] m h = refl
write_bytes-Holds d (x ∷ xs) m h =
    let same : put m d x ≡ m = fun_ext λ b. ground (arith, h.0, ap m) in
    rw same (write_bytes-Holds (d + 1) xs m h.1)

-- An unsigned number of n bytes.
unfoldable pub le : ℕ → ℕ → List ℕ
le zero v = []
le (suc n) v = (v % 256) ∷ le n (v / 256)

unfoldable pub of_le : List ℕ → ℕ
of_le [] = 0
of_le (x ∷ xs) = x + 256 * of_le xs

pub length-le : (n v : ℕ) → length (le n v) ≡ n
unfolding le
length-le zero v = refl
length-le (suc n) v = ap suc (length-le n (v / 256))

pub of_le-le : (n v : ℕ) → v < 256 ^ n → of_le (le n v) ≡ v
unfolding le of_le
of_le-le zero v h = omega arith
of_le-le (suc n) v h =
    let small : v < 256 ^ n * 256 = rw pow-suc at h in
    omega (arith, of_le-le n (v / 256) (omega arith))

-- `*(T *)a` for a T of n bytes
unfoldable pub load : ℕ → ℕ → Mem → ℕ
load n a m = of_le (read_bytes n a m)

pub load-Holds : (n v : ℕ) (m : Mem) (a : ℕ) → v < 256 ^ n → Holds m a (le n v) → load n a m ≡ v
unfolding load
load-Holds n v m a small h =
    let e : read_bytes n a m ≡ le n v = rw length-le at (read_bytes-Holds m a (le n v) h) in
    rw e (of_le-le n v small)

pub Holds-read_bytes : (n a : ℕ) (m : Mem) → Holds m a (read_bytes n a m)
unfolding read_bytes
Holds-read_bytes zero a m = tt
Holds-read_bytes (suc n) a m = (refl, Holds-read_bytes n (a + 1) m)

-- A write that is filled up with what lies behind it is the write alone.
pub write_bytes_filled :
    (d : ℕ) (xs : List ℕ) (n e : ℕ) (m : Mem)
    → e ≡ d + length xs
    → write_bytes d (xs ++ read_bytes n e m) m ≡ write_bytes d xs m
write_bytes_filled d xs n e m at =
    let there : Holds (write_bytes d xs m) (d + length xs) (read_bytes n e m) =
      rw (← at)
        (Holds-write_other d xs m e (read_bytes n e m) (omega arith) (Holds-read_bytes n e m)) in
    write_bytes-append d xs (read_bytes n e m) m
    ∙ write_bytes-Holds (d + length xs) (read_bytes n e m) (write_bytes d xs m) there

-- A copy of n bytes from `f`, at every address.
pub write-read :
    (d n off : ℕ) (f m : Mem) (a : ℕ)
    → write_bytes d (read_bytes n off f) m a
      ≡ (if leb d a && ltb a (d + n) then f (off + (a - d)) else m a)
unfolding write_bytes read_bytes
write-read d zero off f m a = ground arith
write-read d (suc n) off f m a =
    let ih = write-read (d + 1) n (off + 1) f (put m d (f off)) a in
    elim (dec_lt d a) [
      | yes p ↦
          let e : off + 1 + (a - (d + 1)) ≡ off + (a - d) = omega arith in
          ih ∙ ground (arith, ap f e)
      | no p ↦ ih ∙ ground (arith, near)
    ]
  where
    near : d ≡ a → f off ≡ f (off + (a - d))
    near h = ap f (omega arith)
