-- ===== src/WrapImpl/Places.antt =====
-- Places in memory, what does not overlap, and what writes leave of it.
use softwrap.Prelude.{ℕ, ◌+◌, ◌≤◌, ◌≡◌, ◌⊎◌, inl, inr, arith, List, [], ◌∷◌, ◌++◌}
use softwrap.WrapImpl.{WrapMemory}
use softwrap.WrapLogger.Entries.{All}

-- The `n` bytes at `a` and the `m` bytes at `b` have none in common.
abbrev pub Away : ℕ → ℕ → ℕ → ℕ → Type 0
Away a n b m = (a + n ≤ b) ⊎ (b + m ≤ a)

-- Two nodes.
abbrev pub Apart : ℕ → ℕ → Type 0
Apart n m = Away n 16 m 16

abbrev pub Pairwise : List ℕ → Type 0
Pairwise [] = Unit
Pairwise (n ∷ ns) = All (Apart n) ns × Pairwise ns

pub All_map : {P Q : ℕ → Type 0} (ns : List ℕ) → ((n : ℕ) → P n → Q n) → All P ns → All Q ns
All_map [] f h = tt
All_map (n ∷ ns) f (p, ps) = (f n p, All_map ns f ps)

pub All-append : (P : ℕ → Type 0) (xs ys : List ℕ) → All P xs → All P ys → All P (xs ++ ys)
All-append P [] ys p q = q
All-append P (x ∷ xs) ys (p, ps) q = (p, All-append P xs ys ps q)

pub All_split : (P : ℕ → Type 0) (xs ys : List ℕ) → All P (xs ++ ys) → All P xs × All P ys
All_split P [] ys p = (tt, p)
All_split P (x ∷ xs) ys (p, ps) = let (a, b) = All_split P xs ys ps in ((p, a), b)

pub Apart-sym : (n m : ℕ) → Apart n m → Apart m n
Apart-sym n m (inl h) = inr h
Apart-sym n m (inr h) = inl h

pub Away-sym : (a n b m : ℕ) → Away a n b m → Away b m a n
Away-sym a n b m (inl h) = inr h
Away-sym a n b m (inr h) = inl h

pub All_true : {P : ℕ → Type 0} (ns : List ℕ) → ((n : ℕ) → P n) → All P ns
All_true [] h = tt
All_true (n ∷ ns) h = (h n, All_true ns h)

pub All_zip :
    {P Q R : ℕ → Type 0} (ns : List ℕ)
    → ((n : ℕ) → P n → Q n → R n)
    → All P ns
    → All Q ns
    → All R ns
All_zip [] f p q = tt
All_zip (n ∷ ns) f (p, ps) (q, qs) = (f n p q, All_zip ns f ps qs)

-- Each of these is apart from each of those.
abbrev pub Across : List ℕ → List ℕ → Type 0
Across xs ys = All (λ x. All (Apart x) ys) xs

pub Across-flip : (xs ys : List ℕ) → Across xs ys → Across ys xs
Across-flip [] ys h = All_true ys (λ y. tt)
Across-flip (x ∷ xs) ys (one, rest) =
    All_zip ys (λ y a b. (Apart-sym x y a, b)) one (Across-flip xs ys rest)

pub Pairwise-split :
    (xs ys : List ℕ) → Pairwise (xs ++ ys) → Pairwise xs × Pairwise ys × Across xs ys
Pairwise-split [] ys h = (tt, h, tt)
Pairwise-split (x ∷ xs) ys (one, rest) =
    let (a, b) = All_split (Apart x) xs ys one in
    let (p, q, r) = Pairwise-split xs ys rest in ((a, p), q, (b, r))

pub Pairwise-join :
    (xs ys : List ℕ) → Pairwise xs → Pairwise ys → Across xs ys → Pairwise (xs ++ ys)
Pairwise-join [] ys p q r = q
Pairwise-join (x ∷ xs) ys (one, p) q (a, r) =
    (All-append (Apart x) xs ys one a, Pairwise-join xs ys p q r)

module _ (w : WrapMemory) where
  open w use {State, read, write, read_apart}

  -- Nothing but the `m` bytes at `b` has changed.
  abbrev pub Keeps : State → State → ℕ → ℕ → Type 0
  Keeps s s' b m = (a n : ℕ) → Away b m a n → read a n s' ≡ read a n s

  pub write-Keeps : (b m v : ℕ) (s : State) → Keeps s (write b m v s) b m
  write-Keeps b m v s a n away = read_apart a n b m v s (omega (arith, away))
