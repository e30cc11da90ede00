-- ===== src/WrapMap/Chains.antt =====
-- A chain of nodes as a list of their addresses, and what the loops find in it.
use softwrap.Prelude.{
  ℕ, zero, suc, ◌+◌, ◌<◌, ◌≡◌, ◌≢◌, ◌⊎◌, inl, inr, refl, ap, ◌∙◌, arith, List, [], ◌∷◌, ◌++◌,
  length, ◌==◌, ==→eq, ne→==_false, if◌then◌else◌, Bool-cases, ok,
}
use softwrap.WrapImpl.{WrapMemory}
use softwrap.WrapLogger.Entries.{All}
use softwrap.WrapMap.{key_of, value_of, missing, get_loop, find}

abbrev pub last_or : ℕ → List ℕ → ℕ
last_or d [] = d
last_or d (n ∷ ns) = last_or n ns

abbrev pub first : List ℕ → ℕ
first [] = 0
first (n ∷ ns) = n

module _ (w : WrapMemory) where
  open w use {State, read, write}

  -- From the pointer at `c` on.
  abbrev pub Chain : State → ℕ → List ℕ → Type 0
  Chain s c [] = read c 8 s ≡ 0
  Chain s c (n ∷ ns) = (read c 8 s ≡ n) × (n ≢ 0) × Chain s (n + 8) ns

  -- The value of a key, or -1.
  abbrev pub look : State → ℕ → List ℕ → ℕ
  look s key [] = missing
  look s key (n ∷ ns) = if key_of w n s == key then value_of w n s else look s key ns

  -- The nodes before the first one with the key, and those from it on.
  abbrev pub ahead : State → ℕ → List ℕ → List ℕ
  ahead s key [] = []
  ahead s key (n ∷ ns) = if key_of w n s == key then [] else n ∷ ahead s key ns

  abbrev pub from : State → ℕ → List ℕ → List ℕ
  from s key [] = []
  from s key (n ∷ ns) = if key_of w n s == key then n ∷ ns else from s key ns

  pub get_loop-look :
      (fuel key c : ℕ) (ns : List ℕ) (s : State)
      → Chain s c ns
      → length ns < fuel
      → get_loop w fuel key (read c 8 s) s ≡ ok (look s key ns)
  unfolding get_loop
  get_loop-look zero key c ns s chain enough = absurd (omega arith)
  get_loop-look (suc fuel) key c [] s chain enough = rw chain refl
  get_loop-look (suc fuel) key c (n ∷ ns) s (here, nz, rest) enough =
      elim (Bool-cases (key_of w n s == key)) [
        | inl e ↦ rw here (rw (ne→==_false n 0 nz, e) refl)
        | inr e ↦
            rw here
              (rw (ne→==_false n 0 nz, e) (get_loop-look fuel key (n + 8) ns s rest (omega arith)))
      ]

  pub find_lem :
      (fuel key prev c : ℕ) (ns : List ℕ) (s : State)
      → Chain s c ns
      → length ns < fuel
      → find w fuel key prev (read c 8 s) s
        ≡ ok (last_or prev (ahead s key ns), first (from s key ns))
  unfolding find
  find_lem zero key prev c ns s chain enough = absurd (omega arith)
  find_lem (suc fuel) key prev c [] s chain enough = rw chain refl
  find_lem (suc fuel) key prev c (n ∷ ns) s (here, nz, rest) enough =
      elim (Bool-cases (key_of w n s == key)) [
        | inl e ↦ rw here (rw (ne→==_false n 0 nz, e) refl)
        | inr e ↦
            rw here
              (rw (ne→==_false n 0 nz, e) (find_lem fuel key n (n + 8) ns s rest (omega arith)))
      ]

  pub ahead-from : (s : State) (key : ℕ) (ns : List ℕ) → ns ≡ ahead s key ns ++ from s key ns
  ahead-from s key [] = refl
  ahead-from s key (n ∷ ns) = elim (Bool-cases (key_of w n s == key)) [
    | inl e ↦ rw e refl
    | inr e ↦ rw e (ap (λ (l : List ℕ). n ∷ l) (ahead-from s key ns))
  ]

  -- No node has the key.
  abbrev pub Lacks : State → ℕ → List ℕ → Type 0
  Lacks s key ns = All (λ n. key_of w n s ≢ key) ns

  -- The key is in no node, or in one with none before it that has it.
  pub find_cases :
      (s : State) (key : ℕ) (ns : List ℕ)
      → ((ahead s key ns ≡ ns) × (from s key ns ≡ []) × Lacks s key ns)
        ⊎ ((n : ℕ) × (ys : List ℕ) × (from s key ns ≡ n ∷ ys)
            × (ns ≡ ahead s key ns ++ n ∷ ys)
            × Lacks s key (ahead s key ns)
            × (key_of w n s ≡ key))
  find_cases s key [] = inl (refl, refl, tt)
  find_cases s key (n ∷ ns) = elim (Bool-cases (key_of w n s == key)) [
    | inl e ↦ inr (n, ns, rw e refl, rw e refl, rw e tt, ==→eq (key_of w n s) key e)
    | inr e ↦
        let ne : key_of w n s ≢ key = λ z. ground (arith, z, e) in
        elim (find_cases s key ns) [
          | inl (all, none', lacks) ↦
              inl (rw e (ap (λ (l : List ℕ). n ∷ l) all), rw e none', (ne, lacks))
          | inr (m, ys, at, split, lacks, there) ↦
              inr (m, ys, rw e at, rw e (ap (λ (l : List ℕ). n ∷ l) split), rw e (ne, lacks), there)
        ]
  ]

  -- The same keys and values.
  abbrev pub Same : State → State → List ℕ → Type 0
  Same s s' ns = All (λ n. (key_of w n s' ≡ key_of w n s) × (value_of w n s' ≡ value_of w n s)) ns

  pub look-Same : (s s' : State) (k : ℕ) (ns : List ℕ) → Same s s' ns → look s' k ns ≡ look s k ns
  look-Same s s' k [] same = refl
  look-Same s s' k (n ∷ ns) ((key, value), same) = rw (key, value, look-Same s s' k ns same)

  pub look-Lacks : (s : State) (k : ℕ) (ns : List ℕ) → Lacks s k ns → look s k ns ≡ missing
  look-Lacks s k [] lacks = refl
  look-Lacks s k (n ∷ ns) (ne, lacks) =
      rw (ne→==_false (key_of w n s) k ne) (look-Lacks s k ns lacks)

  module _ (s s' : State) (key v k : ℕ) where
    -- A value is set.
    pub look-set :
        (xs : List ℕ) (n : ℕ) (ys : List ℕ)
        → Lacks s key xs
        → key_of w n s ≡ key
        → Same s s' xs
        → Same s s' ys
        → key_of w n s' ≡ key
        → value_of w n s' ≡ v
        → look s' k (xs ++ n ∷ ys) ≡ (if key == k then v else look s k (xs ++ n ∷ ys))
    look-set [] n ys lacks was same same' now value =
        rw (now, was, value, look-Same s s' k ys same') (ground arith)
    look-set (x ∷ xs) n ys (ne, lacks) was ((sk, sv), same) same' now value =
        let ih = look-set xs n ys lacks was same same' now value in
        rw (sk, sv, ih) (ground (arith, ne))

    -- A node is added.
    pub look-new :
        (xs : List ℕ) (n : ℕ)
        → Lacks s key xs
        → Same s s' xs
        → key_of w n s' ≡ key
        → value_of w n s' ≡ v
        → look s' k (xs ++ n ∷ []) ≡ (if key == k then v else look s k xs)
    look-new [] n lacks same now value = rw (now, value) refl
    look-new (x ∷ xs) n (ne, lacks) ((sk, sv), same) now value =
        let ih = look-new xs n lacks same now value in rw (sk, sv, ih) (ground (arith, ne))

    -- A node is taken out.
    pub look-cut :
        (xs : List ℕ) (n : ℕ) (ys : List ℕ)
        → Lacks s key xs
        → key_of w n s ≡ key
        → Lacks s key ys
        → Same s s' xs
        → Same s s' ys
        → look s' k (xs ++ ys) ≡ (if key == k then missing else look s k (xs ++ n ∷ ys))
    look-cut [] n ys lacks was lacks' same same' = elim (Bool-cases (key == k)) [
      | inl e ↦
          let e' : key ≡ k = ==→eq key k e in
          rw e (look-Same s s' k ys same' ∙ look-Lacks s k ys (rw e' at lacks'))
      | inr e ↦ rw (e, was, e) (look-Same s s' k ys same')
    ]
    look-cut (x ∷ xs) n ys (ne, lacks) was lacks' ((sk, sv), same) same' =
        let ih = look-cut xs n ys lacks was lacks' same same' in
        rw (sk, sv, ih) (ground (arith, ne))
