-- ===== src/WrapMap/Frames.antt =====
-- What writes leave of the chains, and how the end or the middle of a chain is linked anew.
use softwrap.Prelude.{ℕ, ◌+◌, ◌≡◌, ◌≢◌, sym, ◌∙◌, arith, List, [], ◌∷◌, ◌++◌}
use softwrap.WrapImpl.{WrapMemory}
use softwrap.WrapLogger.Entries.{All}
use softwrap.WrapMap.{key_of}
use softwrap.WrapMap.Chains.{Chain, Same, Lacks}
use softwrap.WrapImpl.Places.{
  Away, Pairwise, All_map, All-append, All_split, Away-sym, All_zip, Across, Keeps,
}

-- The last pointer of a path from the pointer at `c`.
abbrev pub end_cell : ℕ → List ℕ → ℕ
end_cell c [] = c
end_cell c (n ∷ ns) = end_cell (n + 8) ns

-- A place that is away from all nodes is away from the end.
pub end_cell-Away :
    (b m c : ℕ) (ns : List ℕ)
    → Away b m c 8
    → All (λ n. Away b m n 16) ns
    → Away b m (end_cell c ns) 8
end_cell-Away b m c [] here away = here
end_cell-Away b m c (n ∷ ns) here (one, rest) =
    end_cell-Away b m (n + 8) ns (omega (arith, one)) rest

module _ (w : WrapMemory) where
  open w use {State, read, write, read_self, read_apart}

  pub Chain-Keeps :
      (s s' : State) (b m c : ℕ) (ns : List ℕ)
      → Keeps w s s' b m
      → Away b m c 8
      → All (λ n. Away b m (n + 8) 8) ns
      → Chain w s c ns
      → Chain w s' c ns
  Chain-Keeps s s' b m c [] keeps here away chain = keeps c 8 here ∙ chain
  Chain-Keeps s s' b m c (n ∷ ns) keeps here (one, rest) (at, nz, chain) =
      (keeps c 8 here ∙ at, nz, Chain-Keeps s s' b m (n + 8) ns keeps one rest chain)

  pub Same-Keeps :
      (s s' : State) (b m : ℕ) (ns : List ℕ)
      → Keeps w s s' b m
      → All (λ n. Away b m n 16) ns
      → Same w s s' ns
  Same-Keeps s s' b m [] keeps away = tt
  Same-Keeps s s' b m (n ∷ ns) keeps (one, rest) = (
    (keeps n 4 (omega (arith, one)), keeps (n + 4) 4 (omega (arith, one))),
    Same-Keeps s s' b m ns keeps rest,
  )

  -- From the pointer at `c` through the nodes.
  abbrev pub Trail : State → ℕ → List ℕ → Type 0
  Trail s c [] = Unit
  Trail s c (n ∷ ns) = (read c 8 s ≡ n) × (n ≢ 0) × Trail s (n + 8) ns

  pub Chain-split :
      (s : State) (c : ℕ) (xs ys : List ℕ)
      → Chain w s c (xs ++ ys)
      → Trail s c xs × Chain w s (end_cell c xs) ys
  Chain-split s c [] ys chain = (tt, chain)
  Chain-split s c (x ∷ xs) ys (at, nz, chain) =
      let (path, rest) = Chain-split s (x + 8) xs ys chain in ((at, nz, path), rest)

  pub Chain-join :
      (s : State) (c : ℕ) (xs ys : List ℕ)
      → Trail s c xs
      → Chain w s (end_cell c xs) ys
      → Chain w s c (xs ++ ys)
  Chain-join s c [] ys path chain = chain
  Chain-join s c (x ∷ xs) ys (at, nz, path) chain = (at, nz, Chain-join s (x + 8) xs ys path chain)

  -- The path to a pointer stays where only that pointer is written.
  pub Trail-write :
      (s : State) (p c : ℕ) (xs : List ℕ)
      → All (λ n. Away c 8 n 16) xs
      → Pairwise xs
      → Trail s c xs
      → Trail (write (end_cell c xs) 8 p s) c xs
  Trail-write s p c [] away apart path = tt
  Trail-write s p c (x ∷ xs) (one, rest) (first, apart) (at, nz, path) = (
    read_apart c 8 (end_cell (x + 8) xs) 8 p s
          (end_cell-Away c 8 (x + 8) xs (omega (arith, one)) rest)
        ∙ at,
    nz,
    Trail-write s p (x + 8) xs (All_map xs (λ n away. omega (arith, away)) first) apart path,
  )

  -- The same keys.
  abbrev pub SameKeys : State → State → List ℕ → Type 0
  SameKeys s s' ns = All (λ n. key_of w n s' ≡ key_of w n s) ns

  pub SameKeys-Keeps :
      (s s' : State) (b m : ℕ) (ns : List ℕ)
      → Keeps w s s' b m
      → All (λ n. Away b m n 4) ns
      → SameKeys s s' ns
  SameKeys-Keeps s s' b m ns keeps away = All_map ns (λ n one. keeps n 4 one) away

  -- No key is in two nodes.
  abbrev pub NoDup : State → List ℕ → Type 0
  NoDup s [] = Unit
  NoDup s (n ∷ ns) = Lacks w s (key_of w n s) ns × NoDup s ns

  pub Lacks-SameKeys :
      (s s' : State) (key : ℕ) (ns : List ℕ)
      → SameKeys s s' ns
      → Lacks w s key ns
      → Lacks w s' key ns
  Lacks-SameKeys s s' key [] same h = tt
  Lacks-SameKeys s s' key (n ∷ ns) (e, same) (ne, h) = (rw e ne, Lacks-SameKeys s s' key ns same h)

  pub NoDup-SameKeys : (s s' : State) (ns : List ℕ) → SameKeys s s' ns → NoDup s ns → NoDup s' ns
  NoDup-SameKeys s s' [] same h = tt
  NoDup-SameKeys s s' (n ∷ ns) (e, same) (lacks, h) =
      (rw e (Lacks-SameKeys s s' (key_of w n s) ns same lacks), NoDup-SameKeys s s' ns same h)

  pub NoDup-new :
      (s s' : State) (n : ℕ) (ns : List ℕ)
      → SameKeys s s' ns
      → Lacks w s (key_of w n s') ns
      → NoDup s ns
      → NoDup s' (ns ++ n ∷ [])
  NoDup-new s s' n [] same h nodup = (tt, tt)
  NoDup-new s s' n (x ∷ ns) (e, same) (ne, h) (lacks, nodup) = (
    All-append (λ y. key_of w y s' ≢ key_of w x s') ns (n ∷ [])
        (rw e (Lacks-SameKeys s s' (key_of w x s) ns same lacks)) ((λ z. ne (sym (z ∙ e))), tt),
    NoDup-new s s' n ns same h nodup,
  )

  pub NoDup-cut :
      (s s' : State) (n : ℕ) (xs ys : List ℕ)
      → SameKeys s s' (xs ++ ys)
      → NoDup s (xs ++ n ∷ ys)
      → NoDup s' (xs ++ ys) × Lacks w s (key_of w n s) ys
  NoDup-cut s s' n [] ys same (lacks, nodup) = (NoDup-SameKeys s s' ys same nodup, lacks)
  NoDup-cut s s' n (x ∷ xs) ys (e, same) (lacks, nodup) =
      let (rest, after) = NoDup-cut s s' n xs ys same nodup in
      let (before, (one, behind)) =
        All_split (λ y. key_of w y s ≢ key_of w x s) xs (n ∷ ys) lacks in
      (
        (
          rw e (
              Lacks-SameKeys s s' (key_of w x s) (xs ++ ys) same
                (All-append (λ y. key_of w y s ≢ key_of w x s) xs ys before behind)),
          rest,
        ),
        after,
      )

-- The keys and values of the nodes before the end are away from it, and so are other nodes.
pub end_cell-first :
    (c : ℕ) (xs : List ℕ)
    → All (λ n. Away c 8 n 16) xs
    → Pairwise xs
    → All (λ n. Away (end_cell c xs) 8 n 8) xs
end_cell-first c [] away apart = tt
end_cell-first c (x ∷ xs) (one, rest) (first, apart) = (
  Away-sym x 8 (end_cell (x + 8) xs) 8
      (end_cell-Away x 8 (x + 8) xs (omega arith) (All_map xs (λ n h. omega (arith, h)) first)),
  end_cell-first (x + 8) xs (All_map xs (λ n h. omega (arith, h)) first) apart,
)

pub end_cell-Across :
    (c : ℕ) (xs ys : List ℕ)
    → All (λ n. Away c 8 n 16) ys
    → Across ys xs
    → All (λ n. Away (end_cell c xs) 8 n 16) ys
end_cell-Across c xs ys away apart =
    All_zip ys
      (λ n a b. Away-sym n 16 (end_cell c xs) 8 (end_cell-Away n 16 c xs (Away-sym c 8 n 16 a) b))
      away apart
