-- ===== src/AliasTable/Emptied.antt =====
-- The restore of all chains.
use native.Mathlib.Decide.{dec_lt}
use native.Mathlib.Nat.{mod-lt}
use softwrap.AliasTable.{
  AliasTable, Node, Value, number, object, Chain, no_node, set_chain, chain_of, find_next,
  find_node, get_hash, load, restore_node, restore_chain, restore_chains, restore_all_elements,
  table_size,
}
use softwrap.Prelude.{
  ℕ, zero, suc, ◌+◌, ◌<◌, ◌≤◌, ◌≡◌, ◌≢◌, ◌⊎◌, inl, inr, refl, sym, ap, ◌∙◌, List, [], ◌∷◌, ◌++◌,
  none, ◌==◌, if◌then◌else◌, ==_refl, ne→==_false, Bool-cases, arith, ok, Returns,
}
use softwrap.Scm.Bytes.{Mem, le, read_bytes}
use softwrap.Scm.NtStore.{mem-ntstore_bytes}
use softwrap.Scm.{Scm, ntstore_bytes, p_msync}
use softwrap.WrapLogger.Entries.{Entry, All, replay}

-- What a node puts home.
abbrev pub homes : Node → List Entry
homes n =
    if n.key == 0
    then []
    else record {
      dest = n.key;
      bytes = elim n.value [ number v ↦ le n.size v | object m ↦ read_bytes n.size 0 m ];
    }
      ∷ []

unfoldable pub chain_homes : List Node → List Entry
chain_homes [] = []
chain_homes (n ∷ ns) = homes n ++ chain_homes ns

unfoldable pub all_homes : ℕ → ℕ → (ℕ → Chain) → List Entry
all_homes zero i chains = []
all_homes (suc n) i chains =
    chain_homes ((chains i).head ∷ (chains i).next) ++ all_homes n (i + 1) chains

-- A free node, an object, or a number of eight or four bytes.
abbrev pub HasWidth : ℕ → Value → Type 0
HasWidth size (number v) = (size ≡ 8) ⊎ (size ≡ 4)
HasWidth size (object m) = Unit

abbrev pub IsRestorable : Node → Type 0
IsRestorable n = (n.key ≡ 0) ⊎ HasWidth n.size n.value

replay-append : (es ds : List Entry) (m : Mem) → replay (es ++ ds) m ≡ replay ds (replay es m)
unfolding replay
replay-append [] ds m = refl
replay-append (e ∷ es) ds m = replay-append es ds _

restore_node_lem :
    (key size : ℕ) (value : Value) (st : Scm)
    → (key ≡ 0) ⊎ HasWidth size value
    → let n : Node = record { key = key; value = value; size = size } in
      (st' : Scm) × (restore_node n st ≡ ok st') × (st'.mem ≡ replay (homes n) st.mem)
unfolding restore_node replay
restore_node_lem key size value st (inl z) = (st, rw z, rw z)
restore_node_lem key size (object m) st (inr h) = elim (Bool-cases (key == 0)) [
  | inl z ↦ (st, rw z, rw z)
  | inr nz ↦ (
    ntstore_bytes key (read_bytes size 0 m) st,
    rw nz,
    rw nz (mem-ntstore_bytes key (read_bytes size 0 m) st),
  )
]
restore_node_lem key size (number v) st (inr h) = elim (Bool-cases (key == 0)) [
  | inl z ↦ (st, rw z, rw z)
  | inr nz ↦ elim h [
    | inl eight ↦ (
      ntstore_bytes key (le 8 v) st,
      rw (nz, eight),
      rw (nz, eight) (mem-ntstore_bytes key (le 8 v) st),
    )
    | inr four ↦ (
      ntstore_bytes key (le 4 v) st,
      rw (nz, four),
      rw (nz, four) (mem-ntstore_bytes key (le 4 v) st),
    )
  ]
]

get_hash-lt : (q : ℕ) → get_hash q < table_size
unfolding get_hash
get_hash-lt q = mod-lt _ (omega arith)

load-empty_chain :
    (q : ℕ) (t : AliasTable)
    → q ≢ 0
    → chain_of t q ≡ record { head = no_node; next = [] }
    → load q t ≡ ok none
unfolding load find_node find_next
load-empty_chain q t nz e = rw (ne→==_false q 0 nz) (rw e (rw (ne→==_false 0 q (λ z. nz (sym z)))))

restore_chain_lem :
    (ns : List Node) (st : Scm)
    → All IsRestorable ns
    → (st' : Scm) × (restore_chain ns st ≡ ok st') × (st'.mem ≡ replay (chain_homes ns) st.mem)
unfolding restore_chain chain_homes replay
restore_chain_lem [] st h = (st, refl, refl)
restore_chain_lem (n ∷ ns) st h =
    let (st1, run1, mem1) = restore_node_lem n.key n.size n.value st h.0 in
    let (st2, run2, mem2) = restore_chain_lem ns st1 h.1 in
    (
      st2,
      rw run1 run2,
      mem2
          ∙ ap (replay (chain_homes ns)) mem1
          ∙ sym (replay-append (homes n) (chain_homes ns) st.mem),
    )

-- The chains that the loop comes to later do not depend on the earlier ones.
all_homes_congr :
    (n i : ℕ) (cs ds : ℕ → Chain)
    → ((j : ℕ) → i ≤ j → cs j ≡ ds j)
    → all_homes n i cs ≡ all_homes n i ds
unfolding all_homes
all_homes_congr zero i cs ds same = refl
all_homes_congr (suc n) i cs ds same =
    let here = same i (omega arith) in
    let rest = all_homes_congr n (i + 1) cs ds (λ j h. same j (omega arith)) in cc (here, rest)

abbrev pub empty_chain : Chain
empty_chain = record { head = no_node; next = [] }

abbrev pub nodes : Chain → List Node
nodes c = c.head ∷ c.next

record Emptied (t : AliasTable) (st : Scm) (from to : ℕ) (all : List Entry) (r : AliasTable × Scm)
    : Type 0 where
  pub gone : (j : ℕ) → from ≤ j → j < to → r.0.chains j ≡ empty_chain
  pub others : (j : ℕ) → j < from → r.0.chains j ≡ t.chains j
  pub home : r.1.mem ≡ replay all st.mem

restore_chains_lem :
    (n i : ℕ) (t : AliasTable) (st : Scm)
    → ((j : ℕ) → i ≤ j → j < i + n → All IsRestorable (nodes (t.chains j)))
    → (r : AliasTable × Scm) × (restore_chains n i t st ≡ ok r)
      × Emptied t st i (i + n) (all_homes n i t.chains) r
unfolding restore_chains all_homes replay
restore_chains_lem zero i t st good = (
  (t, st),
  refl,
  record { gone = λ j p q. absurd (omega arith); others = λ j p. refl; home = refl },
)
restore_chains_lem (suc n) i t st good =
    let (st1, run1, mem1) =
      restore_chain_lem (nodes (t.chains i)) st (good i (omega arith) (omega arith)) in
    let t1 = record t { chains = set_chain t.chains i empty_chain } in
    let same : (j : ℕ) → j ≢ i → t1.chains j ≡ t.chains j = λ j ne. rw (ne→==_false j i ne) in
    let (r, run2, rest) =
      restore_chains_lem n (i + 1) t1 st1
        (λ j p q. rw (same j (λ z. omega (arith, z))) (good j (omega arith) (omega arith))) in
    let later =
      all_homes_congr n (i + 1) t1.chains t.chains (λ j h. same j (λ z. omega (arith, z))) in
    let first = chain_homes (nodes (t.chains i)) in
    (
      r,
      rw run1 run2,
      record {
        gone = λ j p q. elim (dec_lt i j) [
          | yes after ↦ rest.gone j (omega arith) (omega arith)
          | no here ↦ let z : j ≡ i = omega arith in rest.others j (omega arith) ∙ rw (z, ==_refl i)
        ];
        others = λ j p. rest.others j (omega arith) ∙ same j (λ z. omega (arith, z));
        home =
            rest.home
            ∙ ap (λ (es : List Entry). replay es st1.mem) later
            ∙ ap (replay (all_homes n (i + 1) t.chains)) mem1
            ∙ sym (replay-append first (all_homes n (i + 1) t.chains) st.mem);
      },
    )

-- A table whose numbers all have eight or four bytes is restored without a failed assertion. Memory
-- is then what the values of the nodes, written home chain after chain and each chain from its head
-- on, make of it; and a load of any address other than 0 finds nothing.
pub restore_all_elements-replay :
    (t : AliasTable) (st : Scm) (q : ℕ)
    → ((i : ℕ) → i < table_size → All IsRestorable (nodes (t.chains i)))
    → q ≢ 0
    → Returns
        (restore_all_elements t st)
        λ r. (r.1.mem ≡ replay (all_homes table_size 0 t.chains) st.mem) × (load q r.0 ≡ ok none)
unfolding restore_all_elements p_msync
restore_all_elements-replay t st q good nz =
    let (r, run, done) = restore_chains_lem table_size 0 t st (λ j p h. good j (omega arith)) in
    let here = done.gone (get_hash q) (omega arith) (get_hash-lt q) in
    ((r.0, p_msync r.1), rw run, (done.home, load-empty_chain q r.0 nz here))
