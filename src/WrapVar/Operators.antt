-- ===== src/WrapVar/Operators.antt =====
-- Expressions on variables that do not overlap, and the same on a function of their numbers.
use softwrap.Prelude.{
  ℕ, ◌+◌, ◌%◌, ◌^◌, ◌<◌, ◌≡◌, ◌≢◌, ◌⊎◌, inl, inr, refl, sym, ◌∙◌, arith, List, [], ◌∷◌, ◌==◌, ==→eq,
  if◌then◌else◌, Bool-cases, Run, ok, ◌>>=◌, Returns,
}
use native.Mathlib.Nat.{mod-mod}
use softwrap.WrapImpl.{WrapMemory}
use softwrap.WrapImpl.Places.{Away}
use softwrap.WrapVar.{
  plus, minus, set, get, copy_var, add_assign, add_assign_var, sub_assign_var, pre_increment,
  post_increment, pre_decrement, post_decrement,
}

-- An operator on the variable with the first number; a second number is that of another variable.
pub data VarOp : Type 0 where
  assign : ℕ → ℕ → VarOp
  copy : ℕ → ℕ → VarOp
  add : ℕ → ℕ → VarOp
  add_var : ℕ → ℕ → VarOp
  sub_var : ℕ → ℕ → VarOp
  increment : ℕ → VarOp
  increment_after : ℕ → VarOp
  decrement : ℕ → VarOp
  decrement_after : ℕ → VarOp

abbrev pub with_value : (ℕ → ℕ) → ℕ → ℕ → ℕ → ℕ
with_value env i v j = if j == i then v else env j

-- The value of the expression, and the values of the variables behind it.
abbrev pub spec_op : ℕ → VarOp → (ℕ → ℕ) → ℕ × (ℕ → ℕ)
spec_op size (assign i v) env = (v % 256 ^ size, with_value env i (v % 256 ^ size))
spec_op size (copy i j) env = (env j % 256 ^ size, with_value env i (env j % 256 ^ size))
spec_op size (add i v) env = (plus size (env i) v, with_value env i (plus size (env i) v))
spec_op size (add_var i j) env =
    (plus size (env i) (env j), with_value env i (plus size (env i) (env j)))
spec_op size (sub_var i j) env =
    (minus size (env i) (env j), with_value env i (minus size (env i) (env j)))
spec_op size (increment i) env = (plus size (env i) 1, with_value env i (plus size (env i) 1))
spec_op size (increment_after i) env = (env i, with_value env i (plus size (env i) 1))
spec_op size (decrement i) env = (minus size (env i) 1, with_value env i (minus size (env i) 1))
spec_op size (decrement_after i) env = (env i, with_value env i (minus size (env i) 1))

-- The values of the expressions in their order, and of the variables behind them.
abbrev pub spec_all : ℕ → List VarOp → (ℕ → ℕ) → List ℕ × (ℕ → ℕ)
spec_all size [] env = ([], env)
spec_all size (op ∷ ops) env =
    let (v, env') = spec_op size op env in
    let (vs, env'') = spec_all size ops env' in (v ∷ vs, env'')

module _ (w : WrapMemory) (size : ℕ) (vars : ℕ → ℕ) where
  open w use {State, read, write, read_self, read_apart}

  -- The value of an operator that returns the variable is that of the variable.
  abbrev pub valued : ℕ → Run State → Run (ℕ × State)
  valued i r = r >>= λ (s' : State). get w size (vars i) s' >>= λ (v : ℕ). ok (v, s')

  unfoldable pub run_op : VarOp → State → Run (ℕ × State)
  run_op (assign i v) s = valued i (set w size (vars i) v s)
  run_op (copy i j) s = valued i (copy_var w size (vars i) (vars j) s)
  run_op (add i v) s = valued i (add_assign w size (vars i) v s)
  run_op (add_var i j) s = valued i (add_assign_var w size (vars i) (vars j) s)
  run_op (sub_var i j) s = valued i (sub_assign_var w size (vars i) (vars j) s)
  run_op (increment i) s = valued i (pre_increment w size (vars i) s)
  run_op (increment_after i) s = post_increment w size (vars i) s
  run_op (decrement i) s = valued i (pre_decrement w size (vars i) s)
  run_op (decrement_after i) s = post_decrement w size (vars i) s

  unfoldable pub run_all : List VarOp → State → Run (List ℕ × State)
  run_all [] s = ok ([], s)
  run_all (op ∷ ops) s = run_op op s >>= λ (p : ℕ × State).
      run_all ops p.1 >>= λ (q : List ℕ × State). ok (p.0 ∷ q.0, q.1)

  -- The variables have the values.
  abbrev pub Stands : (ℕ → ℕ) → State → Type 0
  Stands env s = (i : ℕ) → read (vars i) size s ≡ env i

  module _ (word : (size ≡ 4) ⊎ (size ≡ 8))
      (apart : (i j : ℕ) → i ≢ j → Away (vars i) size (vars j) size) where
    get_lem : (i : ℕ) (s : State) → get w size (vars i) s ≡ ok (read (vars i) size s)
    unfolding get
    get_lem i s = elim word [ inl e ↦ rw e refl | inr e ↦ rw e refl ]

    set_lem :
        (i v : ℕ) (s : State)
        → set w size (vars i) v s ≡ ok (write (vars i) size (v % 256 ^ size) s)
    unfolding set
    set_lem i v s = elim word [ inl e ↦ rw e refl | inr e ↦ rw e refl ]

    Stands-write :
        (env : ℕ → ℕ) (i v : ℕ) (s : State)
        → Stands env s
        → v < 256 ^ size
        → Stands (with_value env i v) (write (vars i) size v s)
    Stands-write env i v s stands small j = elim (Bool-cases (j == i)) [
      | inl e ↦ rw (e, ==→eq j i e) (read_self (vars i) size v s small)
      | inr e ↦
          let ne : j ≢ i = λ z. ground (arith, z, e) in
          rw e (read_apart (vars j) size (vars i) size v s (apart j i ne) ∙ stands j)
    ]

    small : (v : ℕ) → v % 256 ^ size < 256 ^ size
    small v = elim word [ inl e ↦ rw e (omega arith) | inr e ↦ rw e (omega arith) ]

    -- A set, and the value of the variable behind it.
    store_lem :
        (env : ℕ → ℕ) (i u v : ℕ) (s : State)
        → Stands env s
        → u % 256 ^ size ≡ v
        → Returns
            (valued i (set w size (vars i) u s))
            λ p. (p.0 ≡ v) × Stands (with_value env i v) p.1
    store_lem env i u v s stands e =
        let lt : v < 256 ^ size = rw (sym e) (small u) in
        let s' = write (vars i) size v s in
        (
          (v, s'),
          rw
              (
                set_lem i u s,
                get_lem i (write (vars i) size (u % 256 ^ size) s),
                e,
                read_self (vars i) size v s lt,
              )
              refl,
          (refl, Stands-write env i v s stands lt),
        )

    -- The value that the variable had.
    after_lem :
        (env : ℕ → ℕ) (i u : ℕ) (s : State)
        → Stands env s
        → u % 256 ^ size ≡ u
        → Returns
            (set w size (vars i) u s >>= λ (s' : State). ok (env i, s'))
            λ (p : ℕ × State). (p.0 ≡ env i) × Stands (with_value env i u) p.1
    after_lem env i u s stands e = (
      (env i, write (vars i) size u s),
      rw (set_lem i u s, e) refl,
      (refl, Stands-write env i u s stands (rw (sym e) (small u))),
    )

    run_op_lem :
        (op : VarOp) (env : ℕ → ℕ) (s : State)
        → Stands env s
        → Returns
            (run_op op s)
            λ p. (p.0 ≡ (spec_op size op env).0) × Stands (spec_op size op env).1 p.1
    unfolding run_op copy_var add_assign add_assign_var sub_assign_var pre_increment post_increment
        pre_decrement post_decrement
    run_op_lem (assign i v) env s stands = store_lem env i v (v % 256 ^ size) s stands refl
    run_op_lem (copy i j) env s stands =
        rw (get_lem j s, stands j) (store_lem env i (env j) (env j % 256 ^ size) s stands refl)
    run_op_lem (add i v) env s stands =
        rw (get_lem i s, stands i)
          (store_lem env i (plus size (env i) v) _ s stands (mod-mod (env i + v) (256 ^ size)))
    run_op_lem (add_var i j) env s stands =
        rw (get_lem i s, get_lem j s, stands i, stands j)
          (store_lem env i (plus size (env i) (env j)) _ s stands
            (mod-mod (env i + env j) (256 ^ size)))
    run_op_lem (sub_var i j) env s stands =
        rw (get_lem i s, get_lem j s, stands i, stands j)
          (store_lem env i (minus size (env i) (env j)) _ s stands (mod-mod _ (256 ^ size)))
    run_op_lem (increment i) env s stands =
        rw (get_lem i s, stands i)
          (store_lem env i (plus size (env i) 1) _ s stands (mod-mod (env i + 1) (256 ^ size)))
    run_op_lem (increment_after i) env s stands =
        rw (get_lem i s, stands i)
          (after_lem env i (plus size (env i) 1) s stands (mod-mod (env i + 1) (256 ^ size)))
    run_op_lem (decrement i) env s stands =
        rw (get_lem i s, stands i)
          (store_lem env i (minus size (env i) 1) _ s stands (mod-mod _ (256 ^ size)))
    run_op_lem (decrement_after i) env s stands =
        rw (get_lem i s, stands i)
          (after_lem env i (minus size (env i) 1) s stands (mod-mod _ (256 ^ size)))

    -- Any expressions on variables of four or eight bytes that do not overlap end normally; their
    -- values and those that the variables have then are those of the same expressions on numbers
    -- modulo 2^32 or 2^64.
    pub run_all-spec_all :
        (ops : List VarOp) (env : ℕ → ℕ) (s : State)
        → Stands env s
        → Returns (run_all ops s) λ (p : List ℕ × State).
          (p.0 ≡ (spec_all size ops env).0) × Stands (spec_all size ops env).1 p.1
    unfolding run_all
    run_all-spec_all [] env s stands = (([], s), refl, (refl, stands))
    run_all-spec_all (op ∷ ops) env s stands =
        let (p, run, (value, there)) = run_op_lem op env s stands in
        let (q, runs, (values, end)) = run_all-spec_all ops (spec_op size op env).1 p.1 there in
        ((p.0 ∷ q.0, q.1), rw (run, runs) refl, (rw (value, values) refl, end))
