-- ===== src/Lfht/Scan.antt =====
-- Probing as a function of the keys alone, shared by the lookups and the store.
use native.Mathlib.Decide.{dec_le}
use native.Mathlib.Nat.{add-mul-mod_self_left, mod-add-mod, mod-lt, mod-eq_of_lt}
use softwrap.Prelude.{
  ℕ, zero, suc, ◌+◌, ◌-◌, ◌*◌, ◌%◌, ◌<◌, ◌≡◌, ◌≢◌, refl, sym, ap, ◌∙◌, ◌==◌, if◌then◌else◌, arith,
}

-- How a probe ends: at the key, at a free entry, or not within the fuel.
pub data Found : Type 0 where
  hit : ℕ → Found
  free : ℕ → Found
  full : Found

-- Entry `i` of `n`, then the next one round the table.
unfoldable pub scan : ℕ → (ℕ → ℕ) → ℕ → ℕ → ℕ → Found
scan zero ks n key i = full
scan (suc fuel) ks n key i =
    let rest = scan fuel ks n key ((i + 1) % n) in
    if ks i == key then hit i else if ks i == 0 then free i else rest

-- The keys after `key` has been stored at entry `j`.
abbrev pub with_key : (ℕ → ℕ) → ℕ → ℕ → ℕ → ℕ
with_key ks j key i = if i == j then key else ks i

module _ (n : ℕ) where
  -- More fuel changes no outcome.
  pub scan_more :
      (fuel : ℕ) (ks : ℕ → ℕ) (key i : ℕ)
      → scan fuel ks n key i ≢ full
      → scan (suc fuel) ks n key i ≡ scan fuel ks n key i
  unfolding scan
  scan_more zero ks key i h = absurd (h refl)
  scan_more (suc fuel) ks key i h = ground (arith, scan_more fuel ks key ((i + 1) % n))

  -- A hit holds the key, a free entry holds none.
  pub scan_sound :
      (fuel : ℕ) (ks : ℕ → ℕ) (key i j : ℕ)
      → (scan fuel ks n key i ≡ hit j → ks j ≡ key) × (scan fuel ks n key i ≡ free j → ks j ≡ 0)
  unfolding scan
  scan_sound zero ks key i j = (λ e. cc e, λ e. cc e)
  scan_sound (suc fuel) ks key i j =
      let ih = scan_sound fuel ks key ((i + 1) % n) j in
      (λ e. ground (arith, ih.0, ap ks), λ e. ground (arith, ih.1, ap ks))

  -- The entry that a probe ends at lies in the table.
  pub scan-lt :
      (fuel : ℕ) (ks : ℕ → ℕ) (key i j : ℕ)
      → i < n
      → (scan fuel ks n key i ≡ hit j → j < n) × (scan fuel ks n key i ≡ free j → j < n)
  unfolding scan
  scan-lt zero ks key i j h = (λ e. cc e, λ e. cc e)
  scan-lt (suc fuel) ks key i j h =
      let ih = scan-lt fuel ks key ((i + 1) % n) j (mod-lt (i + 1) (omega arith)) in
      (λ e. ground (arith, ih.0), λ e. ground (arith, ih.1))

  -- Stored at the free entry where its probe ended, a key is found there.
  pub scan-with_key_self :
      (fuel : ℕ) (ks : ℕ → ℕ) (key i j : ℕ)
      → key ≢ 0
      → scan fuel ks n key i ≡ free j
      → scan fuel (with_key ks j key) n key i ≡ hit j
  unfolding scan
  scan-with_key_self zero ks key i j nz e = cc e
  scan-with_key_self (suc fuel) ks key i j nz e =
      let ih = scan-with_key_self fuel ks key ((i + 1) % n) j nz in
      ground (arith, ih, scan_sound fuel ks key ((i + 1) % n) j)

  -- A store at a free entry does not touch the probe of a key that is found.
  pub scan-with_key_hit :
      (fuel : ℕ) (ks : ℕ → ℕ) (key q i j at : ℕ)
      → ks j ≡ 0
      → q ≢ 0
      → scan fuel ks n q i ≡ hit at
      → scan fuel (with_key ks j key) n q i ≡ hit at
  unfolding scan
  scan-with_key_hit zero ks key q i j at zero' nz e = cc e
  scan-with_key_hit (suc fuel) ks key q i j at zero' nz e =
      let ih = scan-with_key_hit fuel ks key q ((i + 1) % n) j at zero' nz in
      ground (arith, ih, ap ks)

  -- A probe that does not end has seen no free entry at any distance within its fuel.
  pub scan_full :
      (fuel : ℕ) (ks : ℕ → ℕ) (key i p : ℕ)
      → i < n
      → scan fuel ks n key i ≡ full
      → p < fuel
      → (ks ((i + p) % n) ≢ 0) × (ks ((i + p) % n) ≢ key)
  unfolding scan
  scan_full zero ks key i p h e lt = absurd (omega arith)
  scan_full (suc fuel) ks key i zero h e lt =
      let here : (i + 0) % n ≡ i = (let z : i + 0 ≡ i = omega arith in rw z (mod-eq_of_lt h)) in
      rw here (ground arith)
  scan_full (suc fuel) ks key i (suc p) h e lt =
      let next : (i + suc p) % n ≡ ((i + 1) % n + p) % n =
        (let s : i + suc p ≡ i + 1 + p = omega arith in rw s (sym (mod-add-mod (i + 1) n p))) in
      let rest : scan fuel ks n key ((i + 1) % n) ≡ full = ground arith in
      rw next
        (scan_full fuel ks key ((i + 1) % n) p (mod-lt (i + 1) (omega arith)) rest (omega arith))

  -- With a free entry anywhere, a probe of as many rounds as there are entries ends.
  pub scan_ends : (ks : ℕ → ℕ) (key i z : ℕ) → i < n → z < n → ks z ≡ 0 → scan n ks n key i ≢ full
  scan_ends ks key i z hi hz free' e = elim (dec_le i z) [
    | yes le ↦
        let there : (i + (z - i)) % n ≡ z =
          (let s : i + (z - i) ≡ z = omega arith in rw s (mod-eq_of_lt hz)) in
        (scan_full n ks key i (z - i) hi e (omega arith)).0 (rw there free')
    | no gt ↦
        let there : (i + (z + n - i)) % n ≡ z =
          (let s : i + (z + n - i) ≡ z + n * 1 = omega arith in
            rw s (add-mul-mod_self_left z n 1 ∙ mod-eq_of_lt hz)) in
        (scan_full n ks key i (z + n - i) hi e (omega arith)).0 (rw there free')
  ]
