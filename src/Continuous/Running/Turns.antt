-- ===== src/Continuous/Running/Turns.antt =====
-- continuous/config.go: NextAccount, the turns that it gives to an account.
use native.Mathlib.Nat as N
use shutter_tests.Prelude.{
  ℕ, zero, suc, ◌+◌, ◌/◌, ◌%◌, ◌<◌, ◌≡◌, ap, ◌∙◌, ◌⊎◌, inl, inr, arith, true, false, ltb, ltb→lt,
  nat_beq, Bool-cases, if◌then◌else◌,
}

-- How many of the first `sent` transactions are the account's with the index i, of n.
abbrev pub turns : ℕ → ℕ → ℕ → ℕ
turns n zero i = 0
turns n (suc sent) i = turns n sent i + (if nat_beq (sent % n) i then 1 else 0)

pub turns_hit :
    (n sent i : ℕ) → nat_beq (sent % n) i ≡ true → turns n (suc sent) i ≡ suc (turns n sent i)
turns_hit n sent i t = rw t omega arith

pub turns_miss :
    (n sent i : ℕ) → nat_beq (sent % n) i ≡ false → turns n sent i ≡ turns n (suc sent) i
turns_miss n sent i t = rw t omega arith

module _ (n q : ℕ) (h : 0 < n) where
  same_quotient : suc q % n ≡ suc (q % n) → suc q / n ≡ q / n
  same_quotient r =
      N.eq_of_mul-eq-mul_left n h (suc q / n) (q / n)
        (omega (arith, r, N.div-add-mod (suc q) n, N.div-add-mod q n))

  next_quotient : suc q % n ≡ 0 → suc (q % n) ≡ n → suc q / n ≡ q / n + 1
  next_quotient r e = N.eq_of_mul-eq-mul_left n h (suc q / n) (q / n + 1) (
      omega (
        arith,
        r,
        e,
        N.div-add-mod (suc q) n,
        N.div-add-mod q n,
        N.mul-add n (q / n) 1,
        N.mul-one n,
      ))

  last_of_round : ltb (suc (q % n)) n ≡ false → suc (q % n) ≡ n
  last_of_round t = ground (arith, N.mod-lt q h)

-- The next number has a remainder one larger, or starts a new round.
next_round :
    (n q : ℕ)
    → 0 < n
    → ((suc q / n ≡ q / n) × (suc q % n ≡ suc (q % n)))
      ⊎ ((suc q / n ≡ q / n + 1) × (suc q % n ≡ 0) × (suc (q % n) ≡ n))
next_round n q h = elim (Bool-cases (ltb (suc (q % n)) n)) [
  | inl t ↦
      let r = N.suc-mod q n ∙ N.mod-eq_of_lt (omega (arith, ltb→lt (suc (q % n)) n t)) in
      inl (same_quotient n q h r, r)
  | inr t ↦
      let e = last_of_round n q h t in
      let r = N.suc-mod q n ∙ ap (λ k. k % n) e ∙ N.mod_self n in
      inr (next_quotient n q h r e, r, e)
]

-- In the first `sent` transactions every account had a turn in each whole round, and in the last one
-- if it came before the next.
turns-rounds :
    (n sent i : ℕ) → i < n → turns n sent i ≡ sent / n + (if ltb i (sent % n) then 1 else 0)
turns-rounds n zero i h = rw (N.zero-div n, N.zero-mod n) ground arith
turns-rounds n (suc sent) i h = elim (next_round n sent (omega arith)) [
  | inl (d, r) ↦ rw (d, r, turns-rounds n sent i h) ground arith
  | inr (d, r, e) ↦ rw (d, r, turns-rounds n sent i h) ground arith
]

-- The p-th transaction finds that its account had a turn in each whole round before.
pub turns-own : (n p : ℕ) → 0 < n → turns n p (p % n) ≡ p / n
turns-own n p h = turns-rounds n p (p % n) (N.mod-lt p h) ∙ ground arith
