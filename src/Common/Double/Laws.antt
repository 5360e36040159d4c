-- ===== src/Common/Double/Laws.antt =====
-- The double that is found is near to the quotient, and the fuel is enough for it.
use native.Mathlib.Nat.{mul_assoc, mod-lt, div-add-mod, mul-le-mul_left, mul-le-mul}
use code_push.Common.{
  ℕ, zero, suc, ◌+◌, ◌*◌, ◌/◌, ◌%◌, ◌<◌, ◌≤◌, ◌≡◌, refl, ap, sym, ◌∙◌, ltb, leb, eqb, inl, inr,
  Bool-cases, ◌⊎◌, arith,
}
use code_push.Common.Double.{round_even, raise, lower, nearest}

-- a and b differ by b / 2 ^ 53 at most.
abbrev pub Near : ℕ → ℕ → Type 0
Near a b =
    (9007199254740992 * a ≤ 9007199254740993 * b) × (9007199254740991 * b ≤ 9007199254740992 * a)

-- A number that is odd or even, as an equation for each case.
parity : (k : ℕ) → (k % 2 ≡ 0) ⊎ (k % 2 ≡ 1)
parity k = elim (Bool-cases (eqb (k % 2) 0)) [
  | inl even ↦ inl (ground arith)
  | inr odd ↦ inr (ground arith)
]

round_even-cases :
    (p q : ℕ)
    → 1 ≤ q
    → ((round_even p q ≡ p / q) × (2 * (p % q) ≤ q))
      ⊎ ((round_even p q ≡ p / q + 1) × (q ≤ 2 * (p % q)))
unfolding round_even
round_even-cases p q h = elim (Bool-cases (ltb (2 * (p % q)) q)) [
  | inl low ↦ inl (rw low refl, ground arith)
  | inr not_low ↦ elim (Bool-cases (ltb q (2 * (p % q)))) [
    | inl high ↦ inr (rw (not_low, high) refl, ground arith)
    | inr tie ↦ elim (parity (p / q)) [
      | inl even ↦ inl (rw (not_low, tie, even) (omega arith), ground arith)
      | inr odd ↦ inr (rw (not_low, tie, odd) refl, ground arith)
    ]
  ]
]

round_even-bounds :
    (p q : ℕ)
    → 1 ≤ q
    → (2 * (q * round_even p q) ≤ 2 * p + q) × (2 * p ≤ 2 * (q * round_even p q) + q)
round_even-bounds p q h =
    let small = mod-lt p h in
    let whole = div-add-mod p q in
    elim (round_even-cases p q h) [
      | inl (below, r) ↦ rw below (omega arith, omega arith)
      | inr (above, r) ↦ rw above (omega arith, omega arith)
    ]

round_even-Near : (p q : ℕ) → 1 ≤ q → 4503599627370496 * q ≤ p → Near (q * round_even p q) p
round_even-Near p q h k = let (a, b) = round_even-bounds p q h in (omega arith, omega arith)

abbrev power : ℕ → ℕ
power zero = 1
power (suc n) = 2 * power n

lt-power : (n : ℕ) → n < power n
lt-power zero = omega arith
lt-power (suc n) = omega (arith, lt-power n)

Near-scale : (d a b : ℕ) → Near a b → Near (d * a) (b * d)
Near-scale d a b (low, high) =
    let l = mul-le-mul_left d low in let h = mul-le-mul_left d high in (ground arith, ground arith)

raise-Near :
    (fuel p q d : ℕ)
    → 1 ≤ q
    → 4503599627370496 * q ≤ p * power fuel
    → let r = raise fuel p q d in Near (d * (q * r.numerator)) (p * r.denominator)
unfolding raise
raise-Near zero p q d h k =
    Near-scale d (q * round_even p q) p (round_even-Near p q h (omega arith))
raise-Near (suc fuel) p q d h k = elim (Bool-cases (ltb p (4503599627370496 * q))) [
  | inl small ↦
      let (low, high) = raise-Near fuel (2 * p) q (2 * d) h (ground arith) in
      rw small (ground arith, ground arith)
  | inr big ↦ rw big (Near-scale d (q * round_even p q) p (round_even-Near p q h (ground arith)))
]

lower-Near :
    (fuel p q d : ℕ)
    → 1 ≤ q
    → 4503599627370496 * q ≤ p
    → let r = lower fuel p q d in Near (q * r.numerator) (p * d * r.denominator)
unfolding lower
lower-Near zero p q d h k =
    let (low, high) = Near-scale d (q * round_even p q) p (round_even-Near p q h k) in
    (ground arith, ground arith)
lower-Near (suc fuel) p q d h k = elim (Bool-cases (leb (9007199254740992 * q) p)) [
  | inl big ↦
      let (low, high) = lower-Near fuel p (2 * q) (2 * d) (omega arith) (ground arith) in
      rw big (ground arith, ground arith)
  | inr small ↦
      let (low, high) = Near-scale d (q * round_even p q) p (round_even-Near p q h k) in
      rw small (ground arith, ground arith)
]

add_suc_left : (m n : ℕ) → suc m + n ≡ suc (m + n)
add_suc_left m n = omega arith

power-add : (m n : ℕ) → power (m + n) ≡ power m * power n
power-add zero n = grind arith
power-add (suc m) n =
    ap power (add_suc_left m n)
    ∙ ap (λ k. 2 * k) (power-add m n)
    ∙ sym (mul_assoc 2 (power m) (power n))

enough : (p q : ℕ) → 1 ≤ p → 4503599627370496 * q ≤ p * power (52 + q)
enough p q h = rw (power-add 52 q) (ground (arith, lt-power q, mul-le-mul h (lt-power q)))

-- The double that is found for p / q differs from it by no more than its part 2 ^ -53.
pub nearest-Near :
    (p q : ℕ) → 1 ≤ q → let r = nearest p q in Near (q * r.numerator) (p * r.denominator)
unfolding nearest
nearest-Near p q h = elim (Bool-cases (eqb p 0)) [
  | inl none_left ↦ rw none_left (ground arith, ground arith)
  | inr some_left ↦ elim (Bool-cases (leb (9007199254740992 * q) p)) [
    | inl great ↦
        let (low, high) = lower-Near p p q 1 h (ground arith) in
        rw (some_left, great) (ground arith, ground arith)
    | inr small ↦
        let (low, high) = raise-Near (52 + q) p q 1 h (enough p q (ground arith)) in
        rw (some_left, small) (ground arith, ground arith)
  ]
]

raise-positive : (fuel p q d : ℕ) → 1 ≤ d → 1 ≤ (raise fuel p q d).denominator
unfolding raise
raise-positive zero p q d h = h
raise-positive (suc fuel) p q d h =
    ground (arith, raise-positive fuel (2 * p) q (2 * d) (omega arith))

lower-positive : (fuel p q d : ℕ) → 1 ≤ (lower fuel p q d).denominator
unfolding lower
lower-positive zero p q d = omega arith
lower-positive (suc fuel) p q d = ground (arith, lower-positive fuel p (2 * q) (2 * d))

pub nearest-positive : (p q : ℕ) → 1 ≤ (nearest p q).denominator
unfolding nearest
nearest-positive p q = elim (Bool-cases (eqb p 0)) [
  | inl none_left ↦ rw none_left (omega arith)
  | inr some_left ↦ elim (Bool-cases (leb (9007199254740992 * q) p)) [
    | inl great ↦ rw (some_left, great) (lower-positive p p q 1)
    | inr small ↦ rw (some_left, small) (raise-positive (52 + q) p q 1 (omega arith))
  ]
]
