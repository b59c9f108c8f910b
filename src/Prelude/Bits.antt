-- ===== src/Prelude/Bits.antt =====
-- One bit of a machine word held as a number: reading it, setting it, and moving it by a shift.
use native.Mathlib.Nat.{pow-suc, div-div-eq-div-mul, mul_comm, mod_def, mul-div-le, mod-lt}
use libclub.Prelude.{
  ℕ, zero, suc, ◌+◌, ◌-◌, ◌*◌, ◌/◌, ◌%◌, ◌^◌, ◌≤◌, ◌<◌, ◌≡◌, sym, ap, ◌∙◌, Bool, true, false, arith,
  ltb, ◌==◌, if◌then◌else◌, ==_iff, Bool-cases, inl, inr,
}

-- `n & (1 << p)`, as a condition.
unfoldable pub bit : ℕ → ℕ → Bool
bit n p = n / 2 ^ p % 2 == 1

-- `n | (1 << p)`: a clear bit is added, a set one stays.
unfoldable pub with_bit : ℕ → ℕ → ℕ
with_bit n p = if bit n p then n else n + 2 ^ p

-- `n << k` in a word of w bits.
unfoldable pub shift_left : ℕ → ℕ → ℕ → ℕ
shift_left w n k = n * 2 ^ k % 2 ^ w

pow-two_suc : (p : ℕ) → 2 ^ suc p ≡ 2 * 2 ^ p
pow-two_suc p = pow-suc 2 p ∙ mul_comm (2 ^ p) 2

pub bit-zero : (n : ℕ) → bit n 0 ≡ (n % 2 == 1)
unfolding bit
bit-zero n = ap (λ k. k % 2 == 1) (omega arith)

pub bit-suc : (n p : ℕ) → bit n (suc p) ≡ bit (n / 2) p
unfolding bit
bit-suc n p =
    ap (λ k. k % 2 == 1) (ap (λ k. n / k) (pow-two_suc p) ∙ sym (div-div-eq-div-mul n 2 (2 ^ p)))

pub bit_of_zero : (p : ℕ) → bit 0 p ≡ false
bit_of_zero zero = bit-zero 0
bit_of_zero (suc p) = bit-suc 0 p ∙ bit_of_zero p

-- Adding 2 ^ p where bit p is clear sets that bit and no other.
bit-add_pow : (n p q : ℕ) → bit n p ≡ false → bit (n + 2 ^ p) q ≡ (if p == q then true else bit n q)
bit-add_pow n zero zero h = ground (arith, bit-zero n, bit-zero (n + 1))
bit-add_pow n zero (suc q) h =
    let even : n % 2 ≡ 0 = ground (arith, bit-zero n) in
    let half : (n + 1) / 2 ≡ n / 2 = omega arith in
    let same : bit (n + 1) (suc q) ≡ bit n (suc q) =
      bit-suc (n + 1) q ∙ ap (λ k. bit k q) half ∙ sym (bit-suc n q) in
    ground arith
bit-add_pow n (suc p) zero h =
    let same : (n + 2 ^ suc p) % 2 ≡ n % 2 = omega (arith, pow-two_suc p) in
    let kept : bit (n + 2 ^ suc p) 0 ≡ bit n 0 =
      bit-zero (n + 2 ^ suc p) ∙ ap (λ k. k == 1) same ∙ sym (bit-zero n) in
    ground arith
bit-add_pow n (suc p) (suc q) h =
    let half : (n + 2 ^ suc p) / 2 ≡ n / 2 + 2 ^ p = omega (arith, pow-two_suc p) in
    let moved : bit (n + 2 ^ suc p) (suc q) ≡ bit (n / 2 + 2 ^ p) q =
      bit-suc (n + 2 ^ suc p) q ∙ ap (λ k. bit k q) half in
    ground (arith, bit-add_pow (n / 2) p q (sym (bit-suc n p) ∙ h), bit-suc n q)

pub bit-with_bit : (n p q : ℕ) → bit (with_bit n p) q ≡ (if p == q then true else bit n q)
unfolding with_bit
bit-with_bit n p q = elim (Bool-cases (bit n p)) [
  | inl set ↦
      rw set (elim (Bool-cases (p == q)) [ inl e ↦ rw (e, ← (==_iff p q).0 e) set | inr e ↦ rw e ])
  | inr clear ↦ rw clear (bit-add_pow n p q clear)
]

add_pow-lt : (n p w : ℕ) → n < 2 ^ w → p < w → bit n p ≡ false → n + 2 ^ p < 2 ^ w
add_pow-lt n p zero h k clear = absurd (omega arith)
add_pow-lt n zero (suc w) h k clear =
    let even : n % 2 ≡ 0 = ground (arith, bit-zero n) in omega (arith, pow-two_suc w)
add_pow-lt n (suc p) (suc w) h k clear =
    let below : n / 2 < 2 ^ w = omega (arith, pow-two_suc w) in
    let rest = add_pow-lt (n / 2) p w below (omega arith) (sym (bit-suc n p) ∙ clear) in
    omega (arith, pow-two_suc w, pow-two_suc p)

-- Setting a bit below w keeps a w-bit word.
pub with_bit-lt : (n p w : ℕ) → n < 2 ^ w → p < w → with_bit n p < 2 ^ w
unfolding with_bit
with_bit-lt n p w h k = ground (arith, add_pow-lt n p w h k)

bit-mul_pow : (n k q : ℕ) → bit (n * 2 ^ k) q ≡ (if ltb q k then false else bit n (q - k))
bit-mul_pow n zero q =
    let same : n * 1 ≡ n = omega arith in
    let start : q - 0 ≡ q = omega arith in rw (same, start) (ground arith)
bit-mul_pow n (suc k) zero =
    let even : n * 2 ^ suc k ≡ 2 * (n * 2 ^ k) = rw (pow-two_suc k) (omega arith) in
    let clear : bit (n * 2 ^ suc k) 0 ≡ false = bit-zero (n * 2 ^ suc k) ∙ ground arith in
    ground arith
bit-mul_pow n (suc k) (suc q) =
    let even : n * 2 ^ suc k ≡ 2 * (n * 2 ^ k) = rw (pow-two_suc k) (omega arith) in
    let half : n * 2 ^ suc k / 2 ≡ n * 2 ^ k = omega arith in
    let moved : bit (n * 2 ^ suc k) (suc q) ≡ bit (n * 2 ^ k) q =
      bit-suc (n * 2 ^ suc k) q ∙ ap (λ m. bit m q) half in
    let index : suc q - suc k ≡ q - k = omega arith in rw index (ground (arith, bit-mul_pow n k q))

-- The halves of a residue.
mod-pow_halves : (n w : ℕ) → (n % 2 ^ suc w % 2 ≡ n % 2) × (n % 2 ^ suc w / 2 ≡ n / 2 % 2 ^ w)
mod-pow_halves n w =
    let d = n / 2 / 2 ^ w in
    let quotient : n / 2 ^ suc w ≡ d =
      ap (λ k. n / k) (pow-two_suc w) ∙ sym (div-div-eq-div-mul n 2 (2 ^ w)) in
    let whole : 2 ^ suc w * (n / 2 ^ suc w) ≡ 2 * (2 ^ w * d) =
      ap (λ k. 2 ^ suc w * k) quotient ∙ ap (λ k. k * d) (pow-two_suc w) ∙ omega arith in
    let bound : 2 ^ w * d ≤ n / 2 = mul-div-le (n / 2) (2 ^ w) in
    (
      omega (arith, mod_def n (2 ^ suc w), mod_def (n / 2) (2 ^ w)),
      omega (arith, mod_def n (2 ^ suc w), mod_def (n / 2) (2 ^ w)),
    )

bit-mod_pow : (n w q : ℕ) → bit (n % 2 ^ w) q ≡ (if ltb q w then bit n q else false)
bit-mod_pow n zero q =
    let none_left : n % 1 ≡ 0 = omega arith in rw none_left (ground (arith, bit_of_zero q))
bit-mod_pow n (suc w) zero =
    let same : bit (n % 2 ^ suc w) 0 ≡ bit n 0 =
      bit-zero (n % 2 ^ suc w) ∙ ap (λ k. k == 1) ((mod-pow_halves n w).0) ∙ sym (bit-zero n) in
    ground arith
bit-mod_pow n (suc w) (suc q) =
    let moved : bit (n % 2 ^ suc w) (suc q) ≡ bit (n / 2 % 2 ^ w) q =
      bit-suc (n % 2 ^ suc w) q ∙ ap (λ k. bit k q) ((mod-pow_halves n w).1) in
    ground (arith, bit-mod_pow (n / 2) w q, bit-suc n q)

pub bit-shift_left :
    (w n k q : ℕ)
    → bit (shift_left w n k) q
      ≡ (if ltb q w then (if ltb q k then false else bit n (q - k)) else false)
unfolding shift_left
bit-shift_left w n k q =
    bit-mod_pow (n * 2 ^ k) w q ∙ ap (λ b. if ltb q w then b else false) (bit-mul_pow n k q)

pub shift_left-lt : (w n k : ℕ) → 0 < 2 ^ w → shift_left w n k < 2 ^ w
unfolding shift_left
shift_left-lt w n k h = mod-lt _ h
