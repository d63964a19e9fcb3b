-- ===== src/Base/Bits.antt =====
-- Masks: `bit_and` by a word of `k` ones is the remainder modulo `2 ^ k`.
use Prim.Native.Nat.{
  ℕ, zero, suc, ◌+◌, ◌-◌, ◌*◌, ◌/◌, ◌%◌, ◌^◌, ◌≤◌, ◌<◌, ◌∣◌, min, bit_and, bit_or, digits,
  bit_and-bitwise, bit_or-bitwise,
}
use mathlib.Core.Path.{◌≡◌, refl, ◌∙◌, sym, ap, subst}
use native.Mathlib.Nat.{
  pow-suc, dvd_refl, dvd-mul_right_of_dvd, mod-mod_of_dvd, mul-add-mod_self_left, mod-eq_of_lt,
  mod-lt, div-add-mod,
}
use native.Mathlib.Omega.{arith}

-- Any word holds no digit of 0, however many digits are looked at.
no_digit : (fuel b : ℕ) → digits (λ _. 0) min fuel 0 b ≡ 0
no_digit zero b = refl
no_digit (suc fuel) b = refl

-- Looking at more digits than the first operand has changes nothing.
more_digits :
    (k fuel b a : ℕ) → a ≤ fuel → digits (λ _. 0) min (fuel + k) a b ≡ digits (λ _. 0) min fuel a b
more_digits k fuel b zero h = no_digit (fuel + k) b ∙ sym (no_digit fuel b)
more_digits k zero b (suc a) h = absurd (omega arith)
more_digits k (suc fuel) b (suc a) h =
    let halves : digits (λ _. 0) min (fuel + k) (suc a / 2) (b / 2)
        ≡ digits (λ _. 0) min fuel (suc a / 2) (b / 2) =
      more_digits k fuel (b / 2) (suc a / 2) (omega arith) in
    let step : digits (λ _. 0) min (suc (fuel + k)) (suc a) b
        ≡ digits (λ _. 0) min (suc fuel) (suc a) b =
      omega (arith, halves) in
    let more : suc fuel + k ≡ suc (fuel + k) = omega arith in
    ap (λ n. digits (λ _. 0) min n (suc a) b) more ∙ step

-- So the conjunction of the halves is what the recursion computes on any fuel that is enough.
halves-bit_and : (a b : ℕ) → digits (λ _. 0) min a (suc a / 2) (b / 2) ≡ bit_and (suc a / 2) (b / 2)
halves-bit_and a b =
    let e : suc a / 2 + (a - suc a / 2) ≡ a = omega arith in
    ap (λ n. digits (λ _. 0) min n (suc a / 2) (b / 2)) (sym e)
    ∙ more_digits (a - suc a / 2) (suc a / 2) (b / 2) (suc a / 2) (omega arith)
    ∙ sym (bit_and-bitwise (suc a / 2) (b / 2))

-- The lowest digit of a conjunction and the digits above it.
bit_and_step : (a b : ℕ) → bit_and a b ≡ bit_and (a / 2) (b / 2) * 2 + min (a % 2) (b % 2)
bit_and_step zero b =
    let z : (c : ℕ) → bit_and 0 c ≡ 0 = λ c. bit_and-bitwise 0 c in omega (arith, z b, z (b / 2))
bit_and_step (suc a) b = omega (arith, bit_and-bitwise (suc a) b, halves-bit_and a b)

pub pow_pos : (k : ℕ) → 0 < 2 ^ k
pow_pos zero = omega arith
pow_pos (suc k) = omega (arith, pow_pos k, pow-suc 2 k)

-- The remainder by `2 * p` is that of the half by `p`, with the lowest digit put back.
mod_double : (p a : ℕ) → 0 < p → a % (p * 2) ≡ a / 2 % p * 2 + a % 2
mod_double p a h =
    ap (λ n. n % (p * 2)) whole
    ∙ mul-add-mod_self_left (p * 2) (a / 2 / p) (a / 2 % p * 2 + a % 2)
    ∙ mod-eq_of_lt (omega (arith, mod-lt (a / 2) {m = p} h))
  where
    whole : a ≡ p * 2 * (a / 2 / p) + (a / 2 % p * 2 + a % 2)
    whole = omega (arith, div-add-mod (a / 2) p, ap (λ (n : ℕ). 2 * n) (div-add-mod (a / 2) p))

bit_and_none : (fuel a : ℕ) → a ≤ fuel → bit_and a 0 ≡ 0
bit_and_none fuel zero h = bit_and-bitwise 0 0
bit_and_none zero (suc a) h = absurd (omega arith)
bit_and_none (suc fuel) (suc a) h =
    let up : bit_and (suc a / 2) 0 ≡ 0 = bit_and_none fuel (suc a / 2) (omega arith) in
    bit_and_step (suc a) 0 ∙ omega (arith, up)

pub bit_and-mask : (k a : ℕ) → bit_and a (2 ^ k - 1) ≡ a % 2 ^ k
bit_and-mask zero a = bit_and_none a a (omega arith) ∙ omega arith
bit_and-mask (suc k) a =
    let p : 2 ^ suc k ≡ 2 ^ k * 2 = pow-suc 2 k in
    let half : (2 ^ suc k - 1) / 2 ≡ 2 ^ k - 1 = omega (arith, p, pow_pos k) in
    bit_and_step a (2 ^ suc k - 1)
    ∙ rw (half, bit_and-mask k (a / 2))
        (rw p (omega (arith, mod_double (2 ^ k) a (pow_pos k), pow_pos k)))

pow-dvd : (k j : ℕ) → 2 ^ k ∣ 2 ^ (k + j)
pow-dvd k zero = let e : k + 0 ≡ k = omega arith in rw e (dvd_refl (2 ^ k))
pow-dvd k (suc j) =
    let e : k + suc j ≡ suc (k + j) = omega arith in
    rw (e, pow-suc) (dvd-mul_right_of_dvd (2 ^ k) (pow-dvd k j) 2)

-- A counter of 32 bits that wraps keeps its remainder modulo a power of two of at most 32 bits.
pub wrap-mod : (k n : ℕ) → k ≤ 32 → n % 2 ^ 32 % 2 ^ k ≡ n % 2 ^ k
wrap-mod k n h = mod-mod_of_dvd (2 ^ k) n (subst (λ j. 2 ^ k ∣ 2 ^ j) e (pow-dvd k (32 - k)))
  where
    e : k + (32 - k) ≡ 32
    e = omega arith

-- A word with its lowest bit set is odd.
pub bit_or-one : (a : ℕ) → bit_or a 1 % 2 ≡ 1
bit_or-one zero = ap (λ n. n % 2) (bit_or-bitwise 0 1)
bit_or-one (suc a) = omega (arith, bit_or-bitwise (suc a) 1)
