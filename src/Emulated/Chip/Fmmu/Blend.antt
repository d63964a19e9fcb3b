-- ===== src/Emulated/Chip/Fmmu/Blend.antt =====
-- A copy bit by bit changes the same bytes as a copy byte by byte.
use kick_cat.Base.{
  ℕ, zero, suc, ◌+◌, ◌*◌, ◌/◌, ◌%◌, ◌^◌, ◌<◌, ◌≡◌, refl, sym, ap, ap₂, ◌∙◌, Bool, true, false,
  if◌then◌else◌, arith, Bool-cases, inl, inr,
}
use mathlib.Core.Path.{fun_ext}
use kick_cat.Emulated.Chip.Registers.{Memory, set_byte}
use kick_cat.Emulated.Chip.Fmmu.{get_bit, put_bit}

-- `x` with its first `k` bits from `y`.
abbrev mix : ℕ → ℕ → ℕ → ℕ
mix k x y = y % 2 ^ k + x / 2 ^ k * 2 ^ k

abbrev MixStep : ℕ → ℕ → ℕ → Type 0
MixStep k x y = put_bit (mix k x y) k (get_bit y k) ≡ mix (k + 1) x y

mix0 : (x y : ℕ) → MixStep 0 x y
mix0 x y = omega arith

mix1 : (x y : ℕ) → MixStep 1 x y
mix1 x y = omega arith

mix2 : (x y : ℕ) → MixStep 2 x y
mix2 x y = omega arith

mix3 : (x y : ℕ) → MixStep 3 x y
mix3 x y = omega arith

mix4 : (x y : ℕ) → MixStep 4 x y
mix4 x y = omega arith

mix5 : (x y : ℕ) → MixStep 5 x y
mix5 x y = omega arith

mix6 : (x y : ℕ) → MixStep 6 x y
mix6 x y = omega arith

mix7 : (x y : ℕ) → MixStep 7 x y
mix7 x y = omega arith

mix_whole : (x y : ℕ) → x < 256 → y < 256 → mix 8 x y ≡ y
mix_whole x y a b = omega arith

set_byte_twice : (a u v : ℕ) (m : Memory) → set_byte a v (set_byte a u m) ≡ set_byte a v m
set_byte_twice a u v m = fun_ext λ x. ground arith

set_byte_self : (a : ℕ) (m : Memory) → set_byte a (m a) m ≡ m
set_byte_self a m = fun_ext λ x. grind arith

set_byte_at : (a v : ℕ) (m : Memory) → set_byte a v m a ≡ v
set_byte_at a v m = ground arith

-- The bits of `n` bytes.
abbrev pub octets : ℕ → ℕ
octets zero = 0
octets (suc n) = suc (suc (suc (suc (suc (suc (suc (suc (octets n))))))))

pub octets-times : (n : ℕ) → octets n ≡ 8 * n
octets-times zero = refl
octets-times (suc n) = omega (arith, octets-times n)

module _ (inside : ℕ → Bool) (to from : ℕ → ℕ) (src : Memory) where
  -- One bit, and one byte.
  unfoldable pub blend : ℕ → Memory × Bool → Memory × Bool
  blend b (d, h) =
      let a = to (b / 8) in
      if inside (b / 8)
      then (set_byte a (put_bit (d a) (b % 8) (get_bit (src (from (b / 8))) (b % 8))) d, true)
      else (d, h)

  unfoldable pub whole : ℕ → Memory × Bool → Memory × Bool
  whole j (d, h) = if inside j then (set_byte (to j) (src (from j)) d, true) else (d, h)

  unfoldable pub blends : ℕ → ℕ → Memory × Bool → Memory × Bool
  blends zero b p = p
  blends (suc n) b p = blends n (b + 1) (blend b p)

  unfoldable pub wholes : ℕ → ℕ → Memory × Bool → Memory × Bool
  wholes zero j p = p
  wholes (suc n) j p = wholes n (j + 1) (whole j p)

  blend-inside :
      (b j k v : ℕ) (d : Memory) (h : Bool)
      → b / 8 ≡ j
      → b % 8 ≡ k
      → inside j ≡ true
      → blend b (set_byte (to j) v d, h)
        ≡ (set_byte (to j) (put_bit v k (get_bit (src (from j)) k)) d, true)
  unfolding blend
  blend-inside b j k v d h e r i =
      rw (e, r, i, set_byte_at (to j) v d) (rw (set_byte_twice (to j) v _ d) refl)

  -- A step of the eight: `next` reads where the bits stand now.
  next :
      (b j k : ℕ) (d : Memory) (h : Bool) (p : Memory × Bool)
      → MixStep k (d (to j)) (src (from j))
      → b / 8 ≡ j
      → b % 8 ≡ k
      → inside j ≡ true
      → p ≡ (set_byte (to j) (mix k (d (to j)) (src (from j))) d, h)
      → blend b p ≡ (set_byte (to j) (mix (k + 1) (d (to j)) (src (from j))) d, true)
  next b j k d h p m e r i q =
      ap (blend b) q
      ∙ blend-inside b j k (mix k (d (to j)) (src (from j))) d h e r i
      ∙ ap (λ (v : ℕ). (set_byte (to j) v d, true)) m

  eight_inside :
      (n j b : ℕ) (d : Memory) (h : Bool)
      → b ≡ 8 * j
      → inside j ≡ true
      → d (to j) < 256
      → src (from j) < 256
      → blends (suc (suc (suc (suc (suc (suc (suc (suc n)))))))) b (d, h)
        ≡ blends n (b + 8) (whole j (d, h))
  unfolding blends whole
  eight_inside n j b d h e i small_d small_s =
      let x = d (to j) in
      let y = src (from j) in
      let self : (d, h) ≡ (set_byte (to j) x d, h) =
        ap (λ (m : Memory). (m, h)) (sym (set_byte_self (to j) d)) in
      let none_yet : x ≡ mix 0 x y = omega arith in
      let p0 = self ∙ ap (λ (v : ℕ). (set_byte (to j) v d, h)) none_yet in
      let p1 = next (b) j 0 d h _ (mix0 x y) (omega (arith, e)) (omega (arith, e)) i p0 in
      let p2 = next (b + 1) j 1 d true _ (mix1 x y) (omega (arith, e)) (omega (arith, e)) i p1 in
      let p3 =
        next (b + 1 + 1) j 2 d true _ (mix2 x y) (omega (arith, e)) (omega (arith, e)) i p2 in
      let p4 =
        next (b + 1 + 1 + 1) j 3 d true _ (mix3 x y) (omega (arith, e)) (omega (arith, e)) i p3 in
      let p5 =
        next (b + 1 + 1 + 1 + 1) j 4 d true _ (mix4 x y) (omega (arith, e)) (omega (arith, e)) i
          p4 in
      let p6 =
        next (b + 1 + 1 + 1 + 1 + 1) j 5 d true _ (mix5 x y) (omega (arith, e)) (omega (arith, e)) i
          p5 in
      let p7 =
        next (b + 1 + 1 + 1 + 1 + 1 + 1) j 6 d true _ (mix6 x y) (omega (arith, e))
          (omega (arith, e)) i p6 in
      let p8 =
        next (b + 1 + 1 + 1 + 1 + 1 + 1 + 1) j 7 d true _ (mix7 x y) (omega (arith, e))
          (omega (arith, e)) i p7 in
      let after : b + 1 + 1 + 1 + 1 + 1 + 1 + 1 + 1 ≡ b + 8 = omega arith in
      let all : (set_byte (to j) (mix 8 x y) d, true) ≡ (set_byte (to j) y d, true) =
        ap (λ (v : ℕ). (set_byte (to j) v d, true)) (mix_whole x y small_d small_s) in
      ap₂ (blends n) after (p8 ∙ all) ∙ rw i refl

  outside : (b j : ℕ) (p q : Memory × Bool) → b / 8 ≡ j → inside j ≡ false → p ≡ q → blend b p ≡ q
  unfolding blend
  outside b j p q e i r = rw (e, i) r

  eight_outside :
      (n j b : ℕ) (p : Memory × Bool)
      → b ≡ 8 * j
      → inside j ≡ false
      → blends (suc (suc (suc (suc (suc (suc (suc (suc n)))))))) b p ≡ blends n (b + 8) (whole j p)
  unfolding blends whole
  eight_outside n j b p e i =
      let p0 : p ≡ p = refl in
      let p1 = outside (b) j _ p (omega (arith, e)) i p0 in
      let p2 = outside (b + 1) j _ p (omega (arith, e)) i p1 in
      let p3 = outside (b + 1 + 1) j _ p (omega (arith, e)) i p2 in
      let p4 = outside (b + 1 + 1 + 1) j _ p (omega (arith, e)) i p3 in
      let p5 = outside (b + 1 + 1 + 1 + 1) j _ p (omega (arith, e)) i p4 in
      let p6 = outside (b + 1 + 1 + 1 + 1 + 1) j _ p (omega (arith, e)) i p5 in
      let p7 = outside (b + 1 + 1 + 1 + 1 + 1 + 1) j _ p (omega (arith, e)) i p6 in
      let p8 = outside (b + 1 + 1 + 1 + 1 + 1 + 1 + 1) j _ p (omega (arith, e)) i p7 in
      let after : b + 1 + 1 + 1 + 1 + 1 + 1 + 1 + 1 ≡ b + 8 = omega arith in
      ap₂ (blends n) after p8 ∙ rw i refl

  whole_small :
      (j : ℕ) (d : Memory) (h : Bool)
      → ((a : ℕ) → d a < 256)
      → ((a : ℕ) → src a < 256)
      → (a : ℕ) → (whole j (d, h)).0 a < 256
  unfolding whole
  whole_small j d h u v a =
      let same : d a < 256 = u a in
      let new : src (from j) < 256 = v (from j) in
      elim (Bool-cases (inside j)) [ inl i ↦ rw i (ground arith) | inr i ↦ rw i same ]

  pub blends-wholes :
      (n j b : ℕ) (p : Memory × Bool)
      → b ≡ 8 * j
      → ((a : ℕ) → p.0 a < 256)
      → ((a : ℕ) → src a < 256)
      → blends (octets n) b p ≡ wholes n j p
  unfolding blends wholes
  blends-wholes zero j b p e u v = refl
  blends-wholes (suc n) j b (d, h) e u v =
      let rest =
        blends-wholes n (j + 1) (b + 8) (whole j (d, h)) (omega (arith, e)) (whole_small j d h u v)
          v in
      elim (Bool-cases (inside j)) [
        | inl i ↦ eight_inside (octets n) j b d h e i (u (to j)) (v (from j)) ∙ rest
        | inr i ↦ eight_outside (octets n) j b (d, h) e i ∙ rest
      ]

  pub whole-inside :
      (j : ℕ) (d : Memory) (h : Bool)
      → inside j ≡ true
      → whole j (d, h) ≡ (set_byte (to j) (src (from j)) d, true)
  unfolding whole
  whole-inside j d h i = rw i refl

  pub whole-outside : (j : ℕ) (p : Memory × Bool) → inside j ≡ false → whole j p ≡ p
  unfolding whole
  whole-outside j p i = rw i refl
