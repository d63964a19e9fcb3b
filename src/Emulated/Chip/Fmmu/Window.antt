-- ===== src/Emulated/Chip/Fmmu/Window.antt =====
-- The bytes that a mapping and a datagram have in common, and what a copy of them leaves.
use kick_cat.Base.{
  ℕ, zero, suc, ◌+◌, ◌-◌, ◌/◌, ◌%◌, ◌<◌, ◌≡◌, refl, ap, ◌∙◌, Bool, true, not, ◌||◌, ◌&&◌, ltb, leb,
  if◌then◌else◌, arith, Bool-cases, inl, inr, min,
}
use kick_cat.Base.Bytes.{word32}
use kick_cat.Base.Lists.{get_or, length}
use kick_cat.Emulated.Chip.Registers.{Memory, Fmmu, load, store}
use kick_cat.Emulated.Chip.Fmmu.{max}
use kick_cat.Emulated.Chip.Fmmu.Blend.{wholes, whole-inside, whole-outside}

get_or-load :
    (m : Memory) (a n i : ℕ) → get_or (load m a n) i 0 ≡ (if ltb i n then m (a + i) else 0)
get_or-load m a zero i = ground arith
get_or-load m a (suc n) zero = let e : a + 0 ≡ a = omega arith in rw e (ground arith)
get_or-load m a (suc n) (suc i) =
    let e : a + 1 + i ≡ a + suc i = omega arith in get_or-load m (a + 1) n i ∙ rw e (ground arith)

length-load : (m : Memory) (a n : ℕ) → length (load m a n) ≡ n
length-load m a zero = refl
length-load m a (suc n) = omega (arith, length-load m (a + 1) n)

pub store-load :
    (m d : Memory) (to from n x : ℕ)
    → store to (load m from n) d x
      ≡ (if leb to x && ltb x (to + n) then m (from + (x - to)) else d x)
store-load m d to from n x = rw (length-load m from n, get_or-load m from n (x - to)) (ground arith)

module _ (f : Fmmu) (start end : ℕ) where
  abbrev pub byte_at : ℕ → ℕ
  byte_at j = (f.logical_address + j) % word32

  abbrev pub inside : ℕ → Bool
  inside j = not (ltb (byte_at j) start || leb end (byte_at j))

  abbrev pub in_frame : ℕ → ℕ
  in_frame j = byte_at j - start

  abbrev pub in_memory : ℕ → ℕ
  in_memory j = f.physical + j

  abbrev pub low : ℕ
  low = max start f.logical_address

  abbrev pub high : ℕ
  high = min end ((f.logical_address + f.bit_length / 8) % word32)

  pub byte_at_eq : (j : ℕ) → f.logical_address + j < word32 → byte_at j ≡ f.logical_address + j
  byte_at_eq j h = omega (arith, h)

  pub hit-copied :
      (to from : ℕ → ℕ) (src : Memory) (n j : ℕ) (d : Memory) (h : Bool)
      → f.logical_address + j + n < word32
      → (wholes inside to from src n j (d, h)).1
        ≡ (h || ltb (max start (f.logical_address + j)) (min end (f.logical_address + j + n)))
  unfolding wholes
  hit-copied to from src zero j d h k = ground arith
  hit-copied to from src (suc n) j d h k =
      let at = byte_at_eq j (omega (arith, k)) in
      elim (Bool-cases (inside j)) [
        | inl i ↦
            ap (λ p. (wholes inside to from src n (j + 1) p).1)
              (whole-inside inside to from src j d h i)
            ∙ hit-copied to from src n (j + 1) _ true (omega (arith, k))
            ∙ ground arith
        | inr i ↦
            ap (λ p. (wholes inside to from src n (j + 1) p).1)
              (whole-outside inside to from src j (d, h) i)
            ∙ hit-copied to from src n (j + 1) d h (omega (arith, k))
            ∙ ground arith
      ]
