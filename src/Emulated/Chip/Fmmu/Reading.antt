-- ===== src/Emulated/Chip/Fmmu/Reading.antt =====
-- A read through a mapping on whole bytes: the loop over the bits does what the copy does.
use kick_cat.Base.{
  ℕ, zero, suc, ◌+◌, ◌-◌, ◌/◌, ◌<◌, ◌≡◌, refl, sym, ap, ap₂, ◌∙◌, Bool, true, false, ◌||◌, ◌&&◌,
  ◌==◌, ltb, leb, if◌then◌else◌, arith, Bool-cases, inl, inr,
}
use kick_cat.Base.Bytes.{word32}
use native.Mathlib.Decide.{ℕ_discrete}
use mathlib.Core.Path.{fun_ext}
use kick_cat.Emulated.Chip.Registers.{Memory, Fmmu}
use kick_cat.Emulated.Chip.Fmmu.{Copy, copy_bit, copy_bits, copy_bytes}
use kick_cat.Emulated.Chip.Fmmu.Window
use kick_cat.Emulated.Chip.Fmmu.Window.{store-load, byte_at_eq, hit-copied}
use kick_cat.Emulated.Chip.Fmmu.Blend.{blend, blends, wholes, whole-inside, whole-outside}

abbrev pub onto_frame : Copy → Memory × Bool → Copy
onto_frame s (m, h) = record s { frame = m; hit = h }

module _ (f : Fmmu) (start end : ℕ) (logical : f.logical_start_bit ≡ 0)
    (physical : f.physical_start_bit ≡ 0) where
  abbrev byte_at : ℕ → ℕ
  byte_at = Window.byte_at f start end

  abbrev inside : ℕ → Bool
  inside = Window.inside f start end

  abbrev in_frame : ℕ → ℕ
  in_frame = Window.in_frame f start end

  abbrev in_memory : ℕ → ℕ
  in_memory = Window.in_memory f start end

  bit-read :
      (b : ℕ) (s : Copy)
      → copy_bit f true start end b s
        ≡ onto_frame s (blend inside in_frame in_memory s.memory b (s.frame, s.hit))
  unfolding copy_bit blend
  bit-read b s =
      let z : 0 + b ≡ b = omega arith in
      elim (Bool-cases (ltb (byte_at (b / 8)) start || leb end (byte_at (b / 8)))) [
        | inl i ↦ rw (logical, physical, z, i) refl
        | inr i ↦ rw (logical, physical, z, i) refl
      ]

  pub bits-read :
      (n b : ℕ) (s : Copy)
      → copy_bits n f true start end b s
        ≡ onto_frame s (blends inside in_frame in_memory s.memory n b (s.frame, s.hit))
  unfolding copy_bits blends
  bits-read zero b s = refl
  bits-read (suc n) b s =
      ap (copy_bits n f true start end (b + 1)) (bit-read b s) ∙ bits-read n (b + 1) _

  abbrev read_window : ℕ → ℕ → ℕ → Bool
  read_window n j x =
      leb (f.logical_address + j) (start + x)
      && ltb (start + x) (f.logical_address + j + n)
      && ltb (start + x) end

  -- One byte inside the window, next to those behind it.
  byte_lem :
      (n j x new old value : ℕ)
      → byte_at j ≡ f.logical_address + j
      → inside j ≡ true
      → (start + x ≡ f.logical_address + j → value ≡ new)
      → (if read_window n (j + 1) x then value else (if x == in_frame j then new else old))
        ≡ (if read_window (suc n) j x then value else old)
  byte_lem n j x new old value at i same = elim (ℕ_discrete (start + x) (f.logical_address + j)) [
    | yes e ↦ let v = same e in ground arith
    | no e ↦ ground arith
  ]

  abbrev copied : Memory → ℕ → ℕ → Memory × Bool → Memory × Bool
  copied src = wholes inside in_frame in_memory src

  wholes-frame :
      (src : Memory) (n j x : ℕ) (d : Memory) (h : Bool)
      → f.logical_address + j + n < word32
      → (copied src n j (d, h)).0 x
        ≡ (if read_window n j x then src (f.physical + (start + x - f.logical_address)) else d x)
  unfolding wholes
  wholes-frame src zero j x d h k = ground arith
  wholes-frame src (suc n) j x d h k =
      let at = byte_at_eq f start end j (omega (arith, k)) in
      elim (Bool-cases (inside j)) [
        | inl i ↦
            ap (λ p. (copied src n (j + 1) p).0 x)
              (whole-inside inside in_frame in_memory src j d h i)
            ∙ wholes-frame src n (j + 1) x _ true (omega (arith, k))
            ∙ byte_lem n j x (src (f.physical + j)) (d x)
                (src (f.physical + (start + x - f.logical_address))) at i
                (λ e. ap src (omega (arith, e)))
        | inr i ↦
            ap (λ p. (copied src n (j + 1) p).0 x)
              (whole-outside inside in_frame in_memory src j (d, h) i)
            ∙ wholes-frame src n (j + 1) x d h (omega (arith, k))
            ∙ grind arith
      ]

  module _ (s : Copy) (fits : f.logical_address + f.bit_length / 8 < word32) where
    abbrev size : ℕ
    size = f.bit_length / 8

    abbrev low : ℕ
    low = Window.low f start end

    abbrev high : ℕ
    high = Window.high f start end

    -- The window of the loop is the one of the copy.
    behind :
        (x : ℕ)
        → leb high low ≡ false
        → (if read_window size 0 x
            then s.memory (f.physical + (start + x - f.logical_address))
            else s.frame x)
          ≡ (if leb (low - start) x && ltb x (low - start + (high - low))
              then s.memory (f.physical + (low - f.logical_address) + (x - (low - start)))
              else s.frame x)
    behind x i = elim (Bool-cases (read_window size 0 x)) [
      | inl r ↦
          let e : f.physical + (start + x - f.logical_address)
              ≡ f.physical + (low - f.logical_address) + (x - (low - start)) =
            ground arith in
          let same = ap s.memory e in ground arith
      | inr r ↦ ground arith
    ]

    pub bytes-read :
        onto_frame s (copied s.memory size 0 (s.frame, s.hit)) ≡ copy_bytes f true start end s
    unfolding copy_bytes
    bytes-read =
        let k : f.logical_address + 0 + size < word32 = omega (arith, fits) in
        let hit = hit-copied f start end in_frame in_memory s.memory size 0 s.frame s.hit k in
        elim (Bool-cases (leb high low)) [
          | inl i ↦ rw i (
              ap₂ (λ (m : Memory) (h : Bool). onto_frame s (m, h))
                (fun_ext λ x. wholes-frame s.memory size 0 x s.frame s.hit k ∙ ground arith)
                (hit ∙ ground arith))
          | inr i ↦ rw i (
              ap₂ (λ (m : Memory) (h : Bool). onto_frame s (m, h))
                (fun_ext λ x.
                  wholes-frame s.memory size 0 x s.frame s.hit k
                  ∙ behind x i
                  ∙ sym (
                      store-load s.memory s.frame (low - start)
                        (f.physical + (low - f.logical_address)) (high - low) x))
                (hit ∙ ground arith))
        ]
