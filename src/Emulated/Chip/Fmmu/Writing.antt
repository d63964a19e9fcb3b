-- ===== src/Emulated/Chip/Fmmu/Writing.antt =====
-- A write through a mapping on whole bytes: the loop over the bits does what the copy does.
use kick_cat.Base.{
  ℕ, zero, suc, ◌+◌, ◌-◌, ◌/◌, ◌≤◌, ◌<◌, ◌≡◌, refl, sym, ap, ap₂, ◌∙◌, Bool, true, false, ◌||◌,
  ◌&&◌, ◌==◌, ltb, leb, if◌then◌else◌, arith, Bool-cases, inl, inr,
}
use kick_cat.Base.Bytes.{word32}
use native.Mathlib.Decide.{ℕ_discrete}
use mathlib.Core.Path.{fun_ext}
use kick_cat.Emulated.Chip.Registers.{Memory, Fmmu}
use kick_cat.Emulated.Chip.Fmmu.{Copy, copy_bit, copy_bits, copy_bytes}
use kick_cat.Emulated.Chip.Fmmu.Window
use kick_cat.Emulated.Chip.Fmmu.Window.{store-load, byte_at_eq, hit-copied}
use kick_cat.Emulated.Chip.Fmmu.Blend.{blend, blends, wholes, whole-inside, whole-outside}

-- A byte that the copy changes is in the window of the loop; `low` and `high` bound the copy.
apart_lem :
    (logical physical size start end low high x : ℕ)
    → low ≤ high
    → logical ≤ low
    → start ≤ low
    → high ≤ end
    → high ≤ logical + size
    → (leb (physical + 0) x
        && ltb x (physical + 0 + size)
        && leb start (logical + (x - physical))
        && ltb (logical + (x - physical)) end)
      ≡ false
    → (leb (physical + (low - logical)) x && ltb x (physical + (low - logical) + (high - low)))
      ≡ true
    → ⊥
apart_lem logical physical size start end low high x a b c d e r t = ground arith

abbrev pub onto_memory : Copy → Memory × Bool → Copy
onto_memory s (m, h) = record s { memory = m; hit = h }

module _ (f : Fmmu) (start end : ℕ) (logical : f.logical_start_bit ≡ 0)
    (physical : f.physical_start_bit ≡ 0) where
  abbrev byte_at : ℕ → ℕ
  byte_at = Window.byte_at f start end

  abbrev inside : ℕ → Bool
  inside = Window.inside f start end

  abbrev in_frame : ℕ → ℕ
  in_frame = Window.in_frame f start end

  abbrev in_memory : ℕ → ℕ
  in_memory = Window.in_memory f start end

  bit-write :
      (b : ℕ) (s : Copy)
      → copy_bit f false start end b s
        ≡ onto_memory s (blend inside in_memory in_frame s.frame b (s.memory, s.hit))
  unfolding copy_bit blend
  bit-write b s =
      let z : 0 + b ≡ b = omega arith in
      elim (Bool-cases (ltb (byte_at (b / 8)) start || leb end (byte_at (b / 8)))) [
        | inl i ↦ rw (logical, physical, z, i) refl
        | inr i ↦ rw (logical, physical, z, i) refl
      ]

  pub bits-write :
      (n b : ℕ) (s : Copy)
      → copy_bits n f false start end b s
        ≡ onto_memory s (blends inside in_memory in_frame s.frame n b (s.memory, s.hit))
  unfolding copy_bits blends
  bits-write zero b s = refl
  bits-write (suc n) b s =
      ap (copy_bits n f false start end (b + 1)) (bit-write b s) ∙ bits-write n (b + 1) _

  abbrev write_window : ℕ → ℕ → ℕ → Bool
  write_window n j x =
      leb (f.physical + j) x
      && ltb x (f.physical + j + n)
      && leb start (f.logical_address + (x - f.physical))
      && ltb (f.logical_address + (x - f.physical)) end

  -- One byte inside the window, next to those behind it.
  byte_lem :
      (n j x new old value : ℕ)
      → byte_at j ≡ f.logical_address + j
      → inside j ≡ true
      → (x ≡ f.physical + j → value ≡ new)
      → (if write_window n (j + 1) x then value else (if x == in_memory j then new else old))
        ≡ (if write_window (suc n) j x then value else old)
  byte_lem n j x new old value at i same = elim (ℕ_discrete x (f.physical + j)) [
    | yes e ↦ let v = same e in ground arith
    | no e ↦ ground arith
  ]

  abbrev copied : Memory → ℕ → ℕ → Memory × Bool → Memory × Bool
  copied src = wholes inside in_memory in_frame src

  wholes-memory :
      (src : Memory) (n j x : ℕ) (d : Memory) (h : Bool)
      → f.logical_address + j + n < word32
      → (copied src n j (d, h)).0 x
        ≡ (if write_window n j x then src (f.logical_address + (x - f.physical) - start) else d x)
  unfolding wholes
  wholes-memory src zero j x d h k = ground arith
  wholes-memory src (suc n) j x d h k =
      let at = byte_at_eq f start end j (omega (arith, k)) in
      elim (Bool-cases (inside j)) [
        | inl i ↦
            ap (λ p. (copied src n (j + 1) p).0 x)
              (whole-inside inside in_memory in_frame src j d h i)
            ∙ wholes-memory src n (j + 1) x _ true (omega (arith, k))
            ∙ byte_lem n j x (src (in_frame j)) (d x)
                (src (f.logical_address + (x - f.physical) - start)) at i
                (λ e. ap src (omega (arith, e, at)))
        | inr i ↦
            ap (λ p. (copied src n (j + 1) p).0 x)
              (whole-outside inside in_memory in_frame src j (d, h) i)
            ∙ wholes-memory src n (j + 1) x d h (omega (arith, k))
            ∙ grind arith
      ]

  module _ (s : Copy) (fits : f.logical_address + f.bit_length / 8 < word32) where
    abbrev size : ℕ
    size = f.bit_length / 8

    abbrev low : ℕ
    low = Window.low f start end

    abbrev high : ℕ
    high = Window.high f start end

    abbrev to : ℕ
    to = f.physical + (low - f.logical_address)

    apart :
        (x : ℕ)
        → leb high low ≡ false
        → write_window size 0 x ≡ false
        → (leb to x && ltb x (to + (high - low))) ≡ true
        → ⊥
    apart x i r t =
        let above : low ≤ high = ground arith in
        let over : f.logical_address ≤ low = ground arith in
        let from_start : start ≤ low = ground arith in
        let until : high ≤ end = ground arith in
        let within : high ≤ f.logical_address + size = ground arith in
        apart_lem f.logical_address f.physical size start end low high x above over from_start until
          within r t

    -- The window of the loop is the one of the copy.
    behind :
        (x : ℕ)
        → leb high low ≡ false
        → (if write_window size 0 x
            then s.frame (f.logical_address + (x - f.physical) - start)
            else s.memory x)
          ≡ (if leb to x && ltb x (to + (high - low))
              then s.frame (low - start + (x - to))
              else s.memory x)
    behind x i = elim (Bool-cases (write_window size 0 x)) [
      | inl r ↦
          let e : f.logical_address + (x - f.physical) - start ≡ low - start + (x - to) =
            ground arith in
          let same = ap s.frame e in ground arith
      | inr r ↦ elim (Bool-cases (leb to x && ltb x (to + (high - low)))) [
        | inl t ↦ absurd (apart x i r t)
        | inr t ↦ rw (r, t) refl
      ]
    ]

    pub bytes-write :
        onto_memory s (copied s.frame size 0 (s.memory, s.hit)) ≡ copy_bytes f false start end s
    unfolding copy_bytes
    bytes-write =
        let k : f.logical_address + 0 + size < word32 = omega (arith, fits) in
        let hit = hit-copied f start end in_memory in_frame s.frame size 0 s.memory s.hit k in
        elim (Bool-cases (leb high low)) [
          | inl i ↦ rw i (
              ap₂ (λ (m : Memory) (h : Bool). onto_memory s (m, h))
                (fun_ext λ x. wholes-memory s.frame size 0 x s.memory s.hit k ∙ ground arith)
                (hit ∙ ground arith))
          | inr i ↦ rw i (
              ap₂ (λ (m : Memory) (h : Bool). onto_memory s (m, h))
                (fun_ext λ x.
                  wholes-memory s.frame size 0 x s.memory s.hit k
                  ∙ behind x i
                  ∙ sym (store-load s.frame s.memory to (low - start) (high - low) x))
                (hit ∙ ground arith))
        ]
