-- ===== src/Emulated/Chip/Fmmu/Equivalence.antt =====
-- The two ways of copyFmmu.
use kick_cat.Base.{
  ℕ, ◌+◌, ◌*◌, ◌/◌, ◌%◌, ◌<◌, ◌≡◌, refl, sym, ap, ◌∙◌, Bool, true, false, ◌==◌, arith,
}
use kick_cat.Base.Bytes.{word32}
use kick_cat.Emulated.Chip.Registers.{Fmmu}
use kick_cat.Emulated.Chip.Fmmu.{Copy, copy_bits, copy_bytes, is_aligned}
use kick_cat.Emulated.Chip.Fmmu.Blend.{octets, octets-times, blends-wholes}
use kick_cat.Emulated.Chip.Fmmu.Window.{inside, in_frame, in_memory}
use kick_cat.Emulated.Chip.Fmmu.Reading.{onto_frame, bits-read, bytes-read}
use kick_cat.Emulated.Chip.Fmmu.Writing.{onto_memory, bits-write, bytes-write}

whole_octets : (n : ℕ) → (n % 8 == 0) ≡ true → n ≡ octets (n / 8)
whole_octets n h =
    let e = octets-times (n / 8) in let m : n ≡ 8 * (n / 8) = ground arith in m ∙ sym e

-- For a mapping on whole bytes that does not reach the end of the logical addresses, and a payload
-- and a memory of bytes, the loop over the bits gives the same payload, the same memory and the same
-- hit as the copy of whole bytes, in both directions and for any bounds of the datagram.
pub copy_bits-copy_bytes :
    (f : Fmmu) (is_read : Bool) (start end : ℕ) (s : Copy)
    → is_aligned f ≡ true
    → f.logical_address + f.bit_length / 8 < word32
    → ((a : ℕ) → s.frame a < 256)
    → ((a : ℕ) → s.memory a < 256)
    → copy_bits f.bit_length f is_read start end 0 s ≡ copy_bytes f is_read start end s
copy_bits-copy_bytes f true start end s al fits u v =
    let l : f.logical_start_bit ≡ 0 = ground arith in
    let p : f.physical_start_bit ≡ 0 = ground arith in
    let n = whole_octets f.bit_length (ground arith) in
    let e =
      blends-wholes (inside f start end) (in_frame f start end) (in_memory f start end) s.memory
        (f.bit_length / 8) 0 0 (s.frame, s.hit) refl u v in
    ap (λ (k : ℕ). copy_bits k f true start end 0 s) n
    ∙ bits-read f start end l p (octets (f.bit_length / 8)) 0 s
    ∙ ap (onto_frame s) e
    ∙ bytes-read f start end l p s fits
copy_bits-copy_bytes f false start end s al fits u v =
    let l : f.logical_start_bit ≡ 0 = ground arith in
    let p : f.physical_start_bit ≡ 0 = ground arith in
    let n = whole_octets f.bit_length (ground arith) in
    let e =
      blends-wholes (inside f start end) (in_memory f start end) (in_frame f start end) s.frame
        (f.bit_length / 8) 0 0 (s.memory, s.hit) refl v u in
    ap (λ (k : ℕ). copy_bits k f false start end 0 s) n
    ∙ bits-write f start end l p (octets (f.bit_length / 8)) 0 s
    ∙ ap (onto_memory s) e
    ∙ bytes-write f start end l p s fits
