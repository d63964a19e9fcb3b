-- ===== src/Emulated/Chip/Fmmu.antt =====
-- copyFmmu and processFmmus of lib/slave/src/ESC/EmulatedESC.cc. The payload of the datagram is a
-- function of the place of the byte.
pub mod Blend
pub mod Window
pub mod Reading
pub mod Writing
pub mod Equivalence
use kick_cat.Base.{
  ℕ, zero, suc, ◌+◌, ◌-◌, ◌*◌, ◌/◌, ◌%◌, ◌^◌, Bool, true, not, ◌&&◌, ◌||◌, ◌==◌, ltb, leb,
  if◌then◌else◌, List, [], ◌∷◌, min,
}
use kick_cat.Base.Bytes.{word32}
use kick_cat.Emulated.Chip.Registers.{Memory, Fmmu, load, store, set_byte}

-- Bit `k` of a byte, and a byte with that bit set to `v`.
abbrev pub get_bit : ℕ → ℕ → ℕ
get_bit x k = x / 2 ^ k % 2

abbrev pub put_bit : ℕ → ℕ → ℕ → ℕ
put_bit x k v = x + v * 2 ^ k - get_bit x k * 2 ^ k

-- What a copy changes: the payload, the memory, and whether anything was mapped.
pub record Copy : Type 0 where
  pub frame : Memory
  pub memory : Memory
  pub hit : Bool

abbrev pub is_aligned : Fmmu → Bool
is_aligned f = f.logical_start_bit == 0 && f.physical_start_bit == 0 && f.bit_length % 8 == 0

abbrev pub max : ℕ → ℕ → ℕ
max a b = if ltb a b then b else a

-- The bytes that both have, at once. `start` and `end` are those of the datagram.
unfoldable pub copy_bytes : Fmmu → Bool → ℕ → ℕ → Copy → Copy
copy_bytes f is_read start end s =
    let low = max start f.logical_address in
    let high = min end ((f.logical_address + f.bit_length / 8) % word32) in
    let in_frame = low - start in
    let in_memory = f.physical + (low - f.logical_address) in
    if leb high low
    then s
    else if is_read
    then record s {
      frame = store in_frame (load s.memory in_memory (high - low)) s.frame;
      hit = true;
    }
    else record s {
      memory = store in_memory (load s.frame in_frame (high - low)) s.memory;
      hit = true;
    }

-- One turn of the loop over the bits.
unfoldable pub copy_bit : Fmmu → Bool → ℕ → ℕ → ℕ → Copy → Copy
copy_bit f is_read start end b s =
    let logical_bit = f.logical_start_bit + b in
    let logical_byte = (f.logical_address + logical_bit / 8) % word32 in
    let in_frame = logical_byte - start in
    let physical_bit = f.physical_start_bit + b in
    let in_memory = f.physical + physical_bit / 8 in
    let from_memory = get_bit (s.memory in_memory) (physical_bit % 8) in
    let from_frame = get_bit (s.frame in_frame) (logical_bit % 8) in
    if ltb logical_byte start || leb end logical_byte
    then s
    else if is_read
    then record s {
      frame = set_byte in_frame (put_bit (s.frame in_frame) (logical_bit % 8) from_memory) s.frame;
      hit = true;
    }
    else record s {
      memory =
          set_byte in_memory (put_bit (s.memory in_memory) (physical_bit % 8) from_frame) s.memory;
      hit = true;
    }

unfoldable pub copy_bits : ℕ → Fmmu → Bool → ℕ → ℕ → ℕ → Copy → Copy
unfolding copy_bit
copy_bits zero f is_read start end b s = s
copy_bits (suc n) f is_read start end b s =
    copy_bits n f is_read start end (b + 1) (copy_bit f is_read start end b s)

unfoldable pub copy_fmmu : Fmmu → Bool → ℕ → ℕ → Copy → Copy
unfolding copy_bytes copy_bits
copy_fmmu f is_read address len s =
    let end = (address + len) % word32 in
    if is_aligned f
    then copy_bytes f is_read address end s
    else copy_bits f.bit_length f is_read address end 0 s

abbrev pub same : Bool → Bool → Bool
same a b = if a then b else not b

-- Reads serve the input FMMUs, and writes the outputs.
unfoldable pub process_fmmus : List Fmmu → Bool → ℕ → ℕ → Copy → Copy
unfolding copy_fmmu
process_fmmus [] is_read address len s = s
process_fmmus (f ∷ fs) is_read address len s =
    process_fmmus fs is_read address len
      (if same f.is_input is_read then copy_fmmu f is_read address len s else s)
