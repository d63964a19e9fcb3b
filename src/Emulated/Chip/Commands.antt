-- ===== src/Emulated/Chip/Commands.antt =====
-- The datagram commands of lib/slave/src/ESC/EmulatedESC.cc: what a slave does with a datagram that
-- passes. The effects of the distributed clocks on the registers are arguments.
use kick_cat.Base.{
  ℕ, ◌+◌, ◌*◌, ◌/◌, ◌%◌, Bool, true, false, not, ◌&&◌, ◌||◌, ◌==◌, if◌then◌else◌, List, [], ◌∷◌,
  bit_or,
}
use kick_cat.Base.Lists.{length, blit, get_or}
use kick_cat.EtherCat.{DatagramHeader}
use kick_cat.EtherCat.Command
use kick_cat.Emulated.Chip.Registers.{
  Memory, Chip, ecat_read, ecat_write, Outcome, failed, moved, memory_access, load,
}
use kick_cat.Emulated.Chip.Fmmu.{process_fmmus}

-- dcSystemTimeRead and dcTimeLoopWrite: they read the clock, which is no part of the model.
pub record Clocks : Type 0 where
  pub before_read : ℕ → ℕ → Chip → Chip
  pub after_write : ℕ → ℕ → Chip → Chip
  pub stamp_write : Chip → Chip

-- A datagram in the slave: its header, payload and working counter.
pub record Passing : Type 0 where
  pub header : DatagramHeader
  pub bytes : List ℕ
  pub wkc : ℕ

abbrev pub raise : ℕ → Passing → Passing
raise n d = record d { wkc = (d.wkc + n) % 65536 }

abbrev pub has_moved : Outcome → Bool
has_moved (failed e) = false
has_moved (moved []) = false
has_moved (moved (b ∷ bytes)) = true

abbrev pub moved_bytes : Outcome → List ℕ
moved_bytes (failed e) = []
moved_bytes (moved bytes) = bytes

-- extractAddress and createAddress
abbrev pub position_of : ℕ → ℕ
position_of address = address % 65536

abbrev pub offset_of : ℕ → ℕ
offset_of address = address / 65536

abbrev pub next_position : Passing → Passing
next_position d = record d {
  header = record d.header {
    address = (position_of d.header.address + 1) % 65536 + 65536 * offset_of d.header.address;
  };
}

unfoldable pub or_into : List ℕ → List ℕ → List ℕ
or_into [] ys = []
or_into (x ∷ xs) [] = x ∷ xs
or_into (x ∷ xs) (y ∷ ys) = bit_or x y ∷ or_into xs ys

module _ (dc : Clocks) where
  unfoldable pub process_read : Passing → Chip → Passing × Chip
  process_read d c =
      let at = offset_of d.header.address in
      let n = d.header.len in
      let (r, c') = memory_access ecat_read at [] n (dc.before_read at n c) in
      let d' = record d { bytes = blit 0 (moved_bytes r) d.bytes } in
      (if has_moved r then raise 1 d' else d', c')

  unfoldable pub process_write : Passing → Chip → Passing × Chip
  process_write d c =
      let at = offset_of d.header.address in
      let n = d.header.len in
      let (r, c') = memory_access ecat_write at d.bytes n c in
      if has_moved r then (raise 1 d, dc.after_write at n c') else (d, c')

  -- The read goes into the payload, the write takes what it was before.
  unfoldable pub process_read_write : Passing → Chip → Passing × Chip
  process_read_write d c =
      let at = offset_of d.header.address in
      let n = d.header.len in
      let (r, c1) = memory_access ecat_read at [] n (dc.before_read at n c) in
      let (q, c2) = memory_access ecat_write at d.bytes n c1 in
      let d1 = record d { bytes = blit 0 (moved_bytes r) d.bytes } in
      let d2 = if has_moved r then raise 1 d1 else d1 in
      if has_moved q then (raise 2 d2, dc.after_write at n c2) else (d2, c2)

  unfoldable pub process_broadcast_read : Passing → Chip → Passing × Chip
  unfolding or_into
  process_broadcast_read d c =
      let at = offset_of d.header.address in
      let n = d.header.len in
      let (r, c') = memory_access ecat_read at [] n (dc.before_read at n c) in
      let d' = record d { bytes = or_into d.bytes (moved_bytes r) } in
      (if has_moved r then raise 1 d' else d', c')

  unfoldable pub process_broadcast_read_write : Passing → Chip → Passing × Chip
  unfolding or_into
  process_broadcast_read_write d c =
      let at = offset_of d.header.address in
      let n = d.header.len in
      let (r, c1) = memory_access ecat_read at [] n (dc.before_read at n c) in
      let (q, c2) = memory_access ecat_write at d.bytes n c1 in
      let d1 = record d { bytes = or_into d.bytes (moved_bytes r) } in
      let d2 = if has_moved r then raise 1 d1 else d1 in
      if has_moved q then (raise 2 d2, dc.after_write at n c2) else (d2, c2)

  abbrev frame_of : List ℕ → Memory
  frame_of bytes x = get_or bytes x 0

  unfoldable pub process_lrd : Passing → Chip → Passing × Chip
  process_lrd d c =
      let s =
        process_fmmus c.fmmus true d.header.address d.header.len
          (record { frame = frame_of d.bytes; memory = c.memory; hit = false }) in
      let d' = record d { bytes = load s.frame 0 (length d.bytes) } in
      (if s.hit then raise 1 d' else d', c)

  unfoldable pub process_lwr : Passing → Chip → Passing × Chip
  process_lwr d c =
      let s =
        process_fmmus c.fmmus false d.header.address d.header.len
          (record { frame = frame_of d.bytes; memory = c.memory; hit = false }) in
      let c' = record c { memory = s.memory } in
      if s.hit then (raise 1 d, dc.stamp_write c') else (d, c')

  unfoldable pub process_lrw : Passing → Chip → Passing × Chip
  process_lrw d c =
      let r =
        process_fmmus c.fmmus true d.header.address d.header.len
          (record { frame = frame_of d.bytes; memory = c.memory; hit = false }) in
      let w =
        process_fmmus c.fmmus false d.header.address d.header.len
          (record { frame = frame_of d.bytes; memory = c.memory; hit = false }) in
      let d1 = record d { bytes = load r.frame 0 (length d.bytes) } in
      let d2 = if r.hit then raise 1 d1 else d1 in
      let c' = record c { memory = w.memory } in
      if w.hit then (raise 2 d2, dc.stamp_write c') else (d2, c')

-- The station address, and the alias when DL control enables it.
abbrev pub matches_address : Memory → ℕ → Bool
matches_address m position =
    position == m 0x10 + 256 * m 0x11
    || (m 0x103 % 2 == 1 && not (m 0x12 + 256 * m 0x13 == 0) && position == m 0x12 + 256 * m 0x13)

abbrev pub when : Bool → (Passing → Chip → Passing × Chip) → Passing → Chip → Passing × Chip
when b go d c = if b then go d c else (d, c)

-- An auto-increment command: the position is raised after it.
abbrev pub passed_on : Passing × Chip → Passing × Chip
passed_on (d, c) = (next_position d, c)

unfoldable pub process_request : Clocks → Passing → Chip → Passing × Chip
process_request dc d c =
    let k = d.header.command in
    let here = position_of d.header.address == 0 in
    let mine = matches_address c.memory (position_of d.header.address) in
    if k == Command.aprd
    then passed_on (when here (process_read dc) d c)
    else if k == Command.apwr
    then passed_on (when here (process_write dc) d c)
    else if k == Command.aprw
    then passed_on (when here (process_read_write dc) d c)
    else if k == Command.fprd
    then when mine (process_read dc) d c
    else if k == Command.fpwr
    then when mine (process_write dc) d c
    else if k == Command.fprw
    then when mine (process_read_write dc) d c
    else if k == Command.brd
    then passed_on (process_broadcast_read dc d c)
    else if k == Command.bwr
    then passed_on (process_write dc d c)
    else if k == Command.brw
    then passed_on (process_broadcast_read_write dc d c)
    else if k == Command.lrd
    then process_lrd dc d c
    else if k == Command.lwr
    then process_lwr dc d c
    else if k == Command.lrw
    then process_lrw dc d c
    else if k == Command.armw
    then passed_on (if here then process_read dc d c else process_write dc d c)
    else if k == Command.frmw
    then (if mine then process_read dc d c else process_write dc d c)
    else (d, c)
