-- ===== src/Emulated/Chip/Tests.antt =====
-- A chip with one mailbox of three bytes, and the witness of the theorem on mailboxes.
use kick_cat.Base.{◌≡◌, ◌==◌, refl, true, false, if◌then◌else◌, [], ◌∷◌, arith}
use kick_cat.Emulated.Chip.Registers.{
  Memory, Sm, Fmmu, Chip, pdi_read, ecat_write, failed, moved, eagain, memory_access,
}
use kick_cat.Emulated.Chip.Fmmu.{Copy, copy_bits, copy_bytes}
use kick_cat.Emulated.Chip.Fmmu.Equivalence.{copy_bits-copy_bytes}
use kick_cat.Emulated.Chip.Mailbox.{IsMailbox, mailbox_handshake}

abbrev mailbox : Sm
mailbox = record { is_written_by_master = true; address = 0x1000; size = 3; number = 0 }

-- Only the control of the first sync manager is set.
abbrev start_memory : Memory
start_memory x = if x == 0x804 then 0x26 else 0

abbrev chip : Chip
chip = record {
  memory = start_memory;
  syncs = mailbox ∷ [];
  fmmus = [];
  has_output_fmmu = false;
  last_logical_write = 0;
}

mailbox-IsMailbox : IsMailbox mailbox [] chip
mailbox-IsMailbox = record {
  is_first = refl;
  written = refl;
  in_ram = omega arith;
  in_memory = omega arith;
  registers = omega arith;
  is_mailbox = ground arith;
}

mailbox_handshake_example :
    let (taken, c1) = memory_access ecat_write 0x1000 (1 ∷ 2 ∷ 3 ∷ []) 3 chip in
    let (given, c2) = memory_access pdi_read 0x1000 [] 3 c1 in
    (taken ≡ moved (1 ∷ 2 ∷ 3 ∷ []))
    × (memory_access ecat_write 0x1000 (7 ∷ 8 ∷ 9 ∷ []) 3 c1 ≡ (failed eagain, c1))
    × (given ≡ moved (1 ∷ 2 ∷ 3 ∷ []))
    × (memory_access pdi_read 0x1000 [] 3 c2 ≡ (failed eagain, c2))
mailbox_handshake_example =
    mailbox_handshake mailbox [] chip (1 ∷ 2 ∷ 3 ∷ []) (7 ∷ 8 ∷ 9 ∷ []) mailbox-IsMailbox refl refl

-- Two bytes of the memory at 0x1100, mapped at the logical address 4, and a datagram of the
-- logical addresses 4 and 5.
abbrev two_bytes : Fmmu
two_bytes = record {
  logical_address = 4;
  physical = 0x1100;
  bit_length = 16;
  logical_start_bit = 0;
  physical_start_bit = 0;
  is_input = true;
}

abbrev before_copy : Copy
before_copy = record { frame = λ a. 7; memory = λ a. 9; hit = false }

copy_bits-copy_bytes_example :
    copy_bits 16 two_bytes true 4 6 0 before_copy ≡ copy_bytes two_bytes true 4 6 before_copy
copy_bits-copy_bytes_example =
    copy_bits-copy_bytes two_bytes true 4 6 before_copy refl (omega arith) (λ a. omega arith)
      (λ a. omega arith)
