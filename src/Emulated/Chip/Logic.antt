-- ===== src/Emulated/Chip/Logic.antt =====
-- processInternalLogic of lib/slave/src/ESC/EmulatedESC.cc: what the chip does by itself after each
-- datagram. What now() returns is an argument, one reading per place.
use kick_cat.Base.{
  ℕ, zero, suc, ◌+◌, ◌-◌, ◌*◌, ◌/◌, ◌%◌, Bool, false, not, ◌&&◌, ◌||◌, ◌==◌, ltb, leb,
  if◌then◌else◌, List, [], ◌∷◌, ◌++◌, bit_and, bit_or,
}
use kick_cat.Base.Lists.{length, replicate, blit, get_or}
use kick_cat.Base.Bytes.{put16}
use kick_cat.Emulated.Chip.Commands.{Clocks, Passing, process_request}
use kick_cat.Emulated.Chip.Registers.{Memory, Sm, Fmmu, Chip, store}

abbrev pub read16 : ℕ → Memory → ℕ
read16 a m = m a + 256 * m (a + 1)

abbrev pub read32 : ℕ → Memory → ℕ
read32 a m = m a + 256 * m (a + 1) + 65536 * m (a + 2) + 16777216 * m (a + 3)

abbrev pub write16 : ℕ → ℕ → Memory → Memory
write16 a v = store a (put16 v)

abbrev pub write8 : ℕ → ℕ → Memory → Memory
write8 a v = store a (v % 256 ∷ [])

-- Addresses of registers in the memory.
abbrev pub al_control : ℕ
al_control = 0x120

abbrev pub al_status : ℕ
al_status = 0x130

abbrev pub al_status_code : ℕ
al_status_code = 0x134

abbrev pub esc_configuration : ℕ
esc_configuration = 0x141

abbrev pub watchdog_divider : ℕ
watchdog_divider = 0x400

abbrev pub watchdog_time_process_data : ℕ
watchdog_time_process_data = 0x420

abbrev pub watchdog_status : ℕ
watchdog_status = 0x440

abbrev pub watchdog_counter : ℕ
watchdog_counter = 0x442

abbrev pub eeprom_control : ℕ
eeprom_control = 0x502

abbrev pub eeprom_address : ℕ
eeprom_address = 0x504

abbrev pub eeprom_data : ℕ
eeprom_data = 0x508

-- The chip with its EEPROM, which is a list of words.
pub record Board : Type 0 where
  pub chip : Chip
  pub eeprom : List ℕ
  pub last_write : ℕ

pub record Ticks : Type 0 where
  pub configured : ℕ
  pub is_busy : ℕ
  pub is_early : ℕ
  pub written : ℕ
  pub checked : ℕ

abbrev pub on_memory : (Memory → Memory) → Board → Board
on_memory f b = record b { chip = record b.chip { memory = f b.chip.memory } }

-- loadEeprom: the configuration and the station alias, unless there are too few words.
unfoldable pub load_eeprom : Board → Board
load_eeprom b =
    if leb (length b.eeprom) 4
    then b
    else on_memory
        (λ m.
          write16 0x12 (get_or b.eeprom 4 0)
            (write8 esc_configuration (get_or b.eeprom 0 0 / 256) m))
        b

-- configureSMs: the active sync managers that are mailboxes.
unfoldable pub configure_sms : ℕ → ℕ → Memory → List Sm
configure_sms zero i m = []
configure_sms (suc n) i m =
    let base = 0x800 + 8 * i in
    let rest = configure_sms n (i + 1) m in
    if m (base + 6) == 0 || m (base + 4) % 4 == 0
    then rest
    else record {
      is_written_by_master = m (base + 4) / 4 % 2 == 1;
      address = read16 base m;
      size = read16 (base + 2) m;
      number = i;
    }
      ∷ rest

-- configureFmmus: the active FMMUs that are well formed and stay in the memory. `length - 1` is
-- unsigned.
unfoldable pub configure_fmmus : ℕ → ℕ → Memory → List Fmmu
configure_fmmus zero i m = []
configure_fmmus (suc n) i m =
    let base = 0x600 + 16 * i in
    let rest = configure_fmmus n (i + 1) m in
    let start_bit = m (base + 6) in
    let stop_bit = m (base + 7) in
    let kind = m (base + 11) in
    let bits = ((read16 (base + 4) m + 4294967295) * 8 + (stop_bit + 1 - start_bit)) % 4294967296 in
    let bytes = (m (base + 10) + bits + 7) % 4294967296 / 8 in
    if m (base + 12) == 0
      || not (kind == 1 || kind == 2)
      || ltb stop_bit start_bit
      || ltb 65536 (read16 (base + 8) m + bytes)
    then rest
    else record {
      logical_address = read32 base m;
      physical = read16 (base + 8) m;
      bit_length = bits;
      logical_start_bit = start_bit;
      physical_start_bit = m (base + 10);
      is_input = kind == 1;
    }
      ∷ rest

unfoldable pub has_output : List Fmmu → Bool
has_output [] = false
has_output (f ∷ fs) = not f.is_input || has_output fs

-- A change of state from INIT to PRE_OP, or from PRE_OP to SAFE_OP, configures the chip.
unfoldable pub follow_state : Ticks → Board → Board
unfolding configure_sms configure_fmmus has_output
follow_state t b =
    let m = b.chip.memory in
    let before = read16 al_status m % 16 in
    let current = read16 al_control m % 16 in
    let fmmus = configure_fmmus 16 0 m in
    if read16 al_control m == read16 al_status m
    then b
    else if current == 2 && before == 1
    then record b { chip = record b.chip { syncs = configure_sms 16 0 m } }
    else if current == 4 && before == 2
    then record b {
      chip = record b.chip {
        fmmus = fmmus;
        has_output_fmmu = has_output fmmus;
        last_logical_write = t.configured;
      };
    }
    else b

-- Device emulation: the status follows the control, but an error of the chip waits for the master.
unfoldable pub mirror_status : Memory → Memory
mirror_status m =
    let control = read16 al_control m in
    let status = read16 al_status m in
    if m esc_configuration % 2 == 0
    then m
    else if status / 16 % 2 == 1
    then (if control / 16 % 2 == 1 then write16 al_status (bit_and control 0xFFEF) m else m)
    else write16 al_status control m

-- The commands in bits 8 to 10 of the EEPROM control.
abbrev pub clear_order : ℕ → ℕ
clear_order c = bit_and c 0xF8FF

unfoldable pub eeprom_read : Board → Board
eeprom_read b =
    let m = b.chip.memory in
    let a = read32 eeprom_address m in
    let bytes =
      if leb ((a + 2) % 4294967296) (length b.eeprom)
      then put16 (get_or b.eeprom a 0) ++ put16 (get_or b.eeprom (a + 1) 0)
      else replicate 8 255 in
    on_memory
      (λ k.
        write16 eeprom_control (clear_order (read16 eeprom_control m)) (store eeprom_data bytes k))
      b

-- A write needs its enable bit, and 4 ms since the last one.
unfoldable pub eeprom_write : Ticks → Board → Board
eeprom_write t b =
    let m = b.chip.memory in
    let c = read16 eeprom_control m in
    let a = read32 eeprom_address m in
    let words =
      if leb (length b.eeprom) a
      then b.eeprom ++ replicate (a + 1 - length b.eeprom) 0xFFFF
      else b.eeprom in
    let cleared = clear_order c in
    let flagged =
      if ltb (t.is_busy - b.last_write) 2000000 then bit_or cleared 0x8000 else cleared in
    if c % 2 == 0
    then on_memory (write16 eeprom_control (bit_or (clear_order c) 0x4000)) b
    else if ltb (t.is_early - b.last_write) 4000000
    then record (on_memory (write16 eeprom_control (bit_or flagged 0x2000)) b) { eeprom = words }
    else record (on_memory (write16 eeprom_control (bit_and (clear_order flagged) 0xFFFE)) b) {
      eeprom = blit a (read16 eeprom_data m ∷ []) words;
      last_write = t.written;
    }

unfoldable pub eeprom_order : Ticks → Board → Board
unfolding eeprom_read eeprom_write load_eeprom
eeprom_order t b =
    let c = read16 eeprom_control b.chip.memory in
    let order = bit_and c 0x0700 in
    if order == 0x0100
    then eeprom_read b
    else if order == 0x0200
    then eeprom_write t b
    else if order == 0
    then on_memory (write16 eeprom_control (bit_and c 0x9FFF)) b
    else if order == 0x0400
    then on_memory (λ m. write16 eeprom_control (clear_order (read16 eeprom_control m)) m)
        (load_eeprom b)
    else b

-- The process data watchdog, in nanoseconds.
abbrev pub pdo_watchdog : Memory → ℕ
pdo_watchdog m = read16 watchdog_time_process_data m * ((read16 watchdog_divider m + 2) * 40)

-- The watchdog has run out: the counter, and the fallback of the device emulation.
unfoldable pub trip : Memory → Memory
trip m =
    let m1 = write16 watchdog_status 0 m in
    let m2 =
      if ltb (m1 watchdog_counter) 255
      then write8 watchdog_counter (m1 watchdog_counter + 1) m1
      else m1 in
    let fallback = bit_or (bit_or (bit_and (read16 al_status m2) 0xFFF0) 4) 16 in
    if m2 esc_configuration % 2 == 1
    then write16 al_status_code 0x1B (write16 al_status fallback m2)
    else m2

unfoldable pub check_watchdog : Ticks → Chip → Chip
unfolding trip
check_watchdog t c =
    let m = c.memory in
    let delay = pdo_watchdog m in
    if not c.has_output_fmmu || delay == 0
    then c
    else if ltb t.checked (c.last_logical_write + delay)
    then record c { memory = write16 watchdog_status 1 m }
    else if read16 watchdog_status m == 1
    then record c { memory = trip m }
    else c

unfoldable pub process_internal_logic : Ticks → Board → Board
unfolding follow_state mirror_status eeprom_order check_watchdog
process_internal_logic t b =
    let b1 = on_memory mirror_status (follow_state t b) in
    let b2 = eeprom_order t b1 in record b2 { chip = check_watchdog t b2.chip }

-- processDatagram: the command, then the internal logic.
unfoldable pub process_datagram : Clocks → Ticks → Passing → Board → Passing × Board
unfolding process_internal_logic
process_datagram dc t d b =
    let (d', c) = process_request dc d b.chip in
    (d', process_internal_logic t (record b { chip = c }))
