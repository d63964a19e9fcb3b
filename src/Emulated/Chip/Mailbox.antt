-- ===== src/Emulated/Chip/Mailbox.antt =====
-- A mailbox of the emulated chip hands a whole message from one side to the other.
use kick_cat.Base.{
  ℕ, suc, ◌+◌, ◌-◌, ◌%◌, ◌≤◌, ◌<◌, ◌≡◌, ◌≢◌, refl, sym, ap, ap₂, ◌∙◌, true, false, ◌==◌, List, [],
  ◌∷◌, arith, min, some, le→leb, ==_self, lt→ltb, ==_ne,
}
use kick_cat.Base.Lists.{length, take, get_or, take_all}
use kick_cat.Emulated.Chip.Registers.{
  Memory, Sm, Chip, Access, pdi_read, ecat_write, Outcome, failed, moved, eagain, memory_access,
  sm_access, find_sm, load, store, set_byte, sm_status, sm_control, has_mail, set_mail, clear_mail,
  grants,
}

-- The first sync manager of the chip is a mailbox that the master writes, in the RAM.
pub record IsMailbox (s : Sm) (rest : List Sm) (c : Chip) : Type 0 where
  pub is_first : c.syncs ≡ s ∷ rest
  pub written : s.is_written_by_master ≡ true
  pub in_ram : 0x1000 ≤ s.address
  pub in_memory : s.address + s.size ≤ 65535
  pub registers : s.number < 16
  pub is_mailbox : c.memory (sm_control s.number) % 4 ≢ 0

load-eq :
    (f : Memory) (bytes : List ℕ) (a : ℕ)
    → ((i : ℕ) → i < length bytes → f (a + i) ≡ get_or bytes i 0)
    → load f a (length bytes) ≡ bytes
load-eq f [] a h = refl
load-eq f (b ∷ bytes) a h =
    let e : a + 0 ≡ a = omega arith in
    ap₂ (λ c cs. c ∷ cs) (ap f (sym e) ∙ h 0 (omega arith))
      (load-eq f bytes (a + 1)
        (λ i k. let e : a + 1 + i ≡ a + suc i = omega arith in ap f e ∙ h (suc i) (omega arith)))

set_byte-same : (a v : ℕ) (m : Memory) → set_byte a v m a ≡ v
set_byte-same a v m = ground arith

mail_set : (v : ℕ) → has_mail v ≡ false → has_mail (set_mail v) ≡ true
mail_set v h = ground arith

mail_cleared : (v : ℕ) → has_mail v ≡ true → has_mail (clear_mail v) ≡ false
mail_cleared v h = ground arith

-- The memory after the whole mailbox has been written, and after it has been read.
abbrev filled : Sm → List ℕ → Memory → Memory
filled s bytes m =
    set_byte (sm_status s.number) (set_mail (m (sm_status s.number))) (store s.address bytes m)

abbrev emptied : Sm → Memory → Memory
emptied s m = set_byte (sm_status s.number) (clear_mail (m (sm_status s.number))) m

module _ (s : Sm) (m : Memory) (in_ram : 0x1000 ≤ s.address) (few : s.number < 16)
    (mailbox : m (sm_control s.number) % 4 ≢ 0) where
  control_on : (m (sm_control s.number) % 4 == 0) ≡ false
  control_on = ==_ne _ 0 mailbox

  write_empty :
      (bytes : List ℕ)
      → length bytes ≡ s.size
      → has_mail (m (sm_status s.number)) ≡ false
      → sm_access s ecat_write s.address bytes s.size s.size m ≡ (moved bytes, filled s bytes m)
  unfolding sm_access
  write_empty bytes n free =
      let t : take s.size bytes ≡ bytes = take_all s.size bytes (omega arith) in
      let last : (s.address + s.size == s.address + s.size) ≡ true = ==_self _ _ refl in
      let low : store s.address bytes m (sm_status s.number) ≡ m (sm_status s.number) =
        ground arith in
      rw (control_on, t, last, low, free) refl

  write_full :
      (bytes : List ℕ)
      → has_mail (m (sm_status s.number)) ≡ true
      → sm_access s ecat_write s.address bytes s.size s.size m ≡ (failed eagain, m)
  unfolding sm_access
  write_full bytes full = rw (control_on, full) refl

  read_full :
      has_mail (m (sm_status s.number)) ≡ true
      → sm_access s pdi_read s.address [] s.size s.size m
        ≡ (moved (load m s.address s.size), emptied s m)
  unfolding sm_access
  read_full full =
      let last : (s.address + s.size == s.address + s.size) ≡ true = ==_self _ _ refl in
      rw (control_on, full, last) refl

  read_empty :
      has_mail (m (sm_status s.number)) ≡ false
      → sm_access s pdi_read s.address [] s.size s.size m ≡ (failed eagain, m)
  unfolding sm_access
  read_empty free = rw (control_on, free) refl

-- An access to the whole mailbox goes through its sync manager.
module _ (s : Sm) (rest : List Sm) (c : Chip) (v : IsMailbox s rest c) where
  first_found : (a : Access) → grants s a ≡ true → find_sm (s ∷ rest) a s.address s.size ≡ some s
  unfolding find_sm
  first_found a g =
      rw
        (
          g,
          le→leb s.address s.address (omega arith),
          le→leb (s.address + s.size) (s.address + s.size) (omega arith),
        )
        refl

  whole_access :
      (a : Access) (buffer : List ℕ)
      → grants s a ≡ true
      → let (q, m) = sm_access s a s.address buffer s.size s.size c.memory in
        memory_access a s.address buffer s.size c ≡ (q, record c { memory = m })
  unfolding memory_access
  whole_access a buffer g =
      let n : min s.size (65535 - s.address) ≡ s.size = omega (arith, v.in_memory) in
      let found : find_sm c.syncs a s.address s.size ≡ some s =
        ap (λ ss. find_sm ss a s.address s.size) v.is_first ∙ first_found a g in
      rw (n, found, le→leb 0x1000 s.address v.in_ram) (rw n refl)

-- What the registers and the area of the mailbox hold after these accesses.
module _ (s : Sm) (m : Memory) (message : List ℕ) (in_ram : 0x1000 ≤ s.address)
    (few : s.number < 16) (n : length message ≡ s.size) where
  control-filled : filled s message m (sm_control s.number) ≡ m (sm_control s.number)
  control-filled = ground arith

  status-filled : filled s message m (sm_status s.number) ≡ set_mail (m (sm_status s.number))
  status-filled = ground arith

  load-filled : load (filled s message m) s.address s.size ≡ message
  load-filled =
      ap (load (filled s message m) s.address) (sym n)
      ∙ load-eq (filled s message m) message s.address (λ i h.
        let e : s.address + i - s.address ≡ i = omega arith in
        let no_status : (s.address + i == sm_status s.number) ≡ false = ground arith in
        rw
          (
            no_status,
            le→leb s.address (s.address + i) (omega arith),
            lt→ltb (s.address + i) (s.address + length message) (omega arith),
            e,
          )
          refl)

IsMailbox-memory :
    (s : Sm) (rest : List Sm) (c : Chip) (m : Memory)
    → IsMailbox s rest c
    → m (sm_control s.number) ≡ c.memory (sm_control s.number)
    → IsMailbox s rest (record c { memory = m })
IsMailbox-memory s rest c m v e = record {
  is_first = v.is_first;
  written = v.written;
  in_ram = v.in_ram;
  in_memory = v.in_memory;
  registers = v.registers;
  is_mailbox = λ z. v.is_mailbox (ap (λ (k : ℕ). k % 4) (sym e) ∙ z);
}

abbrev landed : Chip → Outcome × Memory → Outcome × Chip
landed k (q, m) = (q, record k { memory = m })

abbrev delivered : Chip → List ℕ → Outcome × Chip
delivered k bytes = (moved bytes, k)

-- A mailbox that the master writes, and a message of its size. When it is empty, the write of the
-- master is taken; then a second write is refused and changes nothing; the slave reads the very
-- message; and a second read is refused and changes nothing.
pub mailbox_handshake :
    (s : Sm) (rest : List Sm) (c : Chip) (message other : List ℕ)
    → IsMailbox s rest c
    → length message ≡ s.size
    → has_mail (c.memory (sm_status s.number)) ≡ false
    → let (taken, c1) = memory_access ecat_write s.address message s.size c in
      let (given, c2) = memory_access pdi_read s.address [] s.size c1 in
      (taken ≡ moved message)
      × (memory_access ecat_write s.address other s.size c1 ≡ (failed eagain, c1))
      × (given ≡ moved message)
      × (memory_access pdi_read s.address [] s.size c2 ≡ (failed eagain, c2))
mailbox_handshake s rest c message other v n free =
    let m = c.memory in
    let m1 = filled s message m in
    let c1 : Chip = record c { memory = m1 } in
    let m2 = emptied s m1 in
    let c2 : Chip = record c { memory = m2 } in
    let control1 = control-filled s m message v.in_ram v.registers n in
    let control2 : m2 (sm_control s.number) ≡ m1 (sm_control s.number) = ground arith in
    let v1 = IsMailbox-memory s rest c m1 v control1 in
    let v2 = IsMailbox-memory s rest c m2 v (control2 ∙ control1) in
    let full : has_mail (m1 (sm_status s.number)) ≡ true =
      ap has_mail (status-filled s m message v.in_ram v.registers n) ∙ mail_set _ free in
    let empty : has_mail (m2 (sm_status s.number)) ≡ false =
      ap has_mail (set_byte-same (sm_status s.number) _ m1) ∙ mail_cleared _ full in
    let pdi : grants s pdi_read ≡ true = v.written in
    let first : memory_access ecat_write s.address message s.size c ≡ (moved message, c1) =
      whole_access s rest c v ecat_write message v.written
      ∙ ap (landed c) (write_empty s m v.in_ram v.registers v.is_mailbox message n free) in
    let again =
      whole_access s rest c1 v1 ecat_write other v.written
      ∙ ap (landed c1) (write_full s m1 v.in_ram v.registers v1.is_mailbox other full) in
    let second : memory_access pdi_read s.address [] s.size c1 ≡ (moved message, c2) =
      whole_access s rest c1 v1 pdi_read [] pdi
      ∙ ap (landed c1) (read_full s m1 v.in_ram v.registers v1.is_mailbox full)
      ∙ ap (delivered c2) (load-filled s m message v.in_ram v.registers n) in
    let last =
      whole_access s rest c2 v2 pdi_read [] pdi
      ∙ ap (landed c2) (read_empty s m2 v.in_ram v.registers v2.is_mailbox empty) in
    rw first (rw second (refl, again, refl, last))
