-- ===== src/Emulated/Chip/Registers.antt =====
-- The memory of the chip, its sync managers, and computeInternalMemoryAccess.
use kick_cat.Base.{
  ℕ, zero, suc, ◌+◌, ◌-◌, ◌*◌, ◌/◌, ◌%◌, Bool, true, false, not, ◌&&◌, ◌||◌, ◌==◌, ltb, leb,
  if◌then◌else◌, List, [], ◌∷◌, Option, none, some, min,
}
use kick_cat.Base.Lists.{length, take, get_or}

abbrev pub Memory : Type 0
Memory = ℕ → ℕ

-- `n` bytes from an address on.
abbrev pub load : Memory → ℕ → ℕ → List ℕ
load m a zero = []
load m a (suc n) = m a ∷ load m (a + 1) n

-- The bytes from an address on.
abbrev pub store : ℕ → List ℕ → Memory → Memory
store a bytes m x = if leb a x && ltb x (a + length bytes) then get_or bytes (x - a) 0 else m x

abbrev pub set_byte : ℕ → ℕ → Memory → Memory
set_byte a v m x = if x == a then v else m x

pub data Access : Type 0 where
  pdi_read : Access
  pdi_write : Access
  ecat_read : Access
  ecat_write : Access

-- A sync manager that is in use; `number` finds its registers.
pub record Sm : Type 0 where
  pub is_written_by_master : Bool
  pub address : ℕ
  pub size : ℕ
  pub number : ℕ

pub record Fmmu : Type 0 where
  pub logical_address : ℕ
  pub physical : ℕ
  pub bit_length : ℕ
  pub logical_start_bit : ℕ
  pub physical_start_bit : ℕ
  pub is_input : Bool

pub record Chip : Type 0 where
  pub memory : Memory
  pub syncs : List Sm
  pub fmmus : List Fmmu
  pub has_output_fmmu : Bool
  pub last_logical_write : ℕ

-- The registers of sync manager `i`: control and status.
abbrev pub sm_control : ℕ → ℕ
sm_control i = 0x804 + 8 * i

abbrev pub sm_status : ℕ → ℕ
sm_status i = 0x805 + 8 * i

-- SM_STATUS_MAILBOX in the byte of the status.
abbrev pub has_mail : ℕ → Bool
has_mail status = status / 8 % 2 == 1

abbrev pub set_mail : ℕ → ℕ
set_mail status = if has_mail status then status else status + 8

abbrev pub clear_mail : ℕ → ℕ
clear_mail status = if has_mail status then status - 8 else status

abbrev pub is_write : Access → Bool
is_write pdi_read = false
is_write pdi_write = true
is_write ecat_read = false
is_write ecat_write = true

-- access & sync.access
abbrev pub grants : Sm → Access → Bool
grants s pdi_read = s.is_written_by_master
grants s pdi_write = not s.is_written_by_master
grants s ecat_read = not s.is_written_by_master
grants s ecat_write = s.is_written_by_master

-- The value of an access: a negated error number, or the bytes that were read or written.
pub data Outcome : Type 0 where
  failed : ℕ → Outcome
  moved : List ℕ → Outcome

abbrev pub eagain : ℕ
eagain = 11

abbrev pub eacces : ℕ
eacces = 13

-- What the copy does: bytes out of the memory, or into it.
abbrev pub transfer : Access → ℕ → List ℕ → ℕ → Memory → Outcome × Memory
transfer a address buffer n m =
    if is_write a
    then (moved (take n buffer), store address (take n buffer) m)
    else (moved (load m address n), m)

-- Whether the area of the sync manager holds the access.
abbrev pub contains : Sm → ℕ → ℕ → Bool
contains s address n = leb s.address address && leb (address + n) (s.address + s.size)

-- An access through a sync manager: a mailbox is read when it is full and written when it is empty.
-- The last byte of the area changes that.
unfoldable pub sm_access : Sm → Access → ℕ → List ℕ → ℕ → ℕ → Memory → Outcome × Memory
sm_access s a address buffer size n m =
    let status = m (sm_status s.number) in
    let is_mailbox = not (m (sm_control s.number) % 4 == 0) in
    let is_last = address + size == s.address + s.size in
    let (result, m') = transfer a address buffer n m in
    let after = if is_write a then set_mail (m' (sm_status s.number)) else clear_mail status in
    if is_mailbox && (if is_write a then has_mail status else not (has_mail status))
    then (failed eagain, m)
    else (result, if is_last then set_byte (sm_status s.number) after m' else m')

unfoldable pub find_sm : List Sm → Access → ℕ → ℕ → Option Sm
find_sm [] a address n = none
find_sm (s ∷ ss) a address n =
    let rest = find_sm ss a address n in if grants s a && contains s address n then some s else rest

-- The PDI reads output images and writes input images.
abbrev pub serves : Access → Bool → Bool
serves pdi_read is_input = not is_input
serves pdi_write is_input = is_input
serves ecat_read is_input = false
serves ecat_write is_input = false

unfoldable pub in_fmmu : List Fmmu → Access → ℕ → ℕ → Bool
in_fmmu [] a address n = false
in_fmmu (f ∷ fs) a address n =
    (serves a f.is_input
      && leb f.physical address
      && leb (address + n) (f.physical + f.bit_length / 8))
    || in_fmmu fs a address n

-- The RAM needs a sync manager or an FMMU; the registers are below it.
unfoldable pub memory_access : Access → ℕ → List ℕ → ℕ → Chip → Outcome × Chip
memory_access a address buffer size c =
    let n = min size (65535 - address) in
    let (r, m) = transfer a address buffer n c.memory in
    let (r', m') = transfer a address buffer (min size (0x1000 - address)) c.memory in
    let outside =
      if in_fmmu c.fmmus a address n then (r, record c { memory = m }) else (failed eacces, c) in
    if leb 0x1000 address
    then (elim (find_sm c.syncs a address n) [
      | some s ↦
          let (q, mem) = sm_access s a address buffer size n c.memory in
          (q, record c { memory = mem })
      | none ↦ outside
    ])
    else (r', record c { memory = m' })
