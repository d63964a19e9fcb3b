-- ===== src/Slave/Esc.antt =====
-- lib/slave/src/AbstractESC.cc: the sync manager operations of an ESC. `read` and `write` are
-- virtual in the source; here the registers hold what was last written to them, so the loops that
-- poll `pdi_control` end at their first read. Process memory is a function of the address, apart
-- from the registers, which lie below it.
use kick_cat.Base.{
  ℕ, zero, suc, ◌+◌, Bool, true, false, ◌&&◌, not, bit_and, bit_or, ◌==◌, if◌then◌else◌, List, [],
  ◌∷◌, Option, none, some,
}

pub record SmRegister : Type 0 where
  pub start_address : ℕ
  pub length : ℕ
  pub control : ℕ
  pub status : ℕ
  pub activate : ℕ
  pub pdi_control : ℕ

pub data SmType : Type 0 where
  unused mailbox_out mailbox_in output input : SmType

pub record SmConfig : Type 0 where
  pub index : ℕ
  pub start_address : ℕ
  pub length : ℕ
  pub control : ℕ
  pub type : SmType

abbrev pub is_used : SmConfig → Bool
is_used c = elim c.type [ unused ↦ false | _ ↦ true ]

abbrev pub no_config : SmConfig
no_config = record { index = 0; start_address = 0; length = 0; control = 0; type = unused }

abbrev pub pi_in : ℕ → ℕ → ℕ → SmConfig
pi_in i a l = record { index = i; start_address = a; length = l; control = 0x20; type = input }

abbrev pub pi_out : ℕ → ℕ → ℕ → SmConfig
pi_out i a l = record { index = i; start_address = a; length = l; control = 0x64; type = output }

abbrev pub mbx_in : ℕ → ℕ → ℕ → SmConfig
mbx_in i a l = record {
  index = i;
  start_address = a;
  length = l;
  control = 0x02;
  type = mailbox_in;
}

abbrev pub mbx_out : ℕ → ℕ → ℕ → SmConfig
mbx_out i a l = record {
  index = i;
  start_address = a;
  length = l;
  control = 0x06;
  type = mailbox_out;
}

-- A write to one of the AL registers.
pub data AlWrite : Type 0 where
  status_code : ℕ → AlWrite
  status : ℕ → AlWrite

pub record Esc : Type 0 where
  pub al_control : ℕ
  pub wdog_status : ℕ
  pub al_status : ℕ
  pub al_status_code : ℕ
  pub al_writes : List AlWrite  -- oldest first
  pub sms : ℕ → SmRegister
  pub memory : ℕ → ℕ

-- SM_CONTROL_MODE_* and SM_CONTROL_DIRECTION_*
abbrev pub mode_buffered : ℕ
mode_buffered = 0x00

abbrev pub mode_mailbox : ℕ
mode_mailbox = 0x02

abbrev pub direction_read : ℕ
direction_read = 0x00

abbrev pub direction_write : ℕ
direction_write = 0x04

-- reg::SM_STATS
abbrev pub sm_stats : ℕ
sm_stats = 5

-- The loop of `findSm` with `n` sync managers left, from index `i`; `none` is the exception.
find_from : (ℕ → SmRegister) → ℕ → ℕ → ℕ → Option (ℕ × SmRegister)
find_from sms mode i zero = none
find_from sms mode i (suc n) =
    let rest = find_from sms mode (i + 1) n in
    if bit_and (sms i).control 0x0f == bit_and mode 0x0f then some (i, sms i) else rest

unfoldable pub find_sm : Esc → ℕ → Option (ℕ × SmRegister)
unfolding find_from
find_sm esc mode = find_from esc.sms mode 0 sm_stats

unfoldable pub is_sm_valid : Esc → SmConfig → Bool
is_sm_valid esc ref =
    let sm = esc.sms ref.index in
    sm.start_address == ref.start_address
    && (sm.length == ref.length)
    && (bit_and sm.control 0x03 == bit_and ref.control 0x03)
    && (bit_and sm.control 0x0c == bit_and ref.control 0x0c)
    && not (bit_and sm.activate 0x01 == 0)

abbrev pub set_pdi_control : Esc → ℕ → ℕ → Esc
set_pdi_control esc i v = record esc {
  sms = λ j. if j == i then (record (esc.sms j) { pdi_control = v }) else esc.sms j;
}

unfoldable pub activate_sm : Esc → SmConfig → Esc
activate_sm esc c = set_pdi_control esc c.index (bit_and (esc.sms c.index).pdi_control 0xfe)

unfoldable pub deactivate_sm : Esc → SmConfig → Esc
deactivate_sm esc c = set_pdi_control esc c.index (bit_or (esc.sms c.index).pdi_control 0x01)

unfoldable pub set_sm_activate : Esc → List SmConfig → Bool → Esc
set_sm_activate esc [] on = esc
set_sm_activate esc (c ∷ cs) on =
    set_sm_activate (if on then activate_sm esc c else deactivate_sm esc c) cs on

-- `read` and `write` of process memory.
unfoldable pub read_memory : (ℕ → ℕ) → ℕ → ℕ → List ℕ
read_memory memory a zero = []
read_memory memory a (suc n) = memory a ∷ read_memory memory (a + 1) n

unfoldable pub write_memory : (ℕ → ℕ) → ℕ → List ℕ → ℕ → ℕ
write_memory memory a [] = memory
write_memory memory a (b ∷ bs) = write_memory (λ j. if j == a then b else memory j) (a + 1) bs
