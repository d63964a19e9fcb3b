-- ===== src/Slave/Esm.antt =====
-- The EtherCAT state machine of a slave: lib/slave/src/ESM.cc, lib/slave/src/ESMStates.cc and their
-- headers. The four state objects share the ESC, the process data, the mailbox and the dictionary
-- (lib/slave/src/slave/Slave.cc), which are fields of one record; `play` is one call of play().
pub mod Status
pub mod Registers
pub mod Invariant
pub mod Transitions
pub mod Outputs
pub mod Errors
pub mod Run
mod Tests
use kick_cat.Base.{
  ℕ, ◌%◌, Bool, true, false, ◌&&◌, ◌||◌, not, bit_and, bit_or, ◌==◌, ltb, if◌then◌else◌, List, [],
  ◌∷◌, ◌++◌, Option, none, some,
}
use kick_cat.Slave.Esc.{Esc, AlWrite}
use kick_cat.Slave.Pdo
use kick_cat.Slave.Pdo.{Pdo}
use kick_cat.Slave.Mbx
use kick_cat.Slave.Mbx.{Mbx, Configured}

-- enum State; the low nibble of AL_CONTROL and AL_STATUS.
abbrev pub init_code : ℕ
init_code = 0x01

abbrev pub pre_op_code : ℕ
pre_op_code = 0x02

abbrev pub boot_code : ℕ
boot_code = 0x03

abbrev pub safe_op_code : ℕ
safe_op_code = 0x04

abbrev pub operational_code : ℕ
operational_code = 0x08

abbrev pub error_ack : ℕ
error_ack = 0x10

-- enum StatusCode, as far as the state machine uses it.
abbrev pub no_error : ℕ
no_error = 0

abbrev pub invalid_requested_state_change : ℕ
invalid_requested_state_change = 0x11

abbrev pub unknown_requested_state : ℕ
unknown_requested_state = 0x12

abbrev pub bootstrap_not_supported : ℕ
bootstrap_not_supported = 0x13

abbrev pub invalid_mailbox_configuration_preop : ℕ
invalid_mailbox_configuration_preop = 0x16

abbrev pub sync_manager_watchdog : ℕ
sync_manager_watchdog = 0x1b

-- The state objects that Slave registers.
pub data StateId : Type 0 where
  init pre_op safe_op op : StateId

abbrev pub id : StateId → ℕ
id init = init_code
id pre_op = pre_op_code
id safe_op = safe_op_code
id op = operational_code

pub record Context : Type 0 where
  pub al_status : ℕ
  pub al_status_code : ℕ
  pub al_watchdog_process_data : ℕ
  pub is_valid_output_data : Bool

-- `value & MASK_STATE`
abbrev pub state_of : ℕ → ℕ
state_of value = bit_and value 0x0f

-- `value & ERROR_ACK`, as a test
abbrev pub has_error_bit : ℕ → Bool
has_error_bit value = not (bit_and value 0x10 == 0)

-- `not (al_watchdog_process_data & 0x1)`
abbrev pub has_expired_watchdog : Context → Bool
has_expired_watchdog c = bit_and c.al_watchdog_process_data 0x01 == 0

-- `Context::build`; both parameters are uint8_t.
unfoldable pub build : ℕ → ℕ → Context
build state code =
    let s = state % 256 in
    let c = code % 256 in
    if c == no_error
    then record {
      al_status = s;
      al_status_code = c;
      al_watchdog_process_data = 0;
      is_valid_output_data = false;
    }
    else record {
      al_status = bit_or s error_ack;
      al_status_code = c;
      al_watchdog_process_data = 0;
      is_valid_output_data = false;
    }

-- `dictionary` is what `PDO::configureMapping` returns with the slave's dictionary, if it has one.
pub record Slave : Type 0 where
  pub esc : Esc
  pub pdo : Pdo
  pub mbx : Option Mbx
  pub dictionary : Option (Pdo → ℕ)
  pub current : StateId
  pub status : Context

abbrev pub mbx_config_bad : Option Mbx → Esc → Bool
mbx_config_bad none esc = false
mbx_config_bad (some m) esc = not (Mbx.is_config_ok esc m)

-- Init::routineInternal, without PRE_OP or after a `configure` that failed.
pub init_refuse : ℕ → Context
init_refuse r =
    if r == safe_op_code || r == operational_code
    then build init_code invalid_requested_state_change
    else if r == boot_code
    then build init_code bootstrap_not_supported
    else build init_code no_error

pub init_configured : Slave → Configured × Mbx → ℕ → Slave × Context
unfolding init_refuse
init_configured s (Configured.done, m) r = (
  record s { mbx = some m },
  if Mbx.is_config_ok s.esc m
      then build pre_op_code no_error
      else build init_code invalid_mailbox_configuration_preop,
)
init_configured s (_, m) r = (record s { mbx = some m }, init_refuse r)

pub init_to_pre_op : Option Mbx → Slave → ℕ → Slave × Context
unfolding init_configured
init_to_pre_op none s r = (s, build pre_op_code no_error)
init_to_pre_op (some m) s r = init_configured s (Mbx.configure s.esc m) r

-- PreOP::routineInternal, the branch to SAFE_OP; `p` is the process data after its `configure`.
abbrev pub mapping_code : Option (Pdo → ℕ) → Pdo → ℕ
mapping_code none p = no_error
mapping_code (some f) p = f p

pub pre_op_to_safe_op : Slave → Pdo → Context
pre_op_to_safe_op s p =
    let mapping = mapping_code s.dictionary p in
    let config = Pdo.is_config_ok s.esc p in
    if not (mapping == no_error)
    then build pre_op_code mapping
    else if not (config == no_error)
    then build pre_op_code config
    else build safe_op_code no_error

pub pre_op_routine : Slave → ℕ → Slave × Context
unfolding pre_op_to_safe_op
pre_op_routine s r =
    if mbx_config_bad s.mbx s.esc
    then (s, build init_code invalid_mailbox_configuration_preop)
    else if r == safe_op_code
    then (
      record s { pdo = Pdo.configure s.esc s.pdo },
      pre_op_to_safe_op s (Pdo.configure s.esc s.pdo),
    )
    else if r == init_code
    then (s, build init_code no_error)
    else if r == operational_code || r == boot_code
    then (s, build pre_op_code invalid_requested_state_change)
    else (s, build pre_op_code no_error)

-- `pdo_.updateInput (); pdo_.updateOutput ();`
unfoldable pub exchange : Slave → Slave
exchange s =
    let esc = Pdo.update_input s.esc s.pdo in
    record s { esc = esc; pdo = Pdo.update_output esc s.pdo }

pub safe_op_decide : Slave → ℕ → Context
safe_op_decide s r =
    let config = Pdo.is_config_ok s.esc s.pdo in
    if mbx_config_bad s.mbx s.esc
    then build init_code invalid_mailbox_configuration_preop
    else if not (config == no_error)
    then build pre_op_code config
    else if r == operational_code && (s.status.is_valid_output_data || not (Pdo.has_output s.pdo))
    then build operational_code no_error
    else if r == pre_op_code || r == init_code
    then build r no_error
    else if r == boot_code
    then build safe_op_code invalid_requested_state_change
    else build safe_op_code no_error

pub op_decide : Slave → ℕ → Context
op_decide s r =
    let config = Pdo.is_config_ok s.esc s.pdo in
    if has_expired_watchdog s.status
    then build safe_op_code sync_manager_watchdog
    else if mbx_config_bad s.mbx s.esc
    then build init_code invalid_mailbox_configuration_preop
    else if not (config == no_error)
    then build pre_op_code config
    else if r == boot_code
    then build safe_op_code invalid_requested_state_change
    else if r == pre_op_code || r == init_code || r == safe_op_code
    then build r no_error
    else if not (r == operational_code)
    then build safe_op_code unknown_requested_state
    else build r no_error

-- routineInternal of the four classes; `r` is the requested state.
pub routine_internal : StateId → Slave → ℕ → Slave × Context
unfolding init_refuse init_to_pre_op pre_op_routine safe_op_decide op_decide
routine_internal init s r =
    if r == pre_op_code then init_to_pre_op s.mbx s r else (s, init_refuse r)
routine_internal pre_op s r = pre_op_routine s r
routine_internal safe_op s r = let s' = exchange s in (s', safe_op_decide s' r)
routine_internal op s r = let s' = exchange s in (s', op_decide s' r)

abbrev pub is_known_request : ℕ → Bool
is_known_request r =
    r == boot_code
    || r == init_code
    || r == pre_op_code
    || r == safe_op_code
    || r == operational_code

-- AbstractState::routine
pub routine : Slave → ℕ → Slave × Context
unfolding routine_internal
routine s control =
    let r = state_of control in
    if has_error_bit s.status.al_status && not (has_error_bit control)
    then (
      s,
      if r == init_code
          then build init_code no_error
          else build s.status.al_status s.status.al_status_code,
    )
    else if not (state_of s.status.al_status == operational_code) && not (is_known_request r)
    then (s, build (id s.current) unknown_requested_state)
    else routine_internal s.current s r

abbrev pub activate_mbx : Option Mbx → Esc → Bool → Esc
activate_mbx none esc on = esc
activate_mbx (some m) esc on = Mbx.activate esc m on

-- onEntry of the four classes, with the status before and after.
pub on_entry : StateId → Slave → Context → Context → Esc
on_entry init s old new =
    let esc = activate_mbx s.mbx s.esc false in
    Pdo.activate_output (Pdo.activate_input esc s.pdo false) s.pdo false
on_entry pre_op s old new =
    let esc = activate_mbx s.mbx s.esc true in
    Pdo.activate_input (Pdo.activate_output esc s.pdo false) s.pdo false
on_entry safe_op s old new =
    if state_of old.al_status == operational_code && not (new.al_status_code == no_error)
    then Pdo.activate_output s.esc s.pdo false
    else Pdo.activate_input (Pdo.activate_output s.esc s.pdo true) s.pdo true
on_entry op s old new = s.esc

pub find_state : ℕ → Option StateId
find_state n =
    if n == init_code
    then some init
    else if n == pre_op_code
    then some pre_op
    else if n == safe_op_code
    then some safe_op
    else if n == operational_code
    then some op
    else none

-- The change of state of `play`: the entry action, unless the state object is the current one.
pub enter : StateId → Slave → Context → Slave × Context
unfolding on_entry
enter next s new =
    if id next == id s.current
    then (s, new)
    else (record s { esc = on_entry next s s.status new; current = next }, new)

pub change_state : Slave → Context → Slave × Context
unfolding enter find_state
change_state s new =
    if state_of new.al_status == id s.current
    then (s, new)
    else elim (find_state (state_of new.al_status)) [
      | some next ↦ enter next s new
      | none ↦
          enter init s
            (record new { al_status = init_code; al_status_code = unknown_requested_state })
    ]

-- The end of `play`: the two AL registers are written, the code first, when either has changed.
pub publish : Slave × Context → Slave
publish (s, new) =
    if not (s.status.al_status == new.al_status)
      || not (s.status.al_status_code == new.al_status_code)
    then record s {
      status = new;
      esc = record (s.esc) {
        al_status = new.al_status;
        al_status_code = new.al_status_code;
        al_writes =
            s.esc.al_writes
            ++ (AlWrite.status_code new.al_status_code ∷ AlWrite.status new.al_status ∷ []);
      };
    }
    else s

abbrev pub read_watchdog : Slave → Slave
read_watchdog s = record s {
  status = record (s.status) { al_watchdog_process_data = s.esc.wdog_status };
}

unfoldable pub play : Slave → Slave
unfolding routine change_state publish
play s = let (s', new) = routine (read_watchdog s) s.esc.al_control in publish (change_state s' new)

unfoldable pub start : Slave → Slave
unfolding on_entry
start s = record s { esc = on_entry s.current s s.status s.status }

unfoldable pub validate_output_data : Slave → Slave
validate_output_data s = record s { status = record (s.status) { is_valid_output_data = true } }

-- A new state machine stands in INIT with no error.
abbrev pub fresh : Esc → Pdo → Option Mbx → Option (Pdo → ℕ) → Slave
fresh esc pdo mbx dictionary = record {
  esc = esc;
  pdo = pdo;
  mbx = mbx;
  dictionary = dictionary;
  current = init;
  status = record {
    al_status = init_code;
    al_status_code = 0;
    al_watchdog_process_data = 0;
    is_valid_output_data = false;
  };
}
