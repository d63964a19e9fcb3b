-- ===== src/Ds402.antt =====
-- The CiA 402 drive state machine of the master: lib/src/CoE/CiA/DS402/StateMachine.cc and its
-- header, with the word constants of lib/include/kickcat/CoE/CiA/DS402/protocol.h.
-- A call of now() is an argument: `Reads` holds what the clock returns at each place of `update`.
pub mod Safety
pub mod Sequence
pub mod FaultReset
pub mod Stabilization
mod Tests
use kick_cat.Base.{
  ℕ, ◌-◌, Bool, true, false, not, ◌&&◌, bit_and, ◌==◌, ltb, leb, if◌then◌else◌, List, [], ◌∷◌,
}

pub data Command : Type 0 where
  none enable disable : Command

pub data State : Type 0 where
  off safe_reset prepare_to_switch_on switch_on on fault : State

pub record StateMachine : Type 0 where
  pub command : Command
  pub motor_state : State
  pub start_motor_timestamp : ℕ
  pub control_word : ℕ
  pub status_word : ℕ
  pub toggle_timestamp : ℕ
  pub fault_reset_active : Bool
  pub was_faulted : Bool
  pub stabilizing : Bool
  pub stabilization_timestamp : ℕ

abbrev pub initial : StateMachine
initial = record {
  command = Command.none;
  motor_state = off;
  start_motor_timestamp = 0;
  control_word = 0;
  status_word = 0;
  toggle_timestamp = 0;
  fault_reset_active = false;
  was_faulted = false;
  stabilizing = false;
  stabilization_timestamp = 0;
}

-- Delays, in nanoseconds.
abbrev pub motor_reset_delay : ℕ
motor_reset_delay = 100_000_000

abbrev pub motor_init_timeout : ℕ
motor_init_timeout = 2_000_000_000

abbrev pub fault_reset_half_period : ℕ
fault_reset_half_period = 50_000_000

abbrev pub stabilization_delay : ℕ
stabilization_delay = 100_000_000

-- Status word values: bit 6; bits 4 and 0; bits 5, 4, 2, 1 and 0; bit 3.
abbrev pub off_state : ℕ
off_state = 0x40

abbrev pub ready_to_switch_on_state : ℕ
ready_to_switch_on_state = 0x11

abbrev pub on_state : ℕ
on_state = 0x37

abbrev pub fault_state : ℕ
fault_state = 0x08

-- Control words.
abbrev pub shutdown : ℕ
shutdown = 0x06

abbrev pub enable_operation : ℕ
enable_operation = 0x0f

abbrev pub fault_reset : ℕ
fault_reset = 0x80

abbrev pub disable_voltage : ℕ
disable_voltage = 0

-- `(word & value) == value`
abbrev pub has : ℕ → ℕ → Bool
has word value = bit_and word value == value

-- What now() returns in one call: on entry of OFF, at the test of the branch, when the branch
-- stores a stamp, and at the final timeout test.
pub record Reads : Type 0 where
  pub start : ℕ
  pub test : ℕ
  pub stamp : ℕ
  pub last : ℕ

-- `elapsed_time (since)`: a clock behind the stamp counts as no time, which is below every delay.
abbrev pub elapsed : ℕ → ℕ → ℕ
elapsed now since = now - since

unfoldable pub enable_machine : StateMachine → StateMachine
enable_machine m = record m { command = enable }

unfoldable pub disable_machine : StateMachine → StateMachine
disable_machine m = record m { command = disable }

unfoldable pub is_faulted : StateMachine → Bool
is_faulted m = has m.status_word fault_state

abbrev is_on : State → Bool
is_on on = true
is_on _ = false

unfoldable pub is_enabled : StateMachine → Bool
is_enabled m = is_on m.motor_state

-- `case State::OFF`, the drive reports a fault: toggle bit 7.
acknowledge_fault : Reads → StateMachine → StateMachine
acknowledge_fault t m =
    let toggled = leb fault_reset_half_period (elapsed t.test m.toggle_timestamp) in
    let active = if toggled then not m.fault_reset_active else m.fault_reset_active in
    record m {
      was_faulted = true;
      stabilizing = false;
      fault_reset_active = active;
      toggle_timestamp = if toggled then t.stamp else m.toggle_timestamp;
      control_word = if active then fault_reset else 0;
    }

-- `case State::OFF`, the fault has cleared: hold the control word at 0 for a while.
stabilize : Reads → StateMachine → StateMachine
stabilize t m =
    if not m.stabilizing
    then record m { control_word = 0; stabilizing = true; stabilization_timestamp = t.stamp }
    else if leb stabilization_delay (elapsed t.test m.stabilization_timestamp)
    then record m {
      control_word = 0;
      motor_state = safe_reset;
      was_faulted = false;
      stabilizing = false;
    }
    else record m { control_word = 0 }

from_off : Reads → StateMachine → StateMachine
unfolding acknowledge_fault stabilize
from_off t m =
    let s = record m { start_motor_timestamp = t.start } in
    if has m.status_word fault_state
    then acknowledge_fault t s
    else if m.was_faulted
    then stabilize t s
    else record s { motor_state = safe_reset }

-- The inner `switch` of `case Command::ENABLE`.
enable_step : State → Reads → StateMachine → StateMachine
unfolding from_off
enable_step off t m = from_off t m
enable_step safe_reset t m = record m {
  control_word = shutdown;
  motor_state =
      if ltb motor_reset_delay (elapsed t.test m.start_motor_timestamp)
      then prepare_to_switch_on
      else m.motor_state;
}
enable_step prepare_to_switch_on t m = record m {
  control_word = shutdown;
  motor_state = if has m.status_word ready_to_switch_on_state then switch_on else m.motor_state;
}
enable_step switch_on t m =
    if has m.status_word on_state
    then record m { control_word = enable_operation; motor_state = on; command = Command.none }
    else record m { control_word = enable_operation }
enable_step on t m = m
enable_step fault t m = record m { motor_state = off }

-- A fault seen in the enable sequence restarts it.
abbrev is_off_or_fault : State → Bool
is_off_or_fault off = true
is_off_or_fault fault = true
is_off_or_fault _ = false

restart_on_fault : StateMachine → StateMachine
restart_on_fault m =
    if not (is_off_or_fault m.motor_state) && has m.status_word fault_state
    then record m { motor_state = off }
    else m

restart_on_timeout : Reads → StateMachine → StateMachine
restart_on_timeout t m =
    if not (is_on m.motor_state)
      && not (is_off_or_fault m.motor_state)
      && ltb motor_init_timeout (elapsed t.last m.start_motor_timestamp)
    then record m { motor_state = off }
    else m

-- The outer `switch`.
dispatch : Command → Reads → StateMachine → StateMachine
unfolding enable_step restart_on_fault restart_on_timeout
dispatch enable t m = restart_on_timeout t (restart_on_fault (enable_step m.motor_state t m))
dispatch disable t m =
    if has m.status_word off_state
    then record m { control_word = disable_voltage; motor_state = off; command = Command.none }
    else record m { control_word = disable_voltage }
dispatch Command.none t m =
    if has m.status_word fault_state then record m { motor_state = fault } else m

unfoldable pub update : Reads → StateMachine → ℕ → StateMachine
unfolding dispatch
update t m status = dispatch m.command t (record m { status_word = status })

-- The cyclic loop of an application: one `update` for each status word received.
abbrev pub Cycle : Type 0
Cycle = Reads × ℕ

unfoldable pub run : StateMachine → List Cycle → StateMachine
run m [] = m
run m ((t, status) ∷ rest) = run (update t m status) rest
