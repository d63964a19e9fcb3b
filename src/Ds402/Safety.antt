-- ===== src/Ds402/Safety.antt =====
-- What one call of `update` (lib/src/CoE/CiA/DS402/StateMachine.cc) can do, whatever the drive
-- reports and the clock returns.
use kick_cat.Base.{ℕ, true, false, ◌≡◌, ◌⊎◌, arith, ◌≤◌, ◌+◌, List, [], ◌∷◌}
use kick_cat.Base.Lists.{length}
use kick_cat.Ds402.{
  Command, enable, disable, State, off, safe_reset, prepare_to_switch_on, switch_on, on, fault,
  StateMachine, Reads, has, fault_state, on_state, enable_operation, update, Cycle, run,
}

-- The machine reports ON after a call only if it was ON and stays so, or if it was in SWITCH_ON
-- under the enable command and the drive reports all the bits of ON_STATE and no fault; then the
-- control word is ENABLE_OPERATION and the command is spent.
pub update_enters_on :
    (t : Reads) (m : StateMachine) (status : ℕ)
    → (update t m status).motor_state ≡ on
    → (m.motor_state ≡ on)
      ⊎ ((m.motor_state ≡ switch_on)
          × (m.command ≡ enable)
          × (has status on_state ≡ true)
          × (has status fault_state ≡ false)
          × ((update t m status).control_word ≡ enable_operation)
          × ((update t m status).command ≡ Command.none))
unfolding update
update_enters_on t m status h = ground arith

-- A reported fault leaves the machine in OFF or FAULT after every call, unless it is being disabled.
pub update_fault :
    (t : Reads) (m : StateMachine) (status : ℕ)
    → has status fault_state ≡ true
    → (m.command ≡ disable)
      ⊎ ((update t m status).motor_state ≡ off)
      ⊎ ((update t m status).motor_state ≡ fault)
unfolding update
update_fault t m status h = ground arith

-- How far the enable sequence has come.
abbrev pub rank : State → ℕ
rank off = 0
rank safe_reset = 1
rank prepare_to_switch_on = 2
rank switch_on = 3
rank on = 4
rank fault = 0

rank-update :
    (t : Reads) (m : StateMachine) (status : ℕ)
    → rank (update t m status).motor_state ≤ rank m.motor_state + 1
unfolding update
rank-update t m status = ground arith

-- The enable sequence skips no state: a run of `n` calls advances at most `n` states, so ON is at
-- least four calls away from OFF and from FAULT.
pub rank-run :
    (m : StateMachine) (inputs : List Cycle)
    → rank (run m inputs).motor_state ≤ rank m.motor_state + length inputs
unfolding run
rank-run m [] = omega arith
rank-run m ((t, status) ∷ rest) =
    omega (arith, rank-update t m status, rank-run (update t m status) rest)
