-- ===== src/Ds402/FaultReset.antt =====
-- The fault acknowledgement of lib/src/CoE/CiA/DS402/StateMachine.cc: bit 7 of the control word.
use kick_cat.Base.{
  ℕ, ◌+◌, ◌≤◌, ◌<◌, ◌⊎◌, Bool, true, false, ◌≡◌, arith, List, [], ◌∷◌, if◌then◌else◌,
}
use kick_cat.Ds402.{
  enable, off, StateMachine, Reads, has, elapsed, fault_state, fault_reset, Cycle,
  fault_reset_half_period, update,
}

-- The drive reports a fault, and the clock does not run backwards within the call.
abbrev pub IsFaulted : Cycle → Type 0
IsFaulted (t, status) = (has status fault_state ≡ true) × (t.test ≤ t.stamp)

abbrev pub IsRestarting : StateMachine → Type 0
IsRestarting m = (m.command ≡ enable) × (m.motor_state ≡ off)

-- Bit 7 of the control word, and how often it changes over a run.
abbrev pub bit7 : StateMachine → Bool
bit7 m = has m.control_word fault_reset

abbrev pub edge : Bool → Bool → ℕ
edge true false = 1
edge false true = 1
edge _ _ = 0

unfoldable pub edges : StateMachine → List Cycle → ℕ
edges m [] = 0
edges m ((t, status) ∷ rest) =
    edge (bit7 m) (bit7 (update t m status)) + edges (update t m status) rest

-- The control word is the one of an acknowledgement, as after any call that sees the fault.
abbrev pub IsAcknowledging : StateMachine → Type 0
IsAcknowledging m = m.control_word ≡ (if m.fault_reset_active then fault_reset else 0)

-- Under a fault in OFF the control word is FAULT_RESET or 0, as the toggle stands after the call;
-- the toggle changes in the call exactly when a half period has run out since it last changed.
pub acknowledge_word :
    (t : Reads) (m : StateMachine) (status : ℕ)
    → IsRestarting m
    → has status fault_state ≡ true
    → ((update t m status).control_word
        ≡ (if (update t m status).fault_reset_active then fault_reset else 0))
      × ((elapsed t.test m.toggle_timestamp < fault_reset_half_period)
            × (edge m.fault_reset_active (update t m status).fault_reset_active ≡ 0)
          ⊎ (fault_reset_half_period ≤ elapsed t.test m.toggle_timestamp)
            × (edge m.fault_reset_active (update t m status).fault_reset_active ≡ 1))
unfolding update
acknowledge_word t m status i h = ground arith
