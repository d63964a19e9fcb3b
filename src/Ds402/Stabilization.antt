-- ===== src/Ds402/Stabilization.antt =====
-- The way out of OFF after a fault (lib/src/CoE/CiA/DS402/StateMachine.cc): the control word is held
-- at 0 for the stabilization delay.
use kick_cat.Base.{ℕ, ◌+◌, ◌≤◌, ◌≡◌, ◌≢◌, true, false, arith, List, [], ◌∷◌}
use kick_cat.Base.Lists.{All}
use kick_cat.Ds402.{
  enable, off, safe_reset, StateMachine, Reads, has, fault_state, stabilization_delay,
  motor_init_timeout, update, Cycle, run,
}

-- The control words that a run of calls leaves, one after each call.
unfoldable pub words : StateMachine → List Cycle → List ℕ
words m [] = []
words m ((t, status) ∷ rest) = (update t m status).control_word ∷ words (update t m status) rest

-- The drive reports no fault, and the call itself does not take as long as the timeout of two seconds.
abbrev pub IsClear : Cycle → Type 0
IsClear (t, status) = (has status fault_state ≡ false) × (t.last ≤ t.start + motor_init_timeout)

-- The machine is in OFF after each call but the last, and not after the last.
abbrev pub LeavesOff : StateMachine → List Cycle → Type 0
LeavesOff m [] = ⊥
LeavesOff m ((t, status) ∷ []) = (update t m status).motor_state ≢ off
LeavesOff m ((t, status) ∷ c ∷ rest) =
    ((update t m status).motor_state ≡ off) × LeavesOff (update t m status) (c ∷ rest)

-- What the clock returns at the test of the last call.
abbrev pub last_test : ℕ → List Cycle → ℕ
last_test n [] = n
last_test n ((t, status) ∷ rest) = last_test t.test rest

-- Under the enable command, in OFF, with the fault of a former call not yet forgotten.
abbrev pub Stabilizes : ℕ → StateMachine → Type 0
Stabilizes since m =
    (m.command ≡ enable)
    × (m.motor_state ≡ off)
    × (m.was_faulted ≡ true)
    × (m.stabilizing ≡ true)
    × (m.stabilization_timestamp ≡ since)

step_waits :
    (since : ℕ) (t : Reads) (m : StateMachine) (status : ℕ)
    → Stabilizes since m
    → IsClear (t, status)
    → (update t m status).motor_state ≡ off
    → ((update t m status).control_word ≡ 0) × Stabilizes since (update t m status)
unfolding update
step_waits since t m status v h o = ground arith

step_leaves :
    (since : ℕ) (t : Reads) (m : StateMachine) (status : ℕ)
    → Stabilizes since m
    → IsClear (t, status)
    → (update t m status).motor_state ≢ off
    → ((update t m status).control_word ≡ 0)
      × ((update t m status).motor_state ≡ safe_reset)
      × (since + stabilization_delay ≤ t.test)
unfolding update
step_leaves since t m status v h o = ground arith

step_starts :
    (t : Reads) (m : StateMachine) (status : ℕ)
    → m.command ≡ enable
    → m.motor_state ≡ off
    → m.was_faulted ≡ true
    → m.stabilizing ≡ false
    → IsClear (t, status)
    → ((update t m status).control_word ≡ 0) × Stabilizes t.stamp (update t m status)
unfolding update
step_starts t m status c o w n h = ground arith

held :
    (since : ℕ) (m : StateMachine) (inputs : List Cycle)
    → Stabilizes since m
    → All IsClear inputs
    → LeavesOff m inputs
    → All (λ w. w ≡ 0) (words m inputs)
      × ((run m inputs).motor_state ≡ safe_reset)
      × (since + stabilization_delay ≤ last_test since inputs)
unfolding words run
held since m [] v a l = absurd l
held since m ((t, status) ∷ []) v a l =
    let (w, s, d) = step_leaves since t m status v a.0 l in ((w, tt), s, d)
held since m ((t, status) ∷ c ∷ rest) v a l =
    let (w, v') = step_waits since t m status v a.0 l.0 in
    let (ws, s, d) = held since (update t m status) (c ∷ rest) v' a.1 l.1 in ((w, ws), s, d)

-- Under the enable command, in OFF, after a fault, and not yet stabilizing: when the drive reports
-- no fault any more, no call takes more than the two seconds of the timeout, and the last of these calls is the first to leave OFF, then every call has set
-- the control word to 0, the machine is in SAFE_RESET, and the stabilization delay lies between the
-- stamp of the first call and the test of the last.
pub stabilization_holds :
    (m : StateMachine) (t : Reads) (status : ℕ) (rest : List Cycle)
    → m.command ≡ enable
    → m.motor_state ≡ off
    → m.was_faulted ≡ true
    → m.stabilizing ≡ false
    → All IsClear ((t, status) ∷ rest)
    → LeavesOff m ((t, status) ∷ rest)
    → All (λ w. w ≡ 0) (words m ((t, status) ∷ rest))
      × ((run m ((t, status) ∷ rest)).motor_state ≡ safe_reset)
      × (t.stamp + stabilization_delay ≤ last_test 0 ((t, status) ∷ rest))
unfolding words run
stabilization_holds m t status [] c o w n a l =
    let (z, v) = step_starts t m status c o w n a.0 in absurd (l v.1)
stabilization_holds m t status (i ∷ rest) c o w n a l =
    let (z, v) = step_starts t m status c o w n a.0 in
    let (zs, s, d) = held t.stamp (update t m status) (i ∷ rest) v a.1 l.1 in ((z, zs), s, d)
