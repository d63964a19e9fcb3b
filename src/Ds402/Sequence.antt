-- ===== src/Ds402/Sequence.antt =====
-- Whole runs of lib/src/CoE/CiA/DS402/StateMachine.cc with a drive that answers as the profile asks.
use kick_cat.Base.{ℕ, ◌+◌, ◌≤◌, ◌<◌, true, false, ◌≡◌, arith, [], ◌∷◌}
use kick_cat.Ds402.{
  Command, enable, State, off, safe_reset, prepare_to_switch_on, switch_on, StateMachine, Reads,
  has, fault_state, on_state, ready_to_switch_on_state, enable_operation, update, run,
  motor_reset_delay, motor_init_timeout, is_enabled,
}

abbrev pub IsClear : ℕ → Type 0
IsClear status = has status fault_state ≡ false

-- The machine is being enabled, stands in `s`, and its timeout counts from `t₀`.
abbrev pub At : State → ℕ → StateMachine → Type 0
At s t₀ m = (m.command ≡ enable) × (m.motor_state ≡ s) × (m.start_motor_timestamp ≡ t₀)

-- The call comes before the timeout that counts from `t₀`.
abbrev pub InTime : ℕ → Reads → Type 0
InTime t₀ t = t.last ≤ t₀ + motor_init_timeout

off_step :
    (t : Reads) (m : StateMachine) (status : ℕ)
    → m.command ≡ enable
    → m.motor_state ≡ off
    → m.was_faulted ≡ false
    → IsClear status
    → InTime t.start t
    → At safe_reset t.start (update t m status)
unfolding update
off_step t m status c s w h l = ground arith

reset_step :
    (t : Reads) (m : StateMachine) (status t₀ : ℕ)
    → At safe_reset t₀ m
    → IsClear status
    → t₀ + motor_reset_delay < t.test
    → InTime t₀ t
    → At prepare_to_switch_on t₀ (update t m status)
unfolding update
reset_step t m status t₀ a h d l = ground arith

prepare_step :
    (t : Reads) (m : StateMachine) (status t₀ : ℕ)
    → At prepare_to_switch_on t₀ m
    → IsClear status
    → has status ready_to_switch_on_state ≡ true
    → InTime t₀ t
    → At switch_on t₀ (update t m status)
unfolding update
prepare_step t m status t₀ a h r l = ground arith

abbrev pub Enabled : StateMachine → Type 0
Enabled m = (is_enabled m ≡ true) × (m.control_word ≡ enable_operation) × (m.command ≡ Command.none)

switch_on_step :
    (t : Reads) (m : StateMachine) (status t₀ : ℕ)
    → At switch_on t₀ m
    → IsClear status
    → has status on_state ≡ true
    → Enabled (update t m status)
unfolding update is_enabled
switch_on_step t m status t₀ a h r = ground arith

-- From OFF, with no fault to clear, four calls enable the drive: the second comes after the reset
-- delay, the third sees READY_TO_SWITCH_ON, the fourth ON, no status has the fault bit, and the
-- first three come before the timeout. The control word is then ENABLE_OPERATION.
pub enable_completes :
    (m : StateMachine) (t₁ t₂ t₃ t₄ : Reads) (s₁ s₂ s₃ s₄ : ℕ)
    → (m.command ≡ enable) × (m.motor_state ≡ off) × (m.was_faulted ≡ false)
    → IsClear s₁ × IsClear s₂ × IsClear s₃ × IsClear s₄
    → t₁.start + motor_reset_delay < t₂.test
    → InTime t₁.start t₁ × InTime t₁.start t₂ × InTime t₁.start t₃
    → has s₃ ready_to_switch_on_state ≡ true
    → has s₄ on_state ≡ true
    → Enabled (run m ((t₁, s₁) ∷ (t₂, s₂) ∷ (t₃, s₃) ∷ (t₄, s₄) ∷ []))
unfolding run
enable_completes m t₁ t₂ t₃ t₄ s₁ s₂ s₃ s₄ (c, o, w) (c₁, c₂, c₃, c₄) d (l₁, l₂, l₃) r n =
    let a₁ = off_step t₁ m s₁ c o w c₁ l₁ in
    let a₂ = reset_step t₂ (update t₁ m s₁) s₂ t₁.start a₁ c₂ d l₂ in
    let a₃ = prepare_step t₃ (update t₂ (update t₁ m s₁) s₂) s₃ t₁.start a₂ c₃ r l₃ in
    switch_on_step t₄ (update t₃ (update t₂ (update t₁ m s₁) s₂) s₃) s₄ t₁.start a₃ c₄ n
