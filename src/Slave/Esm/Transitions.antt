-- ===== src/Slave/Esm/Transitions.antt =====
-- Which transitions play() (lib/slave/src/ESM.cc) makes, and what each of them needs.
use kick_cat.Base.{
  ℕ, ◌+◌, ◌≤◌, true, false, ◌≡◌, ◌≢◌, ◌⊎◌, inl, inr, refl, arith, ◌==◌, Option, none, some,
  Bool-cases, ◌&&◌, not, subst, ap, sym, ◌∙◌,
}
use kick_cat.Slave.Pdo
use kick_cat.Slave.Pdo.{Pdo}
use kick_cat.Slave.Mbx
use kick_cat.Slave.Mbx.{Mbx, Configured, done}
use kick_cat.Slave.Esm.{
  StateId, init, pre_op, safe_op, op, id, Context, Slave, build, state_of, has_error_bit, routine,
  routine_internal, play, init_to_pre_op, init_configured, pre_op_routine, safe_op_decide,
  read_watchdog, exchange, no_error, publish, change_state, init_code, pre_op_code,
  operational_code, unknown_requested_state, mbx_config_bad,
}
use kick_cat.Slave.Esm.Status.{Shows, rebuild-Shows, state_of-Shows}
use kick_cat.Slave.Esm.Registers.{routine-Kept}
use kick_cat.Slave.Esm.Invariant.{
  IsValid, change_state-Shows, play-Shows, play-Shown, read_watchdog-Shows,
}

-- What the state machine asks for before it lets the slave become OPERATIONAL; `r` is the request.
abbrev pub MayOperate : Slave → ℕ → Type 0
MayOperate s r =
    (r ≡ operational_code)
    × ((s.status.is_valid_output_data ≡ true) ⊎ (Pdo.has_output s.pdo ≡ false))
    × (Pdo.is_config_ok s.esc s.pdo ≡ no_error)
    × (mbx_config_bad s.mbx s.esc ≡ false)

safe_op-op : (s : Slave) (r : ℕ) → Shows op (safe_op_decide s r) → MayOperate s r
unfolding safe_op_decide build
safe_op-op s r h = ground arith

pre_op-op : (s : Slave) (r : ℕ) → ¬ Shows op (pre_op_routine s r).1
unfolding pre_op_routine build
pre_op-op s r h = ground arith

-- From INIT a routine's status shows INIT or PRE_OP.
abbrev Low : Context → Type 0
Low c = (c.al_status ≡ 1) ⊎ (c.al_status ≡ 17) ⊎ (c.al_status ≡ 2)

init_configured-Low : (s : Slave) (p : Configured × Mbx) (r : ℕ) → Low (init_configured s p r).1
unfolding init_configured build
init_configured-Low s (done, m) r = ground arith
init_configured-Low s (_, m) r = ground arith

init_to_pre_op-Low : (o : Option Mbx) (s : Slave) (r : ℕ) → Low (init_to_pre_op o s r).1
unfolding init_to_pre_op build
init_to_pre_op-Low none s r = ground arith
init_to_pre_op-Low (some m) s r = init_configured-Low s (Mbx.configure s.esc m) r

init-Low : (s : Slave) (r : ℕ) → Low (routine_internal init s r).1
unfolding routine_internal build
init-Low s r = elim (Bool-cases (r == pre_op_code)) [
  | inl e ↦ rw e (init_to_pre_op-Low s.mbx s r)
  | inr e ↦ rw e (ground arith)
]

internal-op :
    (i : StateId) (s : Slave) (r : ℕ)
    → Shows op (routine_internal i s r).1
    → (i ≡ op) ⊎ ((i ≡ safe_op) × MayOperate (exchange s) r)
unfolding routine_internal
internal-op init s r h = absurd (ground (arith, init-Low s r))
internal-op pre_op s r h = absurd (pre_op-op s r h)
internal-op safe_op s r h = inr (refl, safe_op-op (exchange s) r h)
internal-op op s r h = inl refl

internal-safe_op :
    (i : StateId) (s : Slave) (r : ℕ) → Shows safe_op (routine_internal i s r).1 → i ≢ init
internal-safe_op init s r h e = ground (arith, init-Low s r)
internal-safe_op pre_op s r h e = cc
internal-safe_op safe_op s r h e = cc
internal-safe_op op s r h e = cc

-- `routine`, with the three ways that it can go.
routine-cases :
    (s : Slave) (control : ℕ)
    → ((has_error_bit s.status.al_status ≡ true)
        × (has_error_bit control ≡ false)
        × (state_of control ≡ init_code)
        × ((routine s control).1 ≡ build init_code no_error))
      ⊎ ((has_error_bit s.status.al_status ≡ true)
          × (has_error_bit control ≡ false)
          × (state_of control ≢ init_code)
          × ((routine s control).1 ≡ build s.status.al_status s.status.al_status_code))
      ⊎ ((routine s control).1 ≡ build (id s.current) unknown_requested_state)
      ⊎ ((not (has_error_bit s.status.al_status && not (has_error_bit control)) ≡ true)
          × (routine s control ≡ routine_internal s.current s (state_of control)))
unfolding routine
routine-cases s control = ground arith

Shows-injective : (i j : StateId) (c : Context) → Shows i c → Shows j c → i ≡ j
Shows-injective init init c h k = refl
Shows-injective init pre_op c h k = absurd (omega arith)
Shows-injective init safe_op c h k = absurd (omega arith)
Shows-injective init op c h k = absurd (omega arith)
Shows-injective pre_op init c h k = absurd (omega arith)
Shows-injective pre_op pre_op c h k = refl
Shows-injective pre_op safe_op c h k = absurd (omega arith)
Shows-injective pre_op op c h k = absurd (omega arith)
Shows-injective safe_op init c h k = absurd (omega arith)
Shows-injective safe_op pre_op c h k = absurd (omega arith)
Shows-injective safe_op safe_op c h k = refl
Shows-injective safe_op op c h k = absurd (omega arith)
Shows-injective op init c h k = absurd (omega arith)
Shows-injective op pre_op c h k = absurd (omega arith)
Shows-injective op safe_op c h k = absurd (omega arith)
Shows-injective op op c h k = refl

unknown-not_op : (i : StateId) → ¬ Shows op (build (id i) unknown_requested_state)
unfolding build
unknown-not_op init h = ground arith
unknown-not_op pre_op h = ground arith
unknown-not_op safe_op h = ground arith
unknown-not_op op h = ground arith

unknown-safe_op : (i : StateId) → Shows safe_op (build (id i) unknown_requested_state) → i ≢ init
unfolding build
unknown-safe_op init h e = ground arith
unknown-safe_op _ h e = cc

clear-not : (i : StateId) → Shows i (build init_code no_error) → i ≡ init
unfolding build
clear-not init h = refl
clear-not pre_op h = ground arith
clear-not safe_op h = ground arith
clear-not op h = ground arith

-- An error is pending that the master's request does not acknowledge.
abbrev pub IsUnacknowledged : Slave → Type 0
IsUnacknowledged s =
    (has_error_bit s.status.al_status ≡ true) × (has_error_bit s.esc.al_control ≡ false)

routine-op :
    (s : Slave) (control : ℕ)
    → Shows s.current s.status
    → Shows op (routine s control).1
    → (s.current ≡ op) ⊎ ((s.current ≡ safe_op) × MayOperate (exchange s) (state_of control))
routine-op s control v h = elim (routine-cases s control) [
  | inl (e, k, r, b) ↦ absurd (ground (arith, clear-not op (subst (Shows op) b h)))
  | inr (inl (e, k, r, b)) ↦
      inl
        (Shows-injective s.current op _ (rebuild-Shows s.current s.status v) (subst (Shows op) b h))
  | inr (inr (inl b)) ↦ absurd (unknown-not_op s.current (subst (Shows op) b h))
  | inr (inr (inr (n, b))) ↦
      internal-op s.current s (state_of control) (subst (λ (p : Slave × Context). Shows op p.1) b h)
]

routine-safe_op :
    (s : Slave) (control : ℕ)
    → Shows s.current s.status
    → Shows safe_op (routine s control).1
    → s.current ≢ init
routine-safe_op s control v h = elim (routine-cases s control) [
  | inl (e, k, r, b) ↦ absurd (ground (arith, clear-not safe_op (subst (Shows safe_op) b h)))
  | inr (inl (e, k, r, b)) ↦ λ x. absurd (
      ground (
        arith,
        Shows-injective s.current safe_op _ (rebuild-Shows s.current s.status v)
            (subst (Shows safe_op) b h),
      ))
  | inr (inr (inl b)) ↦ unknown-safe_op s.current (subst (Shows safe_op) b h)
  | inr (inr (inr (n, b))) ↦
      internal-safe_op s.current s (state_of control)
        (subst (λ (p : Slave × Context). Shows safe_op p.1) b h)
]

-- Every routine builds a new status, in which the output data is not validated.
init_configured-fresh :
    (s : Slave) (p : Configured × Mbx) (r : ℕ)
    → (init_configured s p r).1.is_valid_output_data ≡ false
unfolding init_configured build
init_configured-fresh s (done, m) r = ground arith
init_configured-fresh s (_, m) r = ground arith

init_to_pre_op-fresh :
    (o : Option Mbx) (s : Slave) (r : ℕ) → (init_to_pre_op o s r).1.is_valid_output_data ≡ false
unfolding init_to_pre_op build
init_to_pre_op-fresh none s r = ground arith
init_to_pre_op-fresh (some m) s r = init_configured-fresh s (Mbx.configure s.esc m) r

internal-fresh :
    (i : StateId) (s : Slave) (r : ℕ) → (routine_internal i s r).1.is_valid_output_data ≡ false
unfolding routine_internal build
internal-fresh init s r = elim (Bool-cases (r == pre_op_code)) [
  | inl e ↦ rw e (init_to_pre_op-fresh s.mbx s r)
  | inr e ↦ rw e (ground arith)
]
internal-fresh _ s r = ground arith

routine-fresh : (s : Slave) (control : ℕ) → (routine s control).1.is_valid_output_data ≡ false
unfolding routine build
routine-fresh s control = ground (arith, internal-fresh s.current s (state_of control))

publish-fresh :
    (p : Slave × Context)
    → p.1.is_valid_output_data ≡ false
    → ((publish p).status.al_status ≡ p.0.status.al_status)
      ⊎ ((publish p).status.is_valid_output_data ≡ false)
unfolding publish
publish-fresh (s, new) h = ground arith

same_id : (i j : StateId) → id i ≡ id j → i ≡ j
same_id i j h = ground arith

-- A call that changes the state leaves the output data not validated.
change-fresh :
    (s : Slave) (i : StateId)
    → IsValid s
    → Shows i (routine (read_watchdog s) s.esc.al_control).1
    → ((play s).current ≡ s.current) ⊎ ((play s).status.is_valid_output_data ≡ false)
unfolding play
change-fresh s i v h =
    let w = routine (read_watchdog s) s.esc.al_control in
    let (c, n, a, t) = change_state-Shows i w.0 w.1 h in
    let fresh : (change_state w.0 w.1).1.is_valid_output_data ≡ false =
      ap (λ (q : Context). q.is_valid_output_data) n
      ∙ routine-fresh (read_watchdog s) s.esc.al_control in
    elim (publish-fresh (change_state w.0 w.1) fresh) [
      | inl same ↦
          let kept = (routine-Kept (read_watchdog s) s.esc.al_control).2 in
          let (v', e) = play-Shows i s v h in
          let old = state_of-Shows s.current s.status v.shows in
          let new = state_of-Shows (play s).current (play s).status v'.shows in
          let status =
            same ∙ ap (λ (q : Context). q.al_status) t ∙ ap (λ (q : Context). q.al_status) kept in
          inl (same_id (play s).current s.current (sym new ∙ ap state_of status ∙ old))
      | inr q ↦ inr q
    ]

op_from :
    (s : Slave)
    → IsValid s
    → (play s).current ≡ op
    → (s.current ≡ op)
      ⊎ ((s.current ≡ safe_op)
          × MayOperate (exchange (read_watchdog s)) (state_of s.esc.al_control))
op_from s v e = elim (play-Shown s v) [
  | inl h ↦ absurd (ground (arith, (play-Shows init s v h).1))
  | inr (inl h) ↦ absurd (ground (arith, (play-Shows pre_op s v h).1))
  | inr (inr (inl h)) ↦ absurd (ground (arith, (play-Shows safe_op s v h).1))
  | inr (inr (inr h)) ↦
      routine-op (read_watchdog s) s.esc.al_control (read_watchdog-Shows s.current s v.shows) h
]

-- A slave that is OPERATIONAL after a call was so before, or it was in SAFE_OP, the master asks for
-- OPERATIONAL, the output data has been validated (or there is no output), and the sync managers of
-- the process data and of the mailbox are as configured. And a call that changes the state leaves the
-- output data not validated, so that the validation is younger than the last change of state.
pub op_entered :
    (s : Slave)
    → IsValid s
    → (((play s).current ≢ op)
        ⊎ (s.current ≡ op)
        ⊎ ((s.current ≡ safe_op)
            × MayOperate (exchange (read_watchdog s)) (state_of s.esc.al_control)))
      × (((play s).current ≡ s.current) ⊎ ((play s).status.is_valid_output_data ≡ false))
op_entered s v = elim (play-Shown s v) [
  | inl h ↦ (inl (λ e. ground (arith, (play-Shows init s v h).1)), change-fresh s init v h)
  | inr (inl h) ↦
      (inl (λ e. ground (arith, (play-Shows pre_op s v h).1)), change-fresh s pre_op v h)
  | inr (inr (inl h)) ↦
      (inl (λ e. ground (arith, (play-Shows safe_op s v h).1)), change-fresh s safe_op v h)
  | inr (inr (inr h)) ↦ (inr (op_from s v (play-Shows op s v h).1), change-fresh s op v h)
]

abbrev pub rank : StateId → ℕ
rank init = 0
rank pre_op = 1
rank safe_op = 2
rank op = 3

rank_high : (i : StateId) → i ≢ init → 2 ≤ rank i + 1
rank_high init h = absurd (h refl)
rank_high _ h = omega arith

-- A call goes up by at most one state: INIT, PRE_OP, SAFE_OP, OPERATIONAL. It may fall to any.
pub rank-play : (s : Slave) → IsValid s → rank (play s).current ≤ rank s.current + 1
rank-play s v = elim (play-Shown s v) [
  | inl h ↦ rw ((play-Shows init s v h).1) (omega arith)
  | inr (inl h) ↦ rw ((play-Shows pre_op s v h).1) (omega arith)
  | inr (inr (inl h)) ↦ rw ((play-Shows safe_op s v h).1) (
      rank_high s.current (
        routine-safe_op (read_watchdog s) s.esc.al_control (read_watchdog-Shows s.current s v.shows)
          h))
  | inr (inr (inr h)) ↦ elim (op_from s v (play-Shows op s v h).1) [
    | inl o ↦ rw ((play-Shows op s v h).1, o) (omega arith)
    | inr (o, m) ↦ rw ((play-Shows op s v h).1, o) (omega arith)
  ]
]
