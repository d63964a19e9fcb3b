-- ===== src/Slave/Esm/Status.antt =====
-- The status words that the routines of lib/slave/src/ESMStates.cc build.
use kick_cat.Base.{
  ℕ, ◌+◌, ◌<◌, ◌≡◌, ◌≢◌, ◌⊎◌, inl, inr, refl, arith, ◌==◌, Option, none, some, Bool-cases, ◌&&◌,
  not,
}
use kick_cat.Slave.Mbx
use kick_cat.Slave.Mbx.{Mbx, Configured, done}
use kick_cat.Slave.Esm.{
  StateId, init, pre_op, safe_op, op, id, Context, Slave, build, state_of, has_error_bit, routine,
  routine_internal, init_refuse, init_to_pre_op, init_configured, init_code, no_error,
  is_known_request, pre_op_code, operational_code, unknown_requested_state,
}

-- A status word that stands for state `i`: no error and code 0, or the error bit and a code. In
-- OPERATIONAL there is no error.
abbrev pub Shows : StateId → Context → Type 0
Shows op c = (c.al_status ≡ 8) × (c.al_status_code ≡ 0)
Shows i c =
    ((c.al_status ≡ id i) × (c.al_status_code ≡ 0))
    ⊎ ((c.al_status ≡ id i + 16) × (c.al_status_code ≢ 0) × (c.al_status_code < 256))

abbrev pub Shown : Context → Type 0
Shown c = Shows init c ⊎ Shows pre_op c ⊎ Shows safe_op c ⊎ Shows op c

pub state_of-Shows : (i : StateId) (c : Context) → Shows i c → state_of c.al_status ≡ id i
state_of-Shows init c h = ground arith
state_of-Shows pre_op c h = ground arith
state_of-Shows safe_op c h = ground arith
state_of-Shows op c h = ground arith

pub rebuild-Shows :
    (i : StateId) (c : Context) → Shows i c → Shows i (build c.al_status c.al_status_code)
unfolding build
rebuild-Shows init c h = ground arith
rebuild-Shows pre_op c h = ground arith
rebuild-Shows safe_op c h = ground arith
rebuild-Shows op c h = ground arith

init_configured-Shown : (s : Slave) (p : Configured × Mbx) (r : ℕ) → Shown (init_configured s p r).1
unfolding init_configured build
init_configured-Shown s (done, m) r = ground arith
init_configured-Shown s (_, m) r = ground arith

init_to_pre_op-Shown : (o : Option Mbx) (s : Slave) (r : ℕ) → Shown (init_to_pre_op o s r).1
unfolding init_to_pre_op build
init_to_pre_op-Shown none s r = ground arith
init_to_pre_op-Shown (some m) s r = init_configured-Shown s (Mbx.configure s.esc m) r

init_refuse-Shown : (r : ℕ) → Shown (init_refuse r)
unfolding init_refuse build
init_refuse-Shown r = ground arith

internal-Shown : (i : StateId) (s : Slave) (r : ℕ) → Shown (routine_internal i s r).1
unfolding routine_internal build
internal-Shown init s r = elim (Bool-cases (r == pre_op_code)) [
  | inl e ↦ rw e (init_to_pre_op-Shown s.mbx s r)
  | inr e ↦ rw e (init_refuse-Shown r)
]
internal-Shown _ s r = ground arith

shown : (i : StateId) (c : Context) → Shows i c → Shown c
shown init c h = inl h
shown pre_op c h = inr (inl h)
shown safe_op c h = inr (inr (inl h))
shown op c h = inr (inr (inr h))

unknown-Shown :
    (i : StateId) → id i ≢ operational_code → Shown (build (id i) unknown_requested_state)
unfolding build
unknown-Shown init h = ground arith
unknown-Shown pre_op h = ground arith
unknown-Shown safe_op h = ground arith
unknown-Shown op h = absurd (h refl)

clear-Shows : Shows init (build init_code no_error)
unfolding build
clear-Shows = ground arith

-- Whatever is asked, the new status stands for one of the four states.
pub routine-Shown :
    (s : Slave) (control : ℕ) → Shows s.current s.status → Shown (routine s control).1
unfolding routine
routine-Shown s control h =
    elim (Bool-cases (has_error_bit s.status.al_status && not (has_error_bit control))) [
      | inl e ↦ rw e (elim (Bool-cases (state_of control == init_code)) [
        | inl i ↦ rw i (inl (clear-Shows))
        | inr n ↦ rw n (shown s.current _ (rebuild-Shows s.current s.status h))
      ])
      | inr e ↦
          rw e
            (elim (Bool-cases (
              not (state_of s.status.al_status == operational_code)
              && not (is_known_request (state_of control)))) [
                | inl u ↦
                    rw u (
                      unknown-Shown s.current (ground (arith, state_of-Shows s.current s.status h)))
                | inr k ↦ rw k (internal-Shown s.current s (state_of control))
              ])
    ]
