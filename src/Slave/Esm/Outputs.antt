-- ===== src/Slave/Esm/Outputs.antt =====
-- What the call of play() (lib/slave/src/ESM.cc) does to the ESC: the AL registers and the sync
-- manager of the outputs.
use kick_cat.Base.{
  ◌%◌, ==_self, ==_ne, ℕ, true, false, ◌≡◌, ◌≢◌, ◌⊎◌, inl, inr, refl, arith, List, [], ◌∷◌, ◌++◌,
  Bool-cases, ◌∙◌, ap, subst,
}
use native.Mathlib.Decide.{ℕ_discrete}
use kick_cat.Slave.Esc.{Esc, SmConfig, AlWrite, is_used, deactivate_sm, set_sm_activate}
use kick_cat.Slave.Pdo
use kick_cat.Slave.Pdo.{Pdo}
use kick_cat.Slave.Esm.{
  StateId, init, pre_op, safe_op, op, Context, Slave, routine, change_state, enter, publish, play,
  find_state, read_watchdog, on_entry, activate_mbx,
}
use kick_cat.Slave.Esm.Status.{Shows, state_of-Shows}
use kick_cat.Slave.Esm.Registers.{routine-Kept}
use kick_cat.Slave.Esm.Invariant.{IsValid, change_state-Shows, play-Shows, play-Shown}
use kick_cat.Base.Bits.{bit_or-one}

-- Sync manager `i` is deactivated by the slave: bit 0 of its PDI control register is set.
abbrev pub IsOff : Esc → ℕ → Type 0
IsOff esc i = (esc.sms i).pdi_control % 2 ≡ 1

deactivate-IsOff :
    (esc : Esc) (c : SmConfig) (i : ℕ) → (i ≡ c.index) ⊎ IsOff esc i → IsOff (deactivate_sm esc c) i
unfolding deactivate_sm
deactivate-IsOff esc c i h = elim (ℕ_discrete i c.index) [
  | yes e ↦ rw (==_self i c.index e) (bit_or-one (esc.sms c.index).pdi_control)
  | no n ↦ rw (==_ne i c.index n) (ground arith)
]

pub stop_output :
    (esc : Esc) (p : Pdo)
    → is_used p.sm_output ≡ true
    → IsOff (Pdo.activate_output esc p false) p.sm_output.index
unfolding Pdo.activate_output set_sm_activate
stop_output esc p u = rw u (deactivate-IsOff esc p.sm_output p.sm_output.index (inl refl))

keep_output : (esc : Esc) (p : Pdo) (i : ℕ) → IsOff esc i → IsOff (Pdo.activate_input esc p false) i
unfolding Pdo.activate_input set_sm_activate
keep_output esc p i h = elim (Bool-cases (is_used p.sm_input)) [
  | inl e ↦ rw e (deactivate-IsOff esc p.sm_input i (inr h))
  | inr e ↦ rw e h
]

-- The status that the routine proposes, and the entry action that follows a change of state.
change_state-enters :
    (i : StateId) (s : Slave) (new : Context)
    → Shows i new
    → i ≢ s.current
    → ((change_state s new).0.esc ≡ on_entry i s s.status new)
      × ((change_state s new).0.pdo ≡ s.pdo)
unfolding change_state enter find_state
change_state-enters init s new h n = ground (arith, state_of-Shows init new h)
change_state-enters pre_op s new h n = ground (arith, state_of-Shows pre_op new h)
change_state-enters safe_op s new h n = ground (arith, state_of-Shows safe_op new h)
change_state-enters op s new h n = ground (arith, state_of-Shows op new h)

sms-publish :
    (p : Slave × Context) → ((publish p).esc.sms ≡ p.0.esc.sms) × ((publish p).pdo ≡ p.0.pdo)
unfolding publish
sms-publish (s, new) = ground arith

-- The routine's result and what `play` makes of it.
abbrev pub next_status : Slave → Context
next_status s = (routine (read_watchdog s) s.esc.al_control).1

abbrev pub worked : Slave → Slave
worked s = (routine (read_watchdog s) s.esc.al_control).0

entered :
    (i : StateId) (s : Slave)
    → Shows i (next_status s)
    → i ≢ s.current
    → ((play s).esc.sms ≡ (on_entry i (worked s) (worked s).status (next_status s)).sms)
      × ((play s).pdo ≡ (worked s).pdo)
unfolding play
entered i s h n =
    let kept = (routine-Kept (read_watchdog s) s.esc.al_control).1 in
    let q = change_state (worked s) (next_status s) in
    let (e, p) = change_state-enters i (worked s) (next_status s) h (λ x. n (x ∙ kept)) in
    ((sms-publish q).0 ∙ ap (λ (z : Esc). z.sms) e, (sms-publish q).1 ∙ p)

IsOff-sms : (a b : Esc) (i j : ℕ) → a.sms ≡ b.sms → i ≡ j → IsOff b j → IsOff a i
IsOff-sms a b i j e k h = rw (e, k) h

pub stopped :
    (i : StateId) (s : Slave)
    → Shows i (next_status s)
    → i ≢ s.current
    → ((p : Pdo)
        → p ≡ (worked s).pdo
        → is_used p.sm_output ≡ true
        → IsOff (on_entry i (worked s) (worked s).status (next_status s)) p.sm_output.index)
    → is_used (play s).pdo.sm_output ≡ true
    → IsOff (play s).esc (play s).pdo.sm_output.index
stopped i s h n f u =
    let (e, p) = entered i s h n in
    IsOff-sms (play s).esc (on_entry i (worked s) (worked s).status (next_status s))
      (play s).pdo.sm_output.index (play s).pdo.sm_output.index e refl (f (play s).pdo p u)

init_entry :
    (s : Slave) (old new : Context) (p : Pdo)
    → p ≡ s.pdo
    → is_used p.sm_output ≡ true
    → IsOff (on_entry init s old new) p.sm_output.index
unfolding on_entry
init_entry s old new p e u = rw e (
    stop_output (Pdo.activate_input (activate_mbx s.mbx s.esc false) s.pdo false) s.pdo
      (subst (λ (q : Pdo). is_used q.sm_output ≡ true) e u))

pre_op_entry :
    (s : Slave) (old new : Context) (p : Pdo)
    → p ≡ s.pdo
    → is_used p.sm_output ≡ true
    → IsOff (on_entry pre_op s old new) p.sm_output.index
unfolding on_entry
pre_op_entry s old new p e u = rw e (
    keep_output (Pdo.activate_output (activate_mbx s.mbx s.esc true) s.pdo false) s.pdo
      s.pdo.sm_output.index
      (stop_output (activate_mbx s.mbx s.esc true) s.pdo
        (subst (λ (q : Pdo). is_used q.sm_output ≡ true) e u)))

-- A call that changes the state to INIT or to PRE_OP leaves the sync manager of the outputs, if one
-- is configured, deactivated.
pub enter_stops_outputs :
    (s : Slave)
    → IsValid s
    → (play s).current ≢ s.current
    → ((play s).current ≡ init) ⊎ ((play s).current ≡ pre_op)
    → is_used (play s).pdo.sm_output ≡ true
    → IsOff (play s).esc (play s).pdo.sm_output.index
enter_stops_outputs s v n t u = elim (play-Shown s v) [
  | inl h ↦
      stopped init s h (λ e. n ((play-Shows init s v h).1 ∙ e))
        (init_entry (worked s) (worked s).status (next_status s)) u
  | inr (inl h) ↦
      stopped pre_op s h (λ e. n ((play-Shows pre_op s v h).1 ∙ e))
        (pre_op_entry (worked s) (worked s).status (next_status s)) u
  | inr (inr (inl h)) ↦ absurd (ground (arith, (play-Shows safe_op s v h).1))
  | inr (inr (inr h)) ↦ absurd (ground (arith, (play-Shows op s v h).1))
]

-- What `s` has written since `before`, where `old` was the status.
abbrev pub Published : Slave → List AlWrite → Context → Type 0
Published s before old =
    (s.esc.al_writes ≡ before)
      × (s.status.al_status ≡ old.al_status)
      × (s.status.al_status_code ≡ old.al_status_code)
    ⊎ (s.esc.al_writes
        ≡ before
          ++ (AlWrite.status_code s.status.al_status_code ∷ AlWrite.status s.status.al_status ∷ []))
      × (s.esc.al_status ≡ s.status.al_status)
      × (s.esc.al_status_code ≡ s.status.al_status_code)

publish-Published : (p : Slave × Context) → Published (publish p) p.0.esc.al_writes p.0.status
unfolding publish
publish-Published (s, new) = ground arith

pub change_state-writes :
    (i : StateId) (s : Slave)
    → Shows i (next_status s)
    → ((change_state (worked s) (next_status s)).0.esc.al_writes ≡ s.esc.al_writes)
      × ((change_state (worked s) (next_status s)).0.status ≡ (read_watchdog s).status)
change_state-writes i s h =
    let (c, n, (a, b, w, k), t) = change_state-Shows i (worked s) (next_status s) h in
    let ((a', b', w', k'), c', t') = routine-Kept (read_watchdog s) s.esc.al_control in
    (w ∙ w', t ∙ t')

Published-of :
    (s : Slave) (b b' : List AlWrite) (o o' : Context)
    → b ≡ b'
    → o ≡ o'
    → Published s b o
    → Published s b' o'
Published-of s b b' o o' e k h = rw (← e, ← k) h

-- A call of `play` on a valid machine either leaves the status, its code and the AL registers as
-- they were, or writes both registers, the code before the status, and they then hold the new
-- status.
pub play-Published : (s : Slave) → IsValid s → Published (play s) s.esc.al_writes s.status
unfolding play
play-Published s v = elim (play-Shown s v) [
  | inl h ↦ go init h
  | inr (inl h) ↦ go pre_op h
  | inr (inr (inl h)) ↦ go safe_op h
  | inr (inr (inr h)) ↦ go op h
]
  where
    go : (i : StateId) → Shows i (next_status s) → Published (play s) s.esc.al_writes s.status
    go i h =
        let (w, t) = change_state-writes i s h in
        let q = change_state (worked s) (next_status s) in
        Published-of (publish q) q.0.esc.al_writes s.esc.al_writes q.0.status
          (read_watchdog s).status w t (publish-Published q)
