-- ===== src/Slave/Esm/Errors.antt =====
-- The error paths of play() (lib/slave/src/ESM.cc): the process data watchdog, and errors that the
-- master has not acknowledged.
use kick_cat.Base.{
  ==_self, ==_ne, ℕ, true, false, ◌≡◌, ◌≢◌, refl, arith, bit_and, ◌==◌, ◌∙◌, sym, ap, subst,
}
use kick_cat.Slave.Esc.{is_used}
use kick_cat.Slave.Pdo.{Pdo}
use kick_cat.Slave.Esm.{
  StateId, init, pre_op, safe_op, op, id, Context, Slave, build, state_of, has_error_bit, routine,
  routine_internal, change_state, publish, play, op_decide, read_watchdog, exchange, on_entry,
  no_error, init_code, safe_op_code, operational_code, has_expired_watchdog, sync_manager_watchdog,
}
use kick_cat.Slave.Esm.Status.{Shows, state_of-Shows, rebuild-Shows}
use kick_cat.Slave.Esm.Registers.{routine-Kept}
use kick_cat.Slave.Esm.Invariant.{IsValid, change_state-Shows, play-Shows, read_watchdog-Shows}
use kick_cat.Slave.Esm.Transitions.{IsUnacknowledged}
use kick_cat.Slave.Esm.Outputs.{
  IsOff, next_status, worked, stopped, stop_output, change_state-writes,
}

watchdog_routine :
    (s : Slave) (control : ℕ)
    → s.current ≡ op
    → Shows op s.status
    → has_expired_watchdog s.status ≡ true
    → routine s control ≡ (exchange s, build safe_op_code sync_manager_watchdog)
unfolding routine routine_internal op_decide exchange
watchdog_routine s control c h w = ground arith

watchdog-Shows : Shows safe_op (build safe_op_code sync_manager_watchdog)
unfolding build
watchdog-Shows = ground arith

watchdog_entry :
    (s : Slave) (old : Context) (p : Pdo)
    → state_of old.al_status ≡ operational_code
    → p ≡ s.pdo
    → is_used p.sm_output ≡ true
    → IsOff (on_entry safe_op s old (build safe_op_code sync_manager_watchdog)) p.sm_output.index
unfolding on_entry build
watchdog_entry s old p o e u =
    rw (==_self (state_of old.al_status) operational_code o, e)
      (stop_output s.esc s.pdo (subst (λ (q : Pdo). is_used q.sm_output ≡ true) e u))

publish_changed :
    (p : Slave × Context) → p.0.status.al_status ≢ p.1.al_status → (publish p).status ≡ p.1
unfolding publish
publish_changed (s, new) n = ground arith

-- When the status word changes, the new status is the one that the routine built.
play_changed :
    (i : StateId) (s : Slave)
    → Shows i (next_status s)
    → s.status.al_status ≢ (next_status s).al_status
    → (play s).status ≡ next_status s
unfolding play
play_changed i s h n =
    let (c, m, a, t) = change_state-Shows i (worked s) (next_status s) h in
    let e = (change_state-writes i s h).1 in
    publish_changed (change_state (worked s) (next_status s)) (rw (m, e) n) ∙ m

-- When the process data watchdog has expired, an OPERATIONAL slave with outputs falls to SAFE_OP
-- whatever the master asks for: AL_STATUS shows SAFE_OP with the error bit, AL_STATUS_CODE the
-- watchdog's code, and the sync manager of the outputs is deactivated.
pub watchdog_stops_outputs :
    (s : Slave)
    → IsValid s
    → s.current ≡ op
    → bit_and s.esc.wdog_status 0x01 ≡ 0
    → is_used (play s).pdo.sm_output ≡ true
    → ((play s).current ≡ safe_op)
      × ((play s).esc.al_status ≡ 0x14)
      × ((play s).esc.al_status_code ≡ sync_manager_watchdog)
      × IsOff (play s).esc (play s).pdo.sm_output.index
unfolding build
watchdog_stops_outputs s v c w u =
    let shows : Shows op s.status = subst (λ i. Shows i s.status) c v.shows in
    let e = watchdog_routine (read_watchdog s) s.esc.al_control c shows (==_self _ 0 w) in
    let new : next_status s ≡ build safe_op_code sync_manager_watchdog =
      ap (λ (p : Slave × Context). p.1) e in
    let kept = (routine-Kept (read_watchdog s) s.esc.al_control).2 in
    let h : Shows safe_op (next_status s) = subst (Shows safe_op) (sym new) watchdog-Shows in
    let (valid, cur) = play-Shows safe_op s v h in
    let st : (play s).status ≡ build safe_op_code sync_manager_watchdog =
      play_changed safe_op s h (rw new (ground arith)) ∙ new in
    (
      cur,
      valid.status_mirrored ∙ ap (λ (q : Context). q.al_status) st,
      valid.code_mirrored ∙ ap (λ (q : Context). q.al_status_code) st,
      stopped safe_op s h (rw c (λ x. cc x))
          (λ p q. rw new (watchdog_entry (worked s) (worked s).status p (rw kept (ground arith)) q))
          u,
    )

rebuild_same :
    (i : StateId) (c : Context)
    → Shows i c
    → ((build c.al_status c.al_status_code).al_status ≡ c.al_status)
      × ((build c.al_status c.al_status_code).al_status_code ≡ c.al_status_code)
unfolding build
rebuild_same init c h = ground arith
rebuild_same pre_op c h = ground arith
rebuild_same safe_op c h = ground arith
rebuild_same op c h = ground arith

change_state_same :
    (s : Slave) (new : Context)
    → state_of new.al_status ≡ id s.current
    → change_state s new ≡ (s, new)
unfolding change_state
change_state_same s new e = rw (==_self (state_of new.al_status) (id s.current) e) refl

publish_same :
    (s : Slave) (new : Context)
    → new.al_status ≡ s.status.al_status
    → new.al_status_code ≡ s.status.al_status_code
    → publish (s, new) ≡ s
unfolding publish
publish_same s new e k =
    rw
      (
        ==_self s.status.al_status new.al_status (sym e),
        ==_self s.status.al_status_code new.al_status_code (sym k),
      )
      refl

frozen_routine :
    (s : Slave) (control : ℕ)
    → has_error_bit s.status.al_status ≡ true
    → has_error_bit control ≡ false
    → (state_of control == init_code) ≡ false
    → routine s control ≡ (s, build s.status.al_status s.status.al_status_code)
unfolding routine
frozen_routine s control e k r = rw (e, k, r) refl

-- `play` from the result of its routine.
play_lem :
    (s : Slave) (p : Slave × Context)
    → routine (read_watchdog s) s.esc.al_control ≡ p
    → play s ≡ publish (change_state p.0 p.1)
unfolding play
play_lem s p e = ap (λ (q : Slave × Context). publish (change_state q.0 q.1)) e

-- While an error is pending that the master does not acknowledge, and it does not ask for INIT, a
-- call changes nothing but the copy of the watchdog register: no state, no register, no data.
pub unacknowledged_freezes :
    (s : Slave)
    → IsValid s
    → IsUnacknowledged s
    → state_of s.esc.al_control ≢ init_code
    → play s ≡ read_watchdog s
unacknowledged_freezes s v (e, k) n =
    let r = read_watchdog s in
    let c = build r.status.al_status r.status.al_status_code in
    let shows : Shows s.current r.status = read_watchdog-Shows s.current s v.shows in
    let (a, b) = rebuild_same s.current r.status shows in
    let o : state_of c.al_status ≡ id s.current =
      state_of-Shows s.current c (rebuild-Shows s.current r.status shows) in
    play_lem s (r, c) (frozen_routine r s.esc.al_control e k (==_ne _ init_code n))
    ∙ ap publish (change_state_same r c o)
    ∙ publish_same r c a b

cleared_routine :
    (s : Slave) (control : ℕ)
    → has_error_bit s.status.al_status ≡ true
    → has_error_bit control ≡ false
    → (state_of control == init_code) ≡ true
    → routine s control ≡ (s, build init_code no_error)
unfolding routine
cleared_routine s control e k r = rw (e, k, r) refl

cleared-Shows : Shows init (build init_code no_error)
unfolding build
cleared-Shows = ground arith

-- A request of INIT clears a pending error from any state, although it acknowledges nothing: the
-- slave goes to INIT, and the AL registers show INIT with no error.
pub init_clears_error :
    (s : Slave)
    → IsValid s
    → IsUnacknowledged s
    → state_of s.esc.al_control ≡ init_code
    → ((play s).current ≡ init)
      × ((play s).esc.al_status ≡ init_code)
      × ((play s).esc.al_status_code ≡ no_error)
unfolding build
init_clears_error s v (e, k) r =
    let new : next_status s ≡ build init_code no_error =
      ap (λ (p : Slave × Context). p.1)
        (cleared_routine (read_watchdog s) s.esc.al_control e k (==_self _ init_code r)) in
    let h : Shows init (next_status s) = subst (Shows init) (sym new) cleared-Shows in
    let (valid, cur) = play-Shows init s v h in
    let st : (play s).status ≡ build init_code no_error =
      play_changed init s h (rw new (ground arith)) ∙ new in
    (
      cur,
      valid.status_mirrored ∙ ap (λ (q : Context). q.al_status) st,
      valid.code_mirrored ∙ ap (λ (q : Context). q.al_status_code) st,
    )
