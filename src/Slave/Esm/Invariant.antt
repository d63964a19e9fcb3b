-- ===== src/Slave/Esm/Invariant.antt =====
-- What holds of the slave state machine (lib/slave/src/ESM.cc) between two calls of play().
use kick_cat.Base.{◌≡◌, inl, inr, arith, ◌∙◌, sym, ap}
use kick_cat.Slave.Esm.{
  StateId, init, pre_op, safe_op, op, Context, Slave, routine, change_state, enter, publish, play,
  find_state, read_watchdog,
}
use kick_cat.Slave.Esm.Status.{Shows, Shown, state_of-Shows, routine-Shown}
use kick_cat.Slave.Esm.Registers.{SameAl, on_entry-SameAl, routine-Kept}

-- The AL registers hold the status, and the status stands for the current state.
pub record IsValid (s : Slave) : Type 0 where
  pub shows : Shows s.current s.status
  pub status_mirrored : s.esc.al_status ≡ s.status.al_status
  pub code_mirrored : s.esc.al_status_code ≡ s.status.al_status_code

-- The change of state ends in the state that the new status shows, and keeps that status.
pub change_state-Shows :
    (i : StateId) (s : Slave) (new : Context)
    → Shows i new
    → ((change_state s new).0.current ≡ i)
      × ((change_state s new).1 ≡ new)
      × SameAl (change_state s new).0.esc s.esc
      × ((change_state s new).0.status ≡ s.status)
unfolding change_state enter find_state
change_state-Shows init s new h =
    ground (arith, state_of-Shows init new h, on_entry-SameAl init s s.status new)
change_state-Shows pre_op s new h =
    ground (arith, state_of-Shows pre_op new h, on_entry-SameAl pre_op s s.status new)
change_state-Shows safe_op s new h =
    ground (arith, state_of-Shows safe_op new h, on_entry-SameAl safe_op s s.status new)
change_state-Shows op s new h =
    ground (arith, state_of-Shows op new h, on_entry-SameAl op s s.status new)

publish-IsValid :
    (i : StateId) (s : Slave) (new : Context)
    → Shows i new
    → s.current ≡ i
    → (s.esc.al_status ≡ s.status.al_status) × (s.esc.al_status_code ≡ s.status.al_status_code)
    → IsValid (publish (s, new))
unfolding publish
publish-IsValid init s new h c m = ground arith
publish-IsValid pre_op s new h c m = ground arith
publish-IsValid safe_op s new h c m = ground arith
publish-IsValid op s new h c m = ground arith

current-publish : (p : Slave × Context) → (publish p).current ≡ p.0.current
unfolding publish
current-publish (s, new) = ground arith

abbrev Mirrored : Slave → Type 0
Mirrored s =
    (s.esc.al_status ≡ s.status.al_status) × (s.esc.al_status_code ≡ s.status.al_status_code)

finish :
    (i : StateId) (s : Slave) (new : Context)
    → Shows i new
    → Mirrored s
    → IsValid (publish (change_state s new)) × ((publish (change_state s new)).current ≡ i)
finish i s new h m =
    let (c, n, (a, b, w, k), t) = change_state-Shows i s new h in
    let s' = (change_state s new).0 in
    let x = (change_state s new).1 in
    let v : IsValid (publish (s', x)) = publish-IsValid i s' x (rw n h) c (
      a ∙ m.0 ∙ sym (ap (λ (q : Context). q.al_status) t),
      b ∙ m.1 ∙ sym (ap (λ (q : Context). q.al_status_code) t),
    ) in
    (v, current-publish (s', x) ∙ c)

-- The state after `play` is the one that the routine's status shows.
pub play-Shows :
    (i : StateId) (s : Slave)
    → IsValid s
    → Shows i (routine (read_watchdog s) s.esc.al_control).1
    → IsValid (play s) × ((play s).current ≡ i)
unfolding play
play-Shows i s v h =
    let ((a, b, w, k), c, t) = routine-Kept (read_watchdog s) s.esc.al_control in
    let r = (routine (read_watchdog s) s.esc.al_control).0 in
    finish i r (routine (read_watchdog s) s.esc.al_control).1 h (
      a ∙ v.status_mirrored ∙ sym (ap (λ (q : Context). q.al_status) t),
      b ∙ v.code_mirrored ∙ sym (ap (λ (q : Context). q.al_status_code) t),
    )

pub read_watchdog-Shows :
    (i : StateId) (s : Slave) → Shows i s.status → Shows i (read_watchdog s).status
read_watchdog-Shows init s h = h
read_watchdog-Shows pre_op s h = h
read_watchdog-Shows safe_op s h = h
read_watchdog-Shows op s h = h

-- Which state the status of a valid machine's routine shows.
pub play-Shown : (s : Slave) → IsValid s → Shown (routine (read_watchdog s) s.esc.al_control).1
play-Shown s v =
    routine-Shown (read_watchdog s) s.esc.al_control (read_watchdog-Shows s.current s v.shows)

-- Every call of play() keeps the invariant, whatever the master has written to AL_CONTROL and to
-- the sync managers and whatever the watchdog says.
pub play-IsValid : (s : Slave) → IsValid s → IsValid (play s)
play-IsValid s v = elim (play-Shown s v) [
  | inl h ↦ (play-Shows init s v h).0
  | inr (inl h) ↦ (play-Shows pre_op s v h).0
  | inr (inr (inl h)) ↦ (play-Shows safe_op s v h).0
  | inr (inr (inr h)) ↦ (play-Shows op s v h).0
]
