-- ===== src/Slave/Esm/Run.antt =====
-- The slave state machine (lib/slave/src/ESM.cc) in its surroundings: between two calls of play()
-- the master and the hardware change the registers that they own, and the application may validate
-- the output data.
use kick_cat.Base.{ℕ, suc, ◌+◌, ◌≤◌, ◌≡◌, refl, arith, Option}
use kick_cat.Slave.Esc.{Esc, SmRegister}
use kick_cat.Slave.Pdo.{Pdo}
use kick_cat.Slave.Mbx.{Mbx}
use kick_cat.Slave.Esm.{
  StateId, init, pre_op, safe_op, op, Slave, fresh, play, start, validate_output_data,
}
use kick_cat.Slave.Esm.Status.{Shows}
use kick_cat.Slave.Esm.Registers.{on_entry-SameAl}
use kick_cat.Slave.Esm.Invariant.{IsValid, play-IsValid}
use kick_cat.Slave.Esm.Transitions.{rank, rank-play}

-- What happens between two calls: the slave's own AL registers stay.
pub data Event : Type 0 where
  master_writes : ℕ → (ℕ → SmRegister) → (ℕ → ℕ) → Event
  watchdog : ℕ → Event
  validate : Event

abbrev pub happen : Event → Slave → Slave
happen (master_writes control sms memory) s = record s {
  esc = record (s.esc) { al_control = control; sms = sms; memory = memory };
}
happen (watchdog status) s = record s { esc = record (s.esc) { wdog_status = status } }
happen validate s = validate_output_data s

-- `Reach s n t`: `t` comes from `s` by events and `n` calls of play().
pub data Reach (s : Slave) : ℕ → Slave → Type 0 where
  here : Reach s 0 s
  event : {n : ℕ} {t : Slave} → Reach s n t → (e : Event) → Reach s n (happen e t)
  played : {n : ℕ} {t : Slave} → Reach s n t → Reach s (suc n) (play t)

validate-Shows :
    (i : StateId) (s : Slave) → Shows i s.status → Shows i (validate_output_data s).status
unfolding validate_output_data
validate-Shows init s h = h
validate-Shows pre_op s h = h
validate-Shows safe_op s h = h
validate-Shows op s h = h

happen-IsValid : (e : Event) (s : Slave) → IsValid s → IsValid (happen e s)
unfolding validate_output_data
happen-IsValid (master_writes control sms memory) s v = record {
  shows = v.shows;
  status_mirrored = v.status_mirrored;
  code_mirrored = v.code_mirrored;
}
happen-IsValid (watchdog status) s v = record {
  shows = v.shows;
  status_mirrored = v.status_mirrored;
  code_mirrored = v.code_mirrored;
}
happen-IsValid validate s v = record {
  shows = validate-Shows s.current s v.shows;
  status_mirrored = v.status_mirrored;
  code_mirrored = v.code_mirrored;
}

rank-happen : (e : Event) (s : Slave) → rank (happen e s).current ≡ rank s.current
unfolding validate_output_data
rank-happen (master_writes control sms memory) s = refl
rank-happen (watchdog status) s = refl
rank-happen validate s = refl

pub Reach-IsValid : {s t : Slave} {n : ℕ} → IsValid s → Reach s n t → IsValid t
Reach-IsValid v here = v
Reach-IsValid v (event {t = t} r e) = happen-IsValid e t (Reach-IsValid v r)
Reach-IsValid v (played {t = t} r) = play-IsValid t (Reach-IsValid v r)

Reach-rank : {s t : Slave} {n : ℕ} → IsValid s → Reach s n t → rank t.current ≤ rank s.current + n
Reach-rank v here = omega arith
Reach-rank v (event {t = t} r e) = omega (arith, rank-happen e t, Reach-rank v r)
Reach-rank v (played {t = t} r) = omega (arith, rank-play t (Reach-IsValid v r), Reach-rank v r)

-- A state machine that starts on an ESC whose AL registers show INIT is valid.
pub fresh-IsValid :
    (esc : Esc) (pdo : Pdo) (mbx : Option Mbx) (dictionary : Option (Pdo → ℕ))
    → esc.al_status ≡ 1
    → esc.al_status_code ≡ 0
    → IsValid (start (fresh esc pdo mbx dictionary))
unfolding start
fresh-IsValid esc pdo mbx dictionary a c =
    let s = fresh esc pdo mbx dictionary in ground (arith, on_entry-SameAl init s s.status s.status)

-- Whatever the master writes, whatever the watchdog says and whenever the application validates
-- its data: a slave started in INIT keeps the invariant, and after `n` calls of play() it has come
-- at most `n` states up, so it is not OPERATIONAL before the third.
pub op_needs_three :
    (esc : Esc) (pdo : Pdo) (mbx : Option Mbx) (dictionary : Option (Pdo → ℕ)) {t : Slave} {n : ℕ}
    → esc.al_status ≡ 1
    → esc.al_status_code ≡ 0
    → Reach (start (fresh esc pdo mbx dictionary)) n t
    → IsValid t × (rank t.current ≤ n)
unfolding start
op_needs_three esc pdo mbx dictionary a c r =
    let v = fresh-IsValid esc pdo mbx dictionary a c in
    (Reach-IsValid v r, omega (arith, Reach-rank v r))
