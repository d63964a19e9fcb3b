-- ===== src/Slave/Esm/Registers.antt =====
-- What the operations of the slave state machine (lib/slave/src/ESMStates.cc) leave alone.
use kick_cat.Base.{
  ℕ, Bool, true, false, ◌≡◌, inl, inr, refl, arith, ◌==◌, Option, none, some, List, [], ◌∷◌,
  Bool-cases, ◌∙◌,
}
use kick_cat.Slave.Esc.{Esc, SmConfig, activate_sm, deactivate_sm, set_sm_activate}
use kick_cat.Slave.Pdo
use kick_cat.Slave.Pdo.{Pdo}
use kick_cat.Slave.Mbx
use kick_cat.Slave.Mbx.{Mbx, Configured, done}
use kick_cat.Slave.Esm.{
  StateId, init, pre_op, safe_op, op, Context, Slave, state_of, routine, routine_internal,
  init_to_pre_op, pre_op_routine, init_configured, pre_op_code, exchange, on_entry, activate_mbx,
}

-- The AL registers are written by `publish` alone.
abbrev pub SameAl : Esc → Esc → Type 0
SameAl a b =
    (a.al_status ≡ b.al_status)
    × (a.al_status_code ≡ b.al_status_code)
    × (a.al_writes ≡ b.al_writes)
    × (a.al_control ≡ b.al_control)

set_sm_activate-SameAl :
    (esc : Esc) (cs : List SmConfig) (on : Bool) → SameAl (set_sm_activate esc cs on) esc
unfolding set_sm_activate activate_sm deactivate_sm
set_sm_activate-SameAl esc [] on = (refl, refl, refl, refl)
set_sm_activate-SameAl esc (c ∷ cs) true = set_sm_activate-SameAl (activate_sm esc c) cs true
set_sm_activate-SameAl esc (c ∷ cs) false = set_sm_activate-SameAl (deactivate_sm esc c) cs false

SameAl-trans : (a b c : Esc) → SameAl a b → SameAl b c → SameAl a c
SameAl-trans a b c (p, q, r, s) (p', q', r', s') = (p ∙ p', q ∙ q', r ∙ r', s ∙ s')

activate_output-SameAl :
    (esc : Esc) (p : Pdo) (on : Bool) → SameAl (Pdo.activate_output esc p on) esc
unfolding Pdo.activate_output
activate_output-SameAl esc p on = ground (arith, set_sm_activate-SameAl esc (p.sm_output ∷ []) on)

activate_input-SameAl : (esc : Esc) (p : Pdo) (on : Bool) → SameAl (Pdo.activate_input esc p on) esc
unfolding Pdo.activate_input
activate_input-SameAl esc p on = ground (arith, set_sm_activate-SameAl esc (p.sm_input ∷ []) on)

activate_mbx-SameAl : (m : Option Mbx) (esc : Esc) (on : Bool) → SameAl (activate_mbx m esc on) esc
unfolding Mbx.activate
activate_mbx-SameAl none esc on = (refl, refl, refl, refl)
activate_mbx-SameAl (some m) esc on =
    ground (arith, set_sm_activate-SameAl esc (m.sm_in ∷ m.sm_out ∷ []) on)

pub on_entry-SameAl :
    (i : StateId) (s : Slave) (old new : Context) → SameAl (on_entry i s old new) s.esc
unfolding on_entry
on_entry-SameAl init s old new =
    let e = activate_mbx s.mbx s.esc false in
    let f = Pdo.activate_input e s.pdo false in
    SameAl-trans (Pdo.activate_output f s.pdo false) f s.esc (activate_output-SameAl f s.pdo false)
      (SameAl-trans f e s.esc (activate_input-SameAl e s.pdo false)
        (activate_mbx-SameAl s.mbx s.esc false))
on_entry-SameAl pre_op s old new =
    let e = activate_mbx s.mbx s.esc true in
    let f = Pdo.activate_output e s.pdo false in
    SameAl-trans (Pdo.activate_input f s.pdo false) f s.esc (activate_input-SameAl f s.pdo false) (
      SameAl-trans f e s.esc (activate_output-SameAl e s.pdo false)
        (activate_mbx-SameAl s.mbx s.esc true))
on_entry-SameAl safe_op s old new = ground (
  arith,
  activate_output-SameAl s.esc s.pdo false,
  activate_output-SameAl s.esc s.pdo true,
  activate_input-SameAl (Pdo.activate_output s.esc s.pdo true) s.pdo true,
)
on_entry-SameAl op s old new = (refl, refl, refl, refl)

-- What a routine leaves alone.
abbrev pub Kept : Slave → Slave → Type 0
Kept a b = SameAl a.esc b.esc × (a.current ≡ b.current) × (a.status ≡ b.status)

update_input-SameAl : (esc : Esc) (p : Pdo) → SameAl (Pdo.update_input esc p) esc
unfolding Pdo.update_input
update_input-SameAl esc p = ground arith

exchange-Kept : (s : Slave) → Kept (exchange s) s
unfolding exchange
exchange-Kept s = (update_input-SameAl s.esc s.pdo, refl, refl)

Kept-refl : (s : Slave) → Kept s s
Kept-refl s = ((refl, refl, refl, refl), refl, refl)

init_configured-Kept : (s : Slave) (p : Configured × Mbx) (r : ℕ) → Kept (init_configured s p r).0 s
unfolding init_configured
init_configured-Kept s (done, m) r = Kept-refl s
init_configured-Kept s (_, m) r = Kept-refl s

init_to_pre_op-Kept : (o : Option Mbx) (s : Slave) (r : ℕ) → Kept (init_to_pre_op o s r).0 s
unfolding init_to_pre_op
init_to_pre_op-Kept none s r = Kept-refl s
init_to_pre_op-Kept (some m) s r = init_configured-Kept s (Mbx.configure s.esc m) r

pre_op-Kept : (s : Slave) (r : ℕ) → Kept (pre_op_routine s r).0 s
unfolding pre_op_routine
pre_op-Kept s r = ground arith

internal-Kept : (i : StateId) (s : Slave) (r : ℕ) → Kept (routine_internal i s r).0 s
unfolding routine_internal
internal-Kept init s r = elim (Bool-cases (r == pre_op_code)) [
  | inl e ↦ rw e (init_to_pre_op-Kept s.mbx s r)
  | inr e ↦ rw e (Kept-refl s)
]
internal-Kept pre_op s r = pre_op-Kept s r
internal-Kept safe_op s r = exchange-Kept s
internal-Kept op s r = exchange-Kept s

pub routine-Kept : (s : Slave) (control : ℕ) → Kept (routine s control).0 s
unfolding routine
routine-Kept s control = ground (arith, internal-Kept s.current s (state_of control))
