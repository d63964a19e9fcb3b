-- ===== src/Slave/Esm/Tests.antt =====
-- The slave state machine (lib/slave/src/ESM.cc) on a slave with two outputs and two inputs.
use kick_cat.Base.{
  ◌≢◌, false, ℕ, ◌%◌, ◌≤◌, ◌≡◌, ◌⊎◌, inl, inr, refl, arith, bit_and, true, [], ◌∷◌, none, some,
  ◌==◌, if◌then◌else◌,
}
use kick_cat.Slave.Esc.{
  Esc, SmRegister, pi_out, pi_in, no_config, find_sm, is_sm_valid, set_sm_activate,
}
use kick_cat.Slave.Pdo
use kick_cat.Slave.Pdo.{Pdo}
use kick_cat.Slave.Esm.{
  init, pre_op, safe_op, op, Context, Slave, fresh, play, start, exchange, read_watchdog, build,
}
use kick_cat.Slave.Esm.Invariant.{IsValid, play-IsValid}
use kick_cat.Slave.Esm.Transitions.{MayOperate, op_entered, rank}
use kick_cat.Slave.Esm.Outputs.{IsOff, enter_stops_outputs}
use kick_cat.Slave.Esm.Errors.{watchdog_stops_outputs, init_clears_error}
use kick_cat.Slave.Esm.Run.{Reach, op_needs_three}

abbrev sm_at : ℕ → SmRegister
sm_at i =
    if i == 2
    then record {
      start_address = 0x1000;
      length = 2;
      control = 0x64;
      status = 0;
      activate = 1;
      pdi_control = 0;
    }
    else if i == 3
    then record {
      start_address = 0x1100;
      length = 2;
      control = 0x20;
      status = 0;
      activate = 1;
      pdi_control = 0;
    }
    else record {
      start_address = 0;
      length = 0;
      control = 0x26;
      status = 0;
      activate = 0;
      pdi_control = 0;
    }

abbrev esc : ℕ → ℕ → ℕ → ℕ → Esc
esc control wdog status code = record {
  al_control = control;
  wdog_status = wdog;
  al_status = status;
  al_status_code = code;
  al_writes = [];
  sms = sm_at;
  memory = λ a. a % 256;
}

abbrev unconfigured : Pdo
unconfigured = record {
  input = some (1 ∷ 2 ∷ []);
  sm_input = no_config;
  output = some (0 ∷ 0 ∷ []);
  sm_output = no_config;
}

abbrev configured : Pdo
configured = record unconfigured { sm_input = pi_in 3 0x1100 2; sm_output = pi_out 2 0x1000 2 }

abbrev shows : ℕ → ℕ → Context
shows status code = record {
  al_status = status;
  al_status_code = code;
  al_watchdog_process_data = 1;
  is_valid_output_data = true;
}

-- Machines that stand in PRE_OP, SAFE_OP and OPERATIONAL, and one in PRE_OP with an error.
abbrev standing : ℕ → Slave
standing control = record {
  esc = esc control 1 0x02 0;
  pdo = configured;
  mbx = none;
  dictionary = none;
  current = pre_op;
  status = shows 0x02 0;
}

abbrev ready : Slave
ready = record (standing 0x08) { esc = esc 0x08 1 0x04 0; current = safe_op; status = shows 0x04 0 }

abbrev working : ℕ → Slave
working wdog = record ready { esc = esc 0x08 wdog 0x08 0; current = op; status = shows 0x08 0 }

abbrev failed : ℕ → Slave
failed control = record (standing control) {
  esc = esc control 1 0x12 0x11;
  status = shows 0x12 0x11;
}

standing-IsValid : IsValid (standing 0x01)
standing-IsValid = record { shows = inl (refl, refl); status_mirrored = refl; code_mirrored = refl }

ready-IsValid : IsValid ready
ready-IsValid = record { shows = inl (refl, refl); status_mirrored = refl; code_mirrored = refl }

working-IsValid : (w : ℕ) → IsValid (working w)
working-IsValid w = record { shows = (refl, refl); status_mirrored = refl; code_mirrored = refl }

failed-IsValid : (c : ℕ) → IsValid (failed c)
failed-IsValid c = record {
  shows = inr (refl, omega arith, omega arith);
  status_mirrored = refl;
  code_mirrored = refl;
}

ready_operates : (play ready).current ≡ op
unfolding play exchange build find_sm is_sm_valid Pdo.is_config_ok Pdo.has_output Pdo.update_input
    Pdo.update_output Pdo.activate_output Pdo.activate_input set_sm_activate
ready_operates = refl

falls_to_init : (play (standing 0x01)).current ≡ init
unfolding play build
falls_to_init = refl

play-IsValid_example : IsValid (play ready)
play-IsValid_example = play-IsValid ready ready-IsValid

op_entered_example :
    (((play ready).current ≢ op)
      ⊎ (safe_op ≡ op)
      ⊎ ((safe_op ≡ safe_op) × MayOperate (exchange (read_watchdog ready)) (bit_and 0x08 0x0f)))
    × (((play ready).current ≡ safe_op) ⊎ ((play ready).status.is_valid_output_data ≡ false))
op_entered_example = op_entered ready ready-IsValid

enter_stops_outputs_example :
    IsOff (play (standing 0x01)).esc (play (standing 0x01)).pdo.sm_output.index
unfolding play build
enter_stops_outputs_example =
    enter_stops_outputs (standing 0x01) standing-IsValid (λ e. cc e) (inl falls_to_init) refl

watchdog_stops_outputs_example :
    ((play (working 0)).current ≡ safe_op)
    × ((play (working 0)).esc.al_status ≡ 0x14)
    × ((play (working 0)).esc.al_status_code ≡ 0x1b)
    × IsOff (play (working 0)).esc (play (working 0)).pdo.sm_output.index
watchdog_stops_outputs_example =
    watchdog_stops_outputs (working 0) (working-IsValid 0) refl refl
      (unfold play exchange build Pdo.update_output in refl)

init_clears_error_example :
    ((play (failed 0x01)).current ≡ init)
    × ((play (failed 0x01)).esc.al_status ≡ 0x01)
    × ((play (failed 0x01)).esc.al_status_code ≡ 0)
init_clears_error_example = init_clears_error (failed 0x01) (failed-IsValid 0x01) (refl, refl) refl

abbrev boot : Slave
boot = start (fresh (esc 0x02 1 0x01 0) unconfigured none none)

op_needs_three_example : IsValid (play (play boot)) × (rank (play (play boot)).current ≤ 2)
op_needs_three_example =
    op_needs_three (esc 0x02 1 0x01 0) unconfigured none none refl refl
      (Reach.played (Reach.played Reach.here))
