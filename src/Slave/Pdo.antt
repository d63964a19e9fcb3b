-- ===== src/Slave/Pdo.antt =====
-- lib/slave/src/PDO.cc: the sync managers of the process data and the copies between the
-- application's buffers and the ESC. `configureMapping` is not in this file.
use kick_cat.Base.{ℕ, Bool, ◌&&◌, not, ltb, if◌then◌else◌, List, [], ◌∷◌, Option, none, some}
use kick_cat.Base.Lists.{take, blit}
use kick_cat.Slave.Esc.{
  SmConfig, SmRegister, Esc, is_used, no_config, pi_in, pi_out, direction_read, direction_write,
  find_sm, is_sm_valid, set_sm_activate, read_memory, write_memory,
}

pub record Pdo : Type 0 where
  pub input : Option (List ℕ)  -- the buffer, `none` for nullptr
  pub sm_input : SmConfig
  pub output : Option (List ℕ)
  pub sm_output : SmConfig

-- StatusCode values that the process data returns.
abbrev pub no_error : ℕ
no_error = 0

abbrev pub invalid_output_configuration : ℕ
invalid_output_configuration = 0x1d

abbrev pub invalid_input_configuration : ℕ
invalid_input_configuration = 0x1e

abbrev resolve : (ℕ → ℕ → ℕ → SmConfig) → Option (ℕ × SmRegister) → SmConfig
resolve make none = no_config
resolve make (some (i, sm)) =
    if ltb 0 sm.length then make i sm.start_address sm.length else no_config

-- `configure` always returns 0.
unfoldable pub configure : Esc → Pdo → Pdo
configure esc p = record p {
  sm_input = resolve pi_in (find_sm esc direction_read);
  sm_output = resolve pi_out (find_sm esc direction_write);
}

unfoldable pub is_config_ok : Esc → Pdo → ℕ
is_config_ok esc p =
    if is_used p.sm_input && not (is_sm_valid esc p.sm_input)
    then invalid_input_configuration
    else if is_used p.sm_output && not (is_sm_valid esc p.sm_output)
    then invalid_output_configuration
    else no_error

unfoldable pub has_output : Pdo → Bool
has_output p = is_used p.sm_output

unfoldable pub activate_output : Esc → Pdo → Bool → Esc
activate_output esc p on =
    if is_used p.sm_output then set_sm_activate esc (p.sm_output ∷ []) on else esc

unfoldable pub activate_input : Esc → Pdo → Bool → Esc
activate_input esc p on =
    if is_used p.sm_input then set_sm_activate esc (p.sm_input ∷ []) on else esc

write_input : Option (List ℕ) → Esc → Pdo → Esc
write_input none esc p = esc
write_input (some buffer) esc p =
    if is_used p.sm_input
    then record esc {
      memory = write_memory esc.memory p.sm_input.start_address (take p.sm_input.length buffer);
    }
    else esc

unfoldable pub update_input : Esc → Pdo → Esc
unfolding write_input
update_input esc p = write_input p.input esc p

read_output : Option (List ℕ) → Esc → Pdo → Pdo
read_output none esc p = p
read_output (some buffer) esc p =
    if is_used p.sm_output
    then record p {
      output =
          some
            (blit 0 (read_memory esc.memory p.sm_output.start_address p.sm_output.length) buffer);
    }
    else p

unfoldable pub update_output : Esc → Pdo → Pdo
unfolding read_output
update_output esc p = read_output p.output esc p
