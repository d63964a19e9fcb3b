-- ===== src/Slave/Mbx.antt =====
-- lib/src/Mailbox.cc, class response::Mailbox: the operations on the mailbox's sync managers.
use kick_cat.Base.{ℕ, Bool, false, ◌&&◌, ◌||◌, not, ◌==◌, ltb, if◌then◌else◌, [], ◌∷◌, Option, some}
use kick_cat.Slave.Esc.{
  SmConfig, SmRegister, Esc, is_used, mbx_in, mbx_out, find_sm, is_sm_valid, set_sm_activate,
}

pub record Mbx : Type 0 where
  pub sm_in : SmConfig
  pub sm_out : SmConfig
  pub max_allocated_ram : ℕ

-- What `configure` returns: 0, or an errno.
pub data Configured : Type 0 where
  done overflow again : Configured

configure_with : Option (ℕ × SmRegister) → Option (ℕ × SmRegister) → Mbx → Configured × Mbx
configure_with (some (i, sm)) (some (o, so)) m =
    if not (sm.length == so.length) || ltb m.max_allocated_ram sm.length then (overflow, m) else (
      done,
      record m {
        sm_in = mbx_in i sm.start_address sm.length;
        sm_out = mbx_out o so.start_address so.length;
      },
    )
configure_with _ _ m = (again, m)

-- SM_CONTROL_MODE_MAILBOX | SM_CONTROL_DIRECTION_READ is 2, and with _WRITE 6.
unfoldable pub configure : Esc → Mbx → Configured × Mbx
unfolding configure_with
configure esc m = configure_with (find_sm esc 0x02) (find_sm esc 0x06) m

unfoldable pub is_config_ok : Esc → Mbx → Bool
is_config_ok esc m =
    if not (is_used m.sm_in) || not (is_used m.sm_out)
    then false
    else is_sm_valid esc m.sm_in && is_sm_valid esc m.sm_out

unfoldable pub activate : Esc → Mbx → Bool → Esc
activate esc m on =
    if is_used m.sm_in && is_used m.sm_out
    then set_sm_activate esc (m.sm_in ∷ m.sm_out ∷ []) on
    else esc
