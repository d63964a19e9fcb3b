-- ===== src/Ds402/Tests.antt =====
-- The drive state machine of lib/src/CoE/CiA/DS402/StateMachine.cc on concrete status words.
use kick_cat.Base.{ℕ, ◌+◌, ◌*◌, ◌≤◌, ◌≡◌, ◌⊎◌, refl, arith, true, false, List, [], ◌∷◌}
use kick_cat.Base.Lists.{All}
use kick_cat.Ds402.{
  Command, enable, State, off, safe_reset, switch_on, on, StateMachine, Reads, initial, has,
  fault_state, on_state, Cycle, run, update,
}
use kick_cat.Ds402.Safety.{update_enters_on, update_fault}
use kick_cat.Ds402.Stabilization.{words, stabilization_holds}
use kick_cat.Ds402.FaultReset.{edges}
use kick_cat.Ds402.Sequence.{Enabled, enable_completes}

abbrev ms : ℕ → ℕ
ms n = n * 1_000_000

abbrev at : ℕ → Reads
at n = record { start = ms n; test = ms n; stamp = ms n; last = ms n }

abbrev enabling : StateMachine
enabling = record initial { command = enable }

abbrev faulted : StateMachine
faulted = record enabling { was_faulted = true }

-- A drive that goes up in half a second.
abbrev answers : List Cycle
answers = (at 10, 0x40) ∷ (at 200, 0x40) ∷ (at 300, 0x31) ∷ (at 400, 0x37) ∷ []

answers_enable : (run enabling answers).motor_state ≡ on
unfolding run update
answers_enable = refl

enable_completes_example : Enabled (run enabling answers)
enable_completes_example =
    enable_completes enabling (at 10) (at 200) (at 300) (at 400) 0x40 0x40 0x31 0x37
      (refl, refl, refl) (refl, refl, refl, refl) (omega arith) (omega arith) refl refl

abbrev ready : StateMachine
ready = record enabling { motor_state = switch_on }

update_enters_on_example :
    (switch_on ≡ on)
    ⊎ ((switch_on ≡ switch_on)
        × (enable ≡ enable)
        × (has 0x37 on_state ≡ true)
        × (has 0x37 fault_state ≡ false)
        × ((update (at 10) ready 0x37).control_word ≡ 0x0f)
        × ((update (at 10) ready 0x37).command ≡ Command.none))
update_enters_on_example = update_enters_on (at 10) ready 0x37 (unfold update in refl)

update_fault_example :
    (enable ≡ Command.disable)
    ⊎ ((update (at 10) ready 0x08).motor_state ≡ off)
    ⊎ ((update (at 10) ready 0x08).motor_state ≡ State.fault)
update_fault_example = update_fault (at 10) ready 0x08 refl

-- The fault has cleared: the first call stamps 10 ms, and the third is 190 ms behind it.
stabilization_holds_example :
    All (λ (w : ℕ). w ≡ 0) (words faulted ((at 10, 0x40) ∷ (at 60, 0x40) ∷ (at 200, 0x40) ∷ []))
    × ((run faulted ((at 10, 0x40) ∷ (at 60, 0x40) ∷ (at 200, 0x40) ∷ [])).motor_state ≡ safe_reset)
    × (ms 10 + 100_000_000 ≤ ms 200)
unfolding update
stabilization_holds_example =
    stabilization_holds faulted (at 10) 0x40 ((at 60, 0x40) ∷ (at 200, 0x40) ∷ []) refl refl refl
      refl ((refl, omega arith), ((refl, omega arith), ((refl, omega arith), tt)))
      (refl, (refl, λ e. cc e))

abbrev faults : List Cycle
faults = (at 60, 0x08) ∷ (at 70, 0x08) ∷ (at 120, 0x08) ∷ (at 180, 0x18) ∷ []

edges-faults : edges enabling faults ≡ 3
unfolding edges update
edges-faults = refl
