-- ===== src/Sequencer.antt =====
-- kickcat::MailboxSequencer of lib/master/src/MailboxSequencer.cc: one mailbox operation of the bus
-- every `period` calls. A period below zero sends with every call, as zero does.
pub mod Rounds
mod Tests
use kick_cat.Base.{ℕ, ◌+◌, ◌%◌, Bool, ◌&&◌, ◌||◌, ◌==◌, ltb, if◌then◌else◌, Option, none, some}

-- The operations of the bus that the sequencer calls.
pub data Operation : Type 0 where
  read_checks : Operation
  read_messages : Operation
  write_checks : Operation
  write_messages : Operation

pub record Sequencer : Type 0 where
  pub period : ℕ
  pub counter : ℕ
  pub phase : ℕ

abbrev pub start : ℕ → Sequencer
start period = record { period = period; counter = 0; phase = 0 }

abbrev pub operation_of : ℕ → Operation
operation_of phase =
    if phase == 0
    then read_checks
    else if phase == 1
    then read_messages
    else if phase == 2
    then write_checks
    else write_messages

-- The flags say whether the mailbox status is mapped, so that the datagrams of the process data do
-- the checks.
unfoldable pub step : Bool → Bool → Sequencer → Option Operation × Sequencer
step has_read_check has_write_check s =
    let phase =
      if (s.phase == 0 && has_read_check) || (s.phase == 2 && has_write_check)
      then (s.phase + 1) % 4
      else s.phase in
    if ltb (s.counter + 1) s.period
    then (none, record s { counter = s.counter + 1 })
    else (some (operation_of phase), record s { counter = 0; phase = (phase + 1) % 4 })
