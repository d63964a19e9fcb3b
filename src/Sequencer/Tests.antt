-- ===== src/Sequencer/Tests.antt =====
-- A sequencer of period 3 whose read checks are mapped.
use kick_cat.Base.{◌≡◌, ◌*◌, true, false, [], ◌∷◌, arith}
use kick_cat.Sequencer.{read_messages, write_checks, write_messages, start}
use kick_cat.Sequencer.Rounds.{calls, round-sends}

round-sends_example :
    calls true false (3 * 3) (start 3)
    ≡ (read_messages ∷ write_checks ∷ write_messages ∷ [], start 3)
round-sends_example = round-sends true false 3 (omega arith)
