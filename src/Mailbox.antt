-- ===== src/Mailbox.antt =====
-- The mailbox queues of lib/src/Mailbox.cc: the master's (`Request`) and the slave's (`Response`).
pub mod Request
pub mod Response
mod Tests
use kick_cat.Base.{ℕ, ◌+◌, ◌%◌, ltb, if◌then◌else◌}

-- mailbox::nextCounter, on a `uint8_t`: the session handle of the next message.
abbrev pub next_counter : ℕ → ℕ
next_counter counter = let n = (counter + 1) % 256 in if ltb 7 n then 1 else n
