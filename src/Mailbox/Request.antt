-- ===== src/Mailbox/Request.antt =====
-- kickcat::mailbox::request::Mailbox of lib/src/Mailbox.cc: the messages that wait to be sent and
-- those that wait for a reply. The virtual functions of a message are a record of operations.
pub mod Order
use kick_cat.Base.{
  ℕ, ◌≡◌, Bool, true, false, ◌==◌, if◌then◌else◌, List, [], ◌∷◌, ◌++◌, Option, none, some,
}
use kick_cat.CoE.Message.{
  ProcessingResult, noop, continue, finalize, finalize_and_keep, running, timedout,
}
use kick_cat.Mailbox.{next_counter}

-- AbstractMessage; a message that does not take a reply stays as it is.
pub record MessageOps (M R : Type 0) : Type 0 where
  pub process : R → M → ProcessingResult × M
  pub set_counter : ℕ → M → M
  pub status_at : ℕ → M → ℕ × M
  pub noop-same : (r : R) (m : M) → (process r m).0 ≡ noop → (process r m).1 ≡ m

pub record Mailbox (M : Type 0) : Type 0 where
  pub recv_size : ℕ
  pub counter : ℕ
  pub to_send : List M
  pub to_process : List M

module _ {M R : Type 0} (ops : MessageOps M R) where
  -- A message with the next handle goes to the end of the queue.
  abbrev pub enqueue : M → Mailbox M → Mailbox M
  enqueue m b =
      let n = next_counter b.counter in
      record b { counter = n; to_send = b.to_send ++ (ops.set_counter n m ∷ []) }

  -- createSDO and its kin: an inactive mailbox throws.
  abbrev pub create : M → Mailbox M → Option (Mailbox M)
  create m b = if b.recv_size == 0 then none else some (enqueue m b)

  -- The caller sees to it that the queue is not empty.
  abbrev pub send_first : ℕ → M → List M → Mailbox M → M × Mailbox M
  send_first now m ms b =
      let (status, m') = ops.status_at now m in
      (
        m',
        record b {
          to_send = ms;
          to_process = if status == running then b.to_process ++ (m' ∷ []) else b.to_process;
        },
      )

  unfoldable pub send : ℕ → Mailbox M → Option (M × Mailbox M)
  send now b = elim b.to_send [ [] ↦ none | m ∷ ms ↦ some (send_first now m ms b) ]

  -- The messages whose time has run out are removed.
  unfoldable pub expire : ℕ → List M → List M
  expire now [] = []
  expire now (m ∷ ms) =
      let rest = expire now ms in
      let (status, m') = ops.status_at now m in if status == timedout then rest else m' ∷ rest

  -- The `for` of `receive`: whether a message took the reply, the messages that still wait, and the
  -- one that has another request to send.
  unfoldable pub offer : R → List M → Bool × List M × Option M
  offer r [] = (false, [], none)
  offer r (m ∷ ms) =
      let rest = offer r ms in
      elim (ops.process r m).0 [
        | noop ↦ (rest.0, (ops.process r m).1 ∷ rest.1, rest.2)
        | continue ↦ (true, ms, some (ops.process r m).1)
        | finalize ↦ (true, ms, none)
        | finalize_and_keep ↦ (true, (ops.process r m).1 ∷ ms, none)
      ]

  abbrev pub requeue : Option M → Mailbox M → Mailbox M
  requeue none b = b
  requeue (some m) b = enqueue m b

  unfoldable pub receive : R → ℕ → Mailbox M → Bool × Mailbox M
  unfolding expire offer
  receive r now b =
      let (handled, waiting, again) = offer r (expire now b.to_process) in
      (handled, requeue again (record b { to_process = waiting }))
