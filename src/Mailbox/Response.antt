-- ===== src/Mailbox/Response.antt =====
-- kickcat::mailbox::response::Mailbox of lib/src/Mailbox.cc: requests are offered to the messages in
-- progress, a factory builds a message from a new one, and the replies wait in a queue. The virtual
-- functions of a message are a record of operations: what they do to the dictionary, and the replies
-- they queue. The sync manager's register, as `send` reads it, is an argument.
pub mod Repeat
use kick_cat.Base.{
  ℕ, ◌≡◌, Bool, true, false, not, ◌==◌, leb, if◌then◌else◌, List, [], ◌∷◌, ◌++◌, Option, none, some,
}
use kick_cat.Base.Lists.{length}
use kick_cat.CoE.Message.{ProcessingResult, noop, continue, finalize, finalize_and_keep}

-- What a message in progress does: its result, itself, the dictionary and the replies it queues.
pub record Outcome (M R D : Type 0) : Type 0 where
  pub result : ProcessingResult
  pub message : M
  pub dictionary : D
  pub queued : List R

-- `factories` are the factories in the order they were added; `error_of` is what `replyError` makes
-- of a request and a code.
pub record ServerOps (M R D : Type 0) : Type 0 where
  pub process_raw : R → M → D → Outcome M R D
  pub process : M → D → Outcome M R D
  pub factories : List (R → Option M)
  pub error_of : R → ℕ → R

pub record Mailbox (M R D : Type 0) : Type 0 where
  pub max_msgs : ℕ
  pub dictionary : D
  pub to_process : List M
  pub to_send : List R
  pub last_sent : Option R
  pub repeat : Option R

abbrev pub no_more_memory : ℕ
no_more_memory = 0x07

abbrev pub unsupported_protocol : ℕ
unsupported_protocol = 0x02

-- The `for` of handleMessage and of process: whether a message stopped it, the messages, the
-- dictionary, the replies.
pub record Visit (M R D : Type 0) : Type 0 where
  pub stopped : Bool
  pub messages : List M
  pub dictionary : D
  pub queued : List R

module _ {M R D : Type 0} where
  abbrev pub keep : M → List R → Visit M R D → Visit M R D
  keep m rs v = record v { messages = m ∷ v.messages; queued = rs ++ v.queued }

  unfoldable pub visit : (M → D → Outcome M R D) → List M → D → Visit M R D
  visit f [] d = record { stopped = false; messages = []; dictionary = d; queued = [] }
  visit f (m ∷ ms) d =
      let o = f m d in
      let rest = visit f ms o.dictionary in
      elim o.result [
        | noop ↦ keep o.message o.queued rest
        | continue ↦ record {
          stopped = true;
          messages = o.message ∷ ms;
          dictionary = o.dictionary;
          queued = o.queued;
        }
        | finalize_and_keep ↦ record {
          stopped = true;
          messages = o.message ∷ ms;
          dictionary = o.dictionary;
          queued = o.queued;
        }
        | finalize ↦ record {
          stopped = true;
          messages = ms;
          dictionary = o.dictionary;
          queued = o.queued;
        }
      ]

  -- The state after a `for`.
  abbrev pub apply_visit : Visit M R D → Mailbox M R D → Mailbox M R D
  apply_visit v b = record b {
    to_process = v.messages;
    dictionary = v.dictionary;
    to_send = b.to_send ++ v.queued;
  }

-- The first factory that builds a message.
abbrev pub build_first : {M R : Type 0} → List (R → Option M) → R → Option M
build_first [] raw = none
build_first (f ∷ fs) raw =
    let rest = build_first fs raw in elim (f raw) [ some m ↦ some m | none ↦ rest ]

module _ {M R D : Type 0} (ops : ServerOps M R D) where
  abbrev pub reply_error : R → ℕ → Mailbox M R D → Mailbox M R D
  reply_error raw code b = record b { to_send = b.to_send ++ (ops.error_of raw code ∷ []) }

  -- What a factory has built is a message in progress.
  abbrev pub add_built : R → Option M → Mailbox M R D → Mailbox M R D
  add_built raw none b = reply_error raw unsupported_protocol b
  add_built raw (some m) b = record b { to_process = b.to_process ++ (m ∷ []) }

  -- No message in progress takes the request.
  abbrev pub accept : R → Mailbox M R D → Mailbox M R D
  accept raw b =
      if leb b.max_msgs (length b.to_process)
      then reply_error raw no_more_memory b
      else add_built raw (build_first ops.factories raw) b

  unfoldable pub handle_message : R → Mailbox M R D → Mailbox M R D
  unfolding visit
  handle_message raw b =
      let v = visit (ops.process_raw raw) b.to_process b.dictionary in
      if v.stopped then apply_visit v b else accept raw (apply_visit v b)

  unfoldable pub process : Mailbox M R D → Mailbox M R D
  unfolding visit
  process b = apply_visit (visit ops.process b.to_process b.dictionary) b

abbrev pub pop_reply : {M R D : Type 0} → Mailbox M R D → Option R × Mailbox M R D
pop_reply b = elim b.to_send [ [] ↦ (none, b) | r ∷ rs ↦ (some r, record b { to_send = rs }) ]

abbrev pub process_request :
    {M R D : Type 0} → ServerOps M R D → R → Mailbox M R D → Option R × Mailbox M R D
process_request ops raw b = pop_reply (process ops (handle_message ops raw b))

-- The register of the sync manager that the master reads from, and whether the ESC takes a write.
pub record SmView : Type 0 where
  pub is_full : Bool
  pub is_read : Bool
  pub repeat_requested : Bool
  pub repeat_acked : Bool
  pub accepts : Bool

-- What `send` does to the ESC.
pub data EscWrite (R : Type 0) : Type 0 where
  reset_irq : EscWrite R
  empty_sm : EscWrite R
  write_message : Option R → EscWrite R
  ack_repeat : Bool → EscWrite R

abbrev pub bits_differ : Bool → Bool → Bool
bits_differ true b = not b
bits_differ false b = b

abbrev pub irq_writes : {R : Type 0} → SmView → List (EscWrite R)
irq_writes sm = if sm.is_read then reset_irq ∷ [] else []

module _ {M R D : Type 0} where
  -- The last message is the one to repeat once the master has fetched it.
  abbrev pub note_fetch : SmView → Mailbox M R D → Mailbox M R D
  note_fetch sm b = if sm.is_read then record b { repeat = b.last_sent } else b

  -- `esc_->write` returns how much it has written; the message leaves the queue only then.
  abbrev pub send_from : SmView → List R → Mailbox M R D → Mailbox M R D × List (EscWrite R)
  send_from sm [] b = (b, [])
  send_from sm (r ∷ rs) b =
      if sm.accepts
      then (record b { last_sent = some r; to_send = rs }, write_message (some r) ∷ [])
      else (b, write_message (some r) ∷ [])

  abbrev pub repeat_writes : SmView → Mailbox M R D → List (EscWrite R)
  repeat_writes sm b =
      (if sm.is_full then empty_sm ∷ [] else [])
      ++ (write_message b.repeat ∷ ack_repeat sm.repeat_requested ∷ [])

  unfoldable pub send : SmView → Mailbox M R D → Mailbox M R D × List (EscWrite R)
  send sm b =
      let noted = note_fetch sm b in
      if bits_differ sm.repeat_requested sm.repeat_acked
      then (noted, irq_writes sm ++ repeat_writes sm noted)
      else if sm.is_full
      then (noted, irq_writes sm)
      else (let (b', ws) = send_from sm noted.to_send noted in (b', irq_writes sm ++ ws))
