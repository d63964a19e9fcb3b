-- ===== src/Mailbox/Response/Repeat.antt =====
-- The repeat procedure and the queue of replies of the slave's mailbox (lib/src/Mailbox.cc).
use kick_cat.Base.{
  suc, ◌≤◌, ◌<◌, ◌≡◌, ◌≢◌, refl, ap, ◌∙◌, arith, Bool, true, false, if◌then◌else◌, List, [], ◌∷◌,
  ◌++◌, Option, none, some, ◌⊎◌, inl, inr, leb, leb_gt, Bool-cases,
}
use kick_cat.Base.Lists.{length, length-append, All}
use kick_cat.CoE.Message.{ProcessingResult, noop, continue, finalize, finalize_and_keep}
use kick_cat.Mailbox.Response.{
  send_from, add_built, Outcome, ServerOps, Mailbox, visit, apply_visit, build_first, accept,
  handle_message, process, SmView, bits_differ, note_fetch, irq_writes, send, empty_sm,
  write_message, ack_repeat, reset_irq,
}

bits_differ-true : (a b : Bool) → a ≢ b → bits_differ a b ≡ true
bits_differ-true true true h = absurd (h refl)
bits_differ-true true false h = refl
bits_differ-true false true h = refl
bits_differ-true false false h = absurd (h refl)

bits_differ-false : (a b : Bool) → bits_differ a b ≡ false → a ≡ b
bits_differ-false a b h = ground arith

-- The calls of `send` in which nothing is sent: the mailbox is full, and no repeat is requested.
abbrev pub IsIdle : SmView → Type 0
IsIdle sm = (sm.is_full ≡ true) × (sm.repeat_requested ≡ sm.repeat_acked)

same_bits : (a b : Bool) → a ≡ b → bits_differ a b ≡ false
same_bits a b h = ground arith

module _ {M R D : Type 0} where
  visit-shrinks :
      (f : M → D → Outcome M R D) (ms : List M) (d : D) → length (visit f ms d).messages ≤ length ms
  unfolding visit
  visit-shrinks f [] d = omega arith
  visit-shrinks f (m ∷ ms) d = by_result (visit-shrinks f ms (f m d).dictionary) (f m d).result refl
    where
      by_result :
          length (visit f ms (f m d).dictionary).messages ≤ length ms
          → (q : ProcessingResult) → (f m d).result ≡ q
          → length (visit f (m ∷ ms) d).messages ≤ suc (length ms)
      by_result k noop e = rw (visit, e) (omega (arith, k))
      by_result k continue e = rw (visit, e) (omega arith)
      by_result k finalize e = rw (visit, e) (omega arith)
      by_result k finalize_and_keep e = rw (visit, e) (omega arith)

  -- With room for one more, what a factory builds keeps within the limit.
  built-le :
      (ops : ServerOps M R D) (raw : R) (b : Mailbox M R D) (o : Option M)
      → length b.to_process < b.max_msgs
      → length (add_built ops raw o b).to_process ≤ b.max_msgs
  built-le ops raw b none h = omega arith
  built-le ops raw b (some m) h = omega (arith, length-append b.to_process (m ∷ []))

  accept-le :
      (ops : ServerOps M R D) (raw : R) (b : Mailbox M R D)
      → length b.to_process ≤ b.max_msgs
      → length (accept ops raw b).to_process ≤ b.max_msgs
  accept-le ops raw b h = elim (Bool-cases (leb b.max_msgs (length b.to_process))) [
    | inl q ↦ rw q h
    | inr q ↦ rw q (built-le ops raw b (build_first ops.factories raw) (leb_gt _ _ q))
  ]

  -- Requests do not pile up: when at most `max_msgs` messages are in progress, there are at most
  -- `max_msgs` after a request, whatever the messages do and whatever a factory builds.
  pub handle_message-le :
      (ops : ServerOps M R D) (raw : R) (b : Mailbox M R D)
      → length b.to_process ≤ b.max_msgs
      → length (handle_message ops raw b).to_process ≤ b.max_msgs
  unfolding handle_message
  handle_message-le ops raw b h =
      let v = visit (ops.process_raw raw) b.to_process b.dictionary in
      let k : length v.messages ≤ b.max_msgs =
        omega (arith, visit-shrinks (ops.process_raw raw) b.to_process b.dictionary) in
      elim (Bool-cases v.stopped) [
        | inl q ↦ rw q k
        | inr q ↦ rw q (accept-le ops raw (apply_visit v b) k)
      ]

  pub process-le :
      (ops : ServerOps M R D) (b : Mailbox M R D)
      → length (process ops b).to_process ≤ length b.to_process
  unfolding process
  process-le ops b = visit-shrinks ops.process b.to_process b.dictionary

  note_fetch-to_send : (sm : SmView) (b : Mailbox M R D) → (note_fetch sm b).to_send ≡ b.to_send
  note_fetch-to_send sm b = elim (Bool-cases sm.is_read) [ inl q ↦ rw q refl | inr q ↦ rw q refl ]

  abbrev pub sends : List SmView → Mailbox M R D → Mailbox M R D
  sends [] b = b
  sends (sm ∷ sms) b = sends sms (send sm b).0

  repeat_now :
      (sm : SmView) (b : Mailbox M R D)
      → sm.repeat_requested ≢ sm.repeat_acked
      → sm.is_read ≡ true
      → ((send sm b).0.to_send ≡ b.to_send)
        × ((send sm b).1
            ≡ reset_irq ∷ (if sm.is_full then empty_sm ∷ [] else [])
              ++ (write_message b.last_sent ∷ ack_repeat sm.repeat_requested ∷ []))
  unfolding send
  repeat_now sm b h read =
      let d : bits_differ sm.repeat_requested sm.repeat_acked ≡ true =
        bits_differ-true sm.repeat_requested sm.repeat_acked h in
      rw (d, read) (refl, refl)

  idle_keeps :
      (sms : List SmView) (b : Mailbox M R D)
      → All IsIdle sms
      → ((sends sms b).to_send ≡ b.to_send) × ((sends sms b).last_sent ≡ b.last_sent)
  unfolding send
  idle_keeps [] b a = (refl, refl)
  idle_keeps (sm ∷ sms) b a =
      let (q, l) = idle_keeps sms (send sm b).0 a.1 in
      let d = same_bits sm.repeat_requested sm.repeat_acked a.0.1 in
      let s : ((send sm b).0.to_send ≡ b.to_send) × ((send sm b).0.last_sent ≡ b.last_sent) =
        elim (Bool-cases sm.is_read) [
          | inl t ↦ rw (d, a.0.0, t) (refl, refl)
          | inr t ↦ rw (d, a.0.0, t) (refl, refl)
        ] in
      (q ∙ s.0, l ∙ s.1)

  sends_first :
      (sm : SmView) (b : Mailbox M R D) (r : R) (rs : List R)
      → b.to_send ≡ r ∷ rs
      → sm.repeat_requested ≡ sm.repeat_acked
      → sm.is_full ≡ false
      → sm.accepts ≡ true
      → ((send sm b).0.to_send ≡ rs)
        × ((send sm b).0.last_sent ≡ some r)
        × ((send sm b).1 ≡ irq_writes sm ++ (write_message (some r) ∷ []))
  unfolding send
  sends_first sm b r rs q h f a =
      let d = same_bits sm.repeat_requested sm.repeat_acked h in
      let noted = note_fetch-to_send sm b ∙ q in rw (d, f, noted, a) (refl, refl, refl)

  -- A reply that has been sent is sent again: the first reply of the queue goes out when no repeat is
  -- requested, the mailbox is empty and the ESC takes it; then, after any number of calls with a full
  -- mailbox and no request, a request to repeat that comes when the master has fetched the reply
  -- writes the same reply once more, empties a full sync manager before that and acknowledges the
  -- request after it, and the replies behind it still wait.
  pub repeat_resends :
      (sm again : SmView) (idle : List SmView) (b : Mailbox M R D) (r : R) (rs : List R)
      → b.to_send ≡ r ∷ rs
      → sm.repeat_requested ≡ sm.repeat_acked
      → sm.is_full ≡ false
      → sm.accepts ≡ true
      → All IsIdle idle
      → again.repeat_requested ≢ again.repeat_acked
      → again.is_read ≡ true
      → let b' = sends idle (send sm b).0 in
        ((send sm b).1 ≡ irq_writes sm ++ (write_message (some r) ∷ []))
        × ((send again b').1
            ≡ reset_irq ∷ (if again.is_full then empty_sm ∷ [] else [])
              ++ (write_message (some r) ∷ ack_repeat again.repeat_requested ∷ []))
        × ((send again b').0.to_send ≡ rs)
  repeat_resends sm again idle b r rs q h f a i h' read =
      let (left, last, written) = sends_first sm b r rs q h f a in
      let (same, kept) = idle_keeps idle (send sm b).0 i in
      let (queue, writes) = repeat_now again (sends idle (send sm b).0) h' read in
      let known = kept ∙ last in
      (
        written,
        writes
            ∙ ap
                (λ m.
                  reset_irq ∷ (if again.is_full then empty_sm ∷ [] else [])
                  ++ (write_message m ∷ ack_repeat again.repeat_requested ∷ []))
                known,
        queue ∙ same ∙ left,
      )

  send_from-Queue :
      (sm : SmView) (q : List R) (b : Mailbox M R D)
      → b.to_send ≡ q
      → ((send_from sm q b).0.to_send ≡ q)
        ⊎ ((r : R) × (q ≡ r ∷ (send_from sm q b).0.to_send)
            × ((send_from sm q b).0.last_sent ≡ some r)
            × ((send_from sm q b).1 ≡ write_message (some r) ∷ [])
            × (sm.accepts ≡ true))
  send_from-Queue sm [] b e = inl e
  send_from-Queue sm (r ∷ rs) b e = elim (Bool-cases sm.accepts) [
    | inl a ↦ inr (r, rw a refl, rw a refl, rw a refl, a)
    | inr a ↦ inl (rw a e)
  ]

  -- `send` leaves the queue as it is, or it takes the first reply from it: only when it writes that
  -- reply, the ESC takes it, the mailbox is not full and no repeat is requested. That reply is then
  -- the last one sent.
  pub send-Queue :
      (sm : SmView) (b : Mailbox M R D)
      → ((send sm b).0.to_send ≡ b.to_send)
        ⊎ ((r : R) × (b.to_send ≡ r ∷ (send sm b).0.to_send)
            × ((send sm b).0.last_sent ≡ some r)
            × ((send sm b).1 ≡ irq_writes sm ++ (write_message (some r) ∷ []))
            × (sm.accepts ≡ true)
            × (sm.is_full ≡ false)
            × (sm.repeat_requested ≡ sm.repeat_acked))
  unfolding send
  send-Queue sm b =
      let noted = note_fetch-to_send sm b in
      elim (Bool-cases (bits_differ sm.repeat_requested sm.repeat_acked)) [
        | inl d ↦ inl (rw d noted)
        | inr d ↦ elim (Bool-cases sm.is_full) [
          | inl f ↦ inl (rw (d, f) noted)
          | inr f ↦ elim (send_from-Queue sm b.to_send (note_fetch sm b) noted) [
            | inl k ↦ inl (rw (d, f, noted) k)
            | inr (r, q, l, w, a) ↦ inr (
              r,
              rw (d, f, noted) q,
              rw (d, f, noted) l,
              rw (d, f, noted) (ap (λ ws. irq_writes sm ++ ws) w),
              a,
              f,
              bits_differ-false _ _ d,
            )
          ]
        ]
      ]
