-- ===== src/CoE/Transfer/Upload/Run.antt =====
-- The exchanges of a segmented upload from its first segment to its last: the server of
-- lib/src/CoE/mailbox/response.cc and the client of lib/src/CoE/mailbox/request.cc.
use kick_cat.Base.{
  ℕ, zero, suc, ◌+◌, ◌≤◌, ◌<◌, ◌≡◌, refl, sym, ap, ◌∙◌, arith, Bool, true, false, not, ltb, [],
  subst, Bool-cases, ltb→lt, ltb_ge, inl, inr,
}
use kick_cat.Base.Lists.{
  length, take, drop, take-add, take-blit_end, length-take, length-drop, length-blit, take_all,
}
use kick_cat.Base.Bytes.{sub32, sub32_lem}
use kick_cat.CoE.Message.{ProcessingResult, success, continue, finalize}
use kick_cat.CoE.Dictionary.{Entry, byte_size, Place}
use kick_cat.CoE.Client.{Client, store_segment, set_toggle, finish}
use kick_cat.CoE.Server.{Server}
use kick_cat.CoE.Server.Segments.{upload_segment, advance}
use kick_cat.CoE.Transfer.{transfer, exchange}
use kick_cat.CoE.Transfer.Upload.{
  Uploading, next_chunk, Carries, upload_segment-Carries, receive_segment, send_more, send_last,
}

-- The segment is within the buffer.
room :
    (p : Place) (e : Entry) (k : ℕ) (c : Client) (s : Server)
    → Uploading p e k c s
    → next_chunk e k c ≤ sub32 c.buffer_size c.size
room p e k c s h = omega (
  arith,
  h.size_is,
  h.fits,
  h.sent-lt,
  sub32_lem c.buffer_size c.size (omega (arith, h.size_is, h.fits, h.sent-lt)) h.buffer-lt,
)

carried :
    (p : Place) (e : Entry) (k : ℕ) (last : Bool) (c : Client) (s : Server)
    → Uploading p e k c s
    → Carries e k
        (next_chunk e k c)
        last
        c.message.sdo.complete_access
        c
        (upload_segment p c.message (next_chunk e k c) last s)
carried p e k last c s h =
    subst
      (λ t.
        Carries e k (next_chunk e k c) last t c
          (upload_segment p c.message (next_chunk e k c) last s))
      (sym h.same_toggle) (upload_segment-Carries p e k last c s h)

-- What the client has after the segment.
abbrev pub stored_segment : Place → Entry → ℕ → Bool → Client → Server → Client
stored_segment p e k last c s =
    store_segment (upload_segment p c.message (next_chunk e k c) last s) (next_chunk e k c) c

exchange_more :
    (p : Place) (e : Entry) (k : ℕ) (c : Client) (s : Server)
    → Uploading p e k c s
    → k + next_chunk e k c < byte_size e
    → exchange c s ≡ (
      continue,
      set_toggle (not c.message.sdo.complete_access) (stored_segment p e k false c s),
      record (advance
          (next_chunk e k c)
          (upload_segment p c.message (next_chunk e k c) false s)
          s) { replies = [] },
    )
exchange_more p e k c s h more =
    rw
      (
        send_more p e k c s h (omega (arith, h.fits, h.buffer-lt)) more,
        h.replies_are,
        receive_segment e k (next_chunk e k c) false c _ h.command_is (carried p e k false c s h)
            (room p e k c s h),
      )
      refl

exchange_last :
    (p : Place) (e : Entry) (k : ℕ) (c : Client) (s : Server)
    → Uploading p e k c s
    → k + next_chunk e k c ≡ byte_size e
    → ((exchange c s).0 ≡ finalize)
      × ((exchange c s).1 ≡ (finish success (stored_segment p e k true c s)).1)
exchange_last p e k c s h done =
    rw
      (
        send_last p e k c s h (omega (arith, h.fits, h.buffer-lt)) done,
        h.replies_are,
        receive_segment e k (next_chunk e k c) true c _ h.command_is (carried p e k true c s h)
            (room p e k c s h),
      )
      (refl, refl)

-- The bytes that have arrived are those of the entry.
stored-bytes :
    (p : Place) (e : Entry) (k : ℕ) (last : Bool) (c : Client) (s : Server)
    → Uploading p e k c s
    → take (k + next_chunk e k c) (stored_segment p e k last c s).memory
      ≡ take (k + next_chunk e k c) e.bytes
stored-bytes p e k last c s h =
    let chunk = next_chunk e k c in
    let src = take chunk (drop k e.bytes) in
    let full : length src ≡ chunk =
      omega (arith, length-take chunk (drop k e.bytes), length-drop k e.bytes, h.backed) in
    let fit : k + chunk ≤ length c.memory = omega (arith, h.fits, h.memory-le) in
    rw (h.offset_is, (carried p e k last c s h).data_is)
      (take-blit_end k (k + chunk) src c.memory (omega (arith, full)) fit
        ∙ rw h.received (take-add k chunk e.bytes))

chunk-pos :
    (p : Place) (e : Entry) (k : ℕ) (c : Client) (s : Server)
    → Uploading p e k c s
    → 1 ≤ next_chunk e k c
chunk-pos p e k c s h = omega (arith, h.sent-lt, h.mailbox_min)

next-Uploading :
    (p : Place) (e : Entry) (k : ℕ) (c : Client) (s : Server)
    → Uploading p e k c s
    → k + next_chunk e k c < byte_size e
    → Uploading p e (k + next_chunk e k c) (exchange c s).1 (exchange c s).2
next-Uploading p e k c s h more = rw (exchange_more p e k c s h more) (record {
  command_is = h.command_is;
  type_is = h.type_is;
  len_is = h.len_is;
  service_is = h.service_is;
  same_toggle = ap not h.same_toggle;
  mailbox_min = h.mailbox_min;
  mailbox_max = h.mailbox_max;
  size_is = omega (arith, h.size_is, h.fits, h.buffer-lt, more);
  offset_is = omega (arith, h.offset_is);
  fits = h.fits;
  buffer-lt = h.buffer-lt;
  memory-le = omega (
    arith,
    h.memory-le,
    length-blit c.offset
        (take (next_chunk e k c) (upload_segment p c.message (next_chunk e k c) false s).body)
        c.memory,
  );
  place_is = h.place_is;
  entry_is = h.entry_is;
  backed = h.backed;
  sent_is = omega (arith, h.sent_is);
  replies_are = refl;
  sent-lt = more;
  received = stored-bytes p e k false c s h;
})

-- The upload of `e` is done: all its bytes are in the buffer, and the client reports success.
pub record Uploaded (e : Entry) (r : ProcessingResult × Client × Server) : Type 0 where
  pub finished : r.0 ≡ finalize
  pub succeeded : r.1.status ≡ success
  pub whole : r.1.size ≡ byte_size e
  pub bytes_are : take (byte_size e) r.1.memory ≡ e.bytes

last-Uploaded :
    (p : Place) (e : Entry) (k : ℕ) (c : Client) (s : Server)
    → Uploading p e k c s
    → k + next_chunk e k c ≡ byte_size e
    → Uploaded e (exchange c s)
last-Uploaded p e k c s h done =
    let (one, two) = exchange_last p e k c s h done in
    record {
      finished = one;
      succeeded = rw two refl;
      whole = rw two (omega (arith, h.size_is, h.fits, h.buffer-lt));
      bytes_are = rw two (
          subst (λ n. take n (stored_segment p e k true c s).memory ≡ take n e.bytes) done
            (stored-bytes p e k true c s h)
          ∙ take_all (byte_size e) e.bytes (omega (arith, h.backed)));
    }

-- Each exchange brings at least one byte, so as many exchanges as there are bytes left are enough.
pub transfer-Uploaded :
    (n : ℕ) (p : Place) (e : Entry) (k : ℕ) (c : Client) (s : Server)
    → Uploading p e k c s
    → byte_size e ≤ k + n
    → Uploaded e (transfer n c s)
unfolding transfer
transfer-Uploaded zero p e k c s h enough = absurd (omega (arith, h.sent-lt))
transfer-Uploaded (suc n) p e k c s h enough =
    elim (Bool-cases (ltb (k + next_chunk e k c) (byte_size e))) [
      | inl b ↦
          let more : k + next_chunk e k c < byte_size e = ltb→lt _ _ b in
          let again : (exchange c s).0 ≡ continue =
            ap (λ r. r.0) (exchange_more p e k c s h more) in
          rw (transfer, again)
            (transfer-Uploaded n p e (k + next_chunk e k c) (exchange c s).1 (exchange c s).2
              (next-Uploading p e k c s h more) (omega (arith, chunk-pos p e k c s h)))
      | inr b ↦
          let done : k + next_chunk e k c ≡ byte_size e = omega (arith, ltb_ge _ _ b, h.sent-lt) in
          rw (transfer, (exchange_last p e k c s h done).0) (last-Uploaded p e k c s h done)
    ]
