-- ===== src/CoE/Transfer/Download/Done.antt =====
-- The end of a segmented download, and the exchanges up to it
-- (lib/src/CoE/mailbox/request.cc and lib/src/CoE/mailbox/response.cc).
use kick_cat.Base.{
  ℕ, zero, suc, ◌+◌, ◌-◌, ◌≤◌, ◌<◌, ◌≡◌, refl, sym, ap, ◌∙◌, arith, true, false, not, ◌==◌, ==_ne,
  ==_self, ==_iff, Bool-cases, List, [], none, some, subst, inl, inr,
}
use kick_cat.Base.Lists.{
  length, take, drop, blit, take-add, take_all, take-blit_end, length-take, length-drop,
  length-blit,
}
use kick_cat.CoE.Message.{ProcessingResult, success, continue, finalize}
use kick_cat.CoE.Segment.{set_segment_length}
use kick_cat.CoE.Dictionary.{Entry, write_access, byte_size, after_hooks, Place, entry_at}
use kick_cat.CoE.Client.{Client, finish, set_toggle, prepare_download_segment, chunk_of}
use kick_cat.CoE.Server.{Server, hook_after, store_bytes}
use kick_cat.CoE.Server.Lookup.{entry_at-update}
use kick_cat.CoE.Server.Segments.{stop_segments, download_ack}
use kick_cat.CoE.Transfer.{transfer, exchange}
use kick_cat.CoE.Transfer.Download.{Segmented, prepare-Segmented, chunk_of-min}
use kick_cat.CoE.Transfer.Download.Run.{
  Downloading, with_bytes, store_next, serve_segment, receive_ack,
}

-- The bytes of the entry after the segment.
abbrev next_bytes : List ℕ → ℕ → Client → Server → List ℕ
next_bytes b chunk c s = blit s.segmented_offset (take chunk c.message.body) b

abbrev next_client : Client → Client
next_client c = prepare_download_segment (set_toggle (not c.message.sdo.complete_access) c)

module _ (p : Place) (e : Entry) (b : List ℕ) (k chunk : ℕ) (c : Client) (s : Server)
    (h : Downloading p e b k chunk c s) where
  next_bytes-stored : take (k + chunk) (next_bytes b chunk c s) ≡ take (k + chunk) c.memory
  next_bytes-stored =
      let src = take chunk (drop k c.memory) in
      let full : length src ≡ chunk = omega (
        arith,
        length-take chunk (drop k c.memory),
        length-drop k c.memory,
        h.segment.memory-le,
        h.segment.offset_is,
      ) in
      rw (h.segment.data_is, h.sent_is)
        (take-blit_end k (k + chunk) src b (omega (arith, full)) (omega (arith, h.backed, h.sum_is))
          ∙ rw h.stored (take-add k chunk c.memory))

  exchange_more :
      1 ≤ c.remaining
      → exchange c s
        ≡ (continue, next_client c, record (store_next p chunk c.message s) { replies = [] })
  exchange_more more =
      let test : (c.remaining == 0) ≡ false = ==_ne _ _ (λ q. absurd (omega (arith, q))) in
      rw
        (
          serve_segment p e b k chunk c s h,
          test,
          h.replies_are,
          receive_ack c (download_ack c.message s) h.segment.command_is refl refl refl refl refl
              (sym h.same_toggle),
          test,
        )
        refl

  exchange_last :
      c.remaining ≡ 0
      → exchange c s ≡ (
        finalize,
        (finish success c).1,
        record (stop_segments (hook_after write_access p (store_next p chunk c.message s))) {
          replies = [];
        },
      )
  exchange_last last =
      let test : (c.remaining == 0) ≡ true = ==_self _ _ last in
      rw
        (
          serve_segment p e b k chunk c s h,
          test,
          h.replies_are,
          receive_ack c (download_ack c.message s) h.segment.command_is refl refl refl refl refl
              (sym h.same_toggle),
          test,
        )
        refl

  next-Downloading :
      1 ≤ c.remaining
      → Downloading p e
          (next_bytes b chunk c s)
          (k + chunk)
          (chunk_of c)
          (exchange c s).1
          (exchange c s).2
  unfolding prepare_download_segment set_segment_length
  next-Downloading more =
      let c1 = set_toggle (not c.message.sdo.complete_access) c in
      let ready : Segmented c.offset (chunk_of c) (next_client c) =
        prepare-Segmented c1 h.segment.type_is h.segment.mailbox_min h.segment.mailbox_max
          h.segment.memory-le more in
      rw (exchange_more more) (record {
        segment = subst (λ n. Segmented n (chunk_of c) (next_client c)) h.segment.offset_is ready;
        sum_is = omega (arith, h.sum_is, chunk_of-min c);
        same_toggle = ap not h.same_toggle;
        place_is = h.place_is;
        entry_is =
            entry_at-update p (store_bytes (take chunk c.message.body) s.segmented_offset)
              s.dictionary (with_bytes e b) h.entry_is;
        backed = length-blit s.segmented_offset (take chunk c.message.body) b ∙ h.backed;
        small = h.small;
        sent_is = omega (arith, h.sent_is);
        replies_are = refl;
        stored = next_bytes-stored;
      })

-- The download is done: the client reports success, and the entry holds `bytes`, as the callbacks
-- after the access leave them.
pub record Downloaded (p : Place) (e : Entry) (bytes : List ℕ)
    (r : ProcessingResult × Client × Server) : Type 0 where
  pub finished : r.0 ≡ finalize
  pub succeeded : r.1.status ≡ success
  pub entry_is : entry_at r.2.dictionary p ≡ some (after_hooks write_access (with_bytes e bytes))
  pub ended : r.2.segmented_entry ≡ none

last-Downloaded :
    (p : Place) (e : Entry) (b : List ℕ) (k chunk : ℕ) (c : Client) (s : Server)
    → Downloading p e b k chunk c s
    → c.remaining ≡ 0
    → Downloaded p e (take (byte_size e) c.memory) (exchange c s)
last-Downloaded p e b k chunk c s h last =
    let total : k + chunk ≡ byte_size e = omega (arith, h.sum_is, last) in
    let all : next_bytes b chunk c s ≡ take (byte_size e) c.memory =
      sym (
        take_all (byte_size e) (next_bytes b chunk c s)
          (omega (arith, h.backed, length-blit s.segmented_offset (take chunk c.message.body) b)))
      ∙ subst (λ n. take n (next_bytes b chunk c s) ≡ take n c.memory) total
          (next_bytes-stored p e b k chunk c s h) in
    let stored : entry_at (store_next p chunk c.message s).dictionary p
        ≡ some (with_bytes e (next_bytes b chunk c s)) =
      entry_at-update p (store_bytes (take chunk c.message.body) s.segmented_offset) s.dictionary
        (with_bytes e b) h.entry_is in
    rw (exchange_last p e b k chunk c s h last) (record {
      finished = refl;
      succeeded = refl;
      entry_is =
          entry_at-update p (after_hooks write_access) (store_next p chunk c.message s).dictionary
            (with_bytes e (next_bytes b chunk c s)) stored
          ∙ ap (λ v. some (after_hooks write_access (with_bytes e v))) all;
      ended = refl;
    })

-- Each exchange sends at least one byte, so one more than there are bytes left is enough.
pub transfer-Downloaded :
    (n : ℕ) (p : Place) (e : Entry) (b : List ℕ) (k chunk : ℕ) (c : Client) (s : Server)
    → Downloading p e b k chunk c s
    → c.remaining < n
    → Downloaded p e (take (byte_size e) c.memory) (transfer n c s)
unfolding transfer prepare_download_segment
transfer-Downloaded zero p e b k chunk c s h enough = absurd (omega (arith, enough))
transfer-Downloaded (suc n) p e b k chunk c s h enough = elim (Bool-cases (c.remaining == 0)) [
  | inl q ↦
      let last : c.remaining ≡ 0 = (==_iff _ _).0 q in
      let done : (exchange c s).0 ≡ finalize =
        (last-Downloaded p e b k chunk c s h last).finished in
      rw (transfer, done) (last-Downloaded p e b k chunk c s h last)
  | inr q ↦
      let more : 1 ≤ c.remaining = ground (arith, q) in
      let step = exchange_more p e b k chunk c s h more in
      let again : (exchange c s).0 ≡ continue = ap (λ r. r.0) step in
      let same : (exchange c s).1.memory ≡ c.memory = ap (λ r. r.1.memory) step in
      let left : (exchange c s).1.remaining ≡ c.remaining - chunk_of c =
        ap (λ r. r.1.remaining) step in
      rw (transfer, again)
        (subst
          (λ m.
            Downloaded p e (take (byte_size e) m) (transfer n (exchange c s).1 (exchange c s).2))
          same
          (transfer-Downloaded n p e (next_bytes b chunk c s) (k + chunk) (chunk_of c)
            (exchange c s).1 (exchange c s).2 (next-Downloading p e b k chunk c s h more)
            (omega (arith, left, chunk_of-min c, h.segment.mailbox_min))))
]
