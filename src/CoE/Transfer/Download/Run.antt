-- ===== src/CoE/Transfer/Download/Run.antt =====
-- The exchanges of a segmented download from its first segment to its last
-- (lib/src/CoE/mailbox/request.cc and lib/src/CoE/mailbox/response.cc).

use kick_cat.Base.{
  ℕ, ◌+◌, ◌≤◌, ◌<◌, ◌≡◌, refl, ◌∙◌, arith, Bool, false, not, ltb, ◌==◌, ◌%◌, le→ltb, if◌then◌else◌,
  List, [], some,
}
use kick_cat.Base.Lists.{length, take}
use kick_cat.Base.Bytes.{word32}
use kick_cat.CoE.Message.{
  Message, type_coe, sdo_request, sdo_response, download_segmented, download_segmented_response,
  success, continue, finalize, finalize_and_keep,
}
use kick_cat.CoE.Dictionary.{Entry, write_access, byte_size, Place, entry_at, update_entry}
use kick_cat.CoE.Client
use kick_cat.CoE.Client.{Client, finish, set_toggle, prepare_download_segment, chunk_of}
use kick_cat.CoE.Server.{Server, hook_after, store_bytes}
use kick_cat.CoE.Server.Segments.{
  toggle_differs, stop_segments, total_size, advance, download_ack, download_segment,
  continue_transfer, process_raw,
}
use kick_cat.CoE.Transfer.Download.{Segmented}

abbrev pub with_bytes : Entry → List ℕ → Entry
with_bytes e b = record e { bytes = b }

-- The server has the first `k` bytes, in `b`; the client has the next segment ready.
pub record Downloading (p : Place) (e : Entry) (b : List ℕ) (k chunk : ℕ) (c : Client) (s : Server)
    : Type 0 where
  pub segment : Segmented k chunk c
  pub sum_is : k + chunk + c.remaining ≡ byte_size e
  pub same_toggle : c.message.sdo.complete_access ≡ s.segmented_toggle
  pub place_is : s.segmented_entry ≡ some p
  pub entry_is : entry_at s.dictionary p ≡ some (with_bytes e b)
  pub backed : length b ≡ byte_size e
  pub small : byte_size e < word32
  pub sent_is : s.segmented_offset ≡ k
  pub replies_are : s.replies ≡ []
  pub stored : take k b ≡ take k c.memory

same-toggle : (a b : Bool) → a ≡ b → toggle_differs a b ≡ false
same-toggle a b h = ground arith

continue-download :
    (p : Place) (raw : Message) (s : Server)
    → s.segmented_entry ≡ some p
    → raw.header.mtype ≡ type_coe
    → raw.coe_header.service ≡ sdo_request
    → 10 ≤ raw.header.len
    → raw.sdo.command ≡ download_segmented
    → process_raw raw s ≡ download_segment p raw s
unfolding process_raw continue_transfer
continue-download p raw s at t v l q = rw at (ground arith)

-- The server after it has stored the segment.
abbrev pub store_next : Place → ℕ → Message → Server → Server
store_next p chunk raw s = advance chunk (download_ack raw s) (record s {
  dictionary = update_entry p (store_bytes (take chunk raw.body) s.segmented_offset) s.dictionary;
})

pub serve_segment :
    (p : Place) (e : Entry) (b : List ℕ) (k chunk : ℕ) (c : Client) (s : Server)
    → Downloading p e b k chunk c s
    → process_raw c.message s ≡ (
        if c.remaining == 0
        then (finalize, stop_segments (hook_after write_access p (store_next p chunk c.message s)))
        else (finalize_and_keep, store_next p chunk c.message s))
unfolding download_segment
serve_segment p e b k chunk c s h =
    let t : total_size p s ≡ byte_size e = rw (total_size, h.entry_is) refl in
    let fits : ltb (total_size p s) ((s.segmented_offset + chunk) % word32) ≡ false =
      le→ltb _ _ (omega (arith, t, h.sent_is, h.sum_is, h.small)) in
    continue-download p c.message s h.place_is h.segment.type_is h.segment.service_is
      h.segment.len-ge h.segment.command_is
    ∙ rw (h.segment.chunk_is, same-toggle _ _ h.same_toggle, fits, h.segment.last_is) refl

-- The acknowledgment of a segment, at the client.
pub receive_ack :
    (c : Client) (m : Message)
    → c.message.sdo.command ≡ download_segmented
    → m.header.address ≡ 0
    → m.header.mtype ≡ type_coe
    → m.coe_header.service ≡ sdo_response
    → m.header.len ≡ 3
    → m.sdo.command ≡ download_segmented_response
    → m.sdo.complete_access ≡ c.message.sdo.complete_access
    → Client.process m c ≡ (
        if c.remaining == 0 then finish success c else (
          continue,
          prepare_download_segment (set_toggle (not c.message.sdo.complete_access) c),
        ))
unfolding Client.process Client.process_command Client.process_download_segmented
receive_ack c m q a t v l r g = ground arith
