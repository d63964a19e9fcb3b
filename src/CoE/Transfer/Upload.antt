-- ===== src/CoE/Transfer/Upload.antt =====
-- One exchange of a segmented upload: the server of lib/src/CoE/mailbox/response.cc sends a segment
-- and the client of lib/src/CoE/mailbox/request.cc stores it.
pub mod Run
pub mod Initiate
pub mod Single
pub mod Session
pub mod Roundtrip
use kick_cat.Base.{
  ℕ, zero, suc, ◌+◌, ◌-◌, ◌≤◌, ◌<◌, ◌≡◌, refl, sym, ap, ◌∙◌, arith, min, Bool, true, false, not,
  ltb, ◌==◌, if◌then◌else◌, List, [], ◌∷◌, ◌++◌, Option, none, some, subst, ==_ne, ==_self,
}
use kick_cat.Base.Lists.{
  length, take, drop, replicate, blit, take-add, take-blit_end, length-take, length-drop,
  length-replicate, length-blit,
}
use kick_cat.Base.Bytes.{word32, sub32, sub32_lem}
use kick_cat.CoE.Message.{
  Header, CoeHeader, ServiceData, Message, data_size, index_of, subindex_of, payload,
  ProcessingResult, type_coe, gateway_message_mask, is_gateway, sdo_request, sdo_response,
  sdo_information, download_segmented, download, upload, upload_segmented, abort,
  upload_segmented_response, download_segmented_response, upload_response, download_response,
  success, running, timedout, wrong_service, unknown_service, client_buffer_too_small,
  segment_bad_toggle_bit, noop, continue, finalize, finalize_and_keep,
}
use kick_cat.CoE.Segment.{
  segment_data_size, segment_data_length, set_segment_length, segment-length_roundtrip,
}
use kick_cat.CoE.Dictionary.{
  Entry, Object, Dictionary, read_access, write_access, has_access, byte_size, run_hooks,
  before_hooks, after_hooks, get_elem?, modify, Place, Found, find_entry, find_from, find_object,
  entries_of, entry_at, update_entry, no_object, no_entry, found,
}
use kick_cat.CoE.Client
use kick_cat.CoE.Client.{Client, store_segment, set_toggle, finish}
use kick_cat.CoE.Server.{
  Reply, Server, serve, toggle_bit_not_alternated, unsupported_access, read_write_only_access,
  write_read_only_access, object_does_not_exist, data_type_length_mismatch,
  data_type_length_too_high, subindex_does_not_exist, general_error, size_too_short, reply,
  reply_message, set_service, set_len, abort_with, hook_before, hook_after, bytes_at, upload_reply,
  start_segments, upload_entry, declared_size, skip_size, store_bytes, download_entry, sdo_reply,
  error_reply,
}
use kick_cat.CoE.Server.Segments.{
  toggle_differs, fresh_reply, stop_segments, abort_segments, total_size, upload_chunk,
  upload_segment, advance, process_upload_segment, download_ack, download_segment,
  continue_transfer, process_raw,
}
use kick_cat.CoE.Transfer.{transfer, exchange, deliver}

-- A client that asks for the segment behind the first `k` bytes, of a server that has sent as many.
pub record Uploading (p : Place) (e : Entry) (k : ℕ) (c : Client) (s : Server) : Type 0 where
  pub command_is : c.message.sdo.command ≡ upload_segmented
  pub type_is : c.message.header.mtype ≡ type_coe
  pub len_is : c.message.header.len ≡ 10
  pub service_is : c.message.coe_header.service ≡ sdo_request
  pub same_toggle : c.message.sdo.complete_access ≡ s.segmented_toggle
  pub mailbox_min : 7 ≤ length c.message.body
  pub mailbox_max : data_size c.message < 65536
  pub size_is : c.size ≡ k
  pub offset_is : c.offset ≡ k
  pub fits : byte_size e ≤ c.buffer_size
  pub buffer-lt : c.buffer_size < word32
  pub memory-le : c.buffer_size ≤ length c.memory
  pub place_is : s.segmented_entry ≡ some p
  pub entry_is : entry_at s.dictionary p ≡ some e
  pub backed : length e.bytes ≡ byte_size e
  pub sent_is : s.segmented_offset ≡ k
  pub replies_are : s.replies ≡ []
  pub sent-lt : k < byte_size e
  pub received : take k c.memory ≡ take k e.bytes

-- The next segment.
abbrev pub next_chunk : Entry → ℕ → Client → ℕ
next_chunk e k c = min (length c.message.body) (byte_size e - k)

pub upload_chunk-next :
    (p : Place) (e : Entry) (k : ℕ) (c : Client) (s : Server)
    → Uploading p e k c s
    → byte_size e < word32
    → upload_chunk p c.message s ≡ next_chunk e k c
upload_chunk-next p e k c s h b =
    let t : total_size p s ≡ byte_size e = rw (total_size, h.entry_is) refl in
    let d : sub32 (total_size p s) s.segmented_offset ≡ byte_size e - k =
      rw (t, h.sent_is) (sub32_lem (byte_size e) k (omega arith) b) in
    ground (arith, d)

-- A reply that carries the `chunk` bytes behind the first `k`, for a request with the toggle `t`.
pub record Carries (e : Entry) (k chunk : ℕ) (last t : Bool) (c : Client) (m : Message)
    : Type 0 where
  pub local : m.header.address ≡ 0
  pub is_coe : m.header.mtype ≡ type_coe
  pub is_response : m.coe_header.service ≡ sdo_response
  pub answers : m.sdo.command ≡ upload_segmented_response
  pub toggle_is : m.sdo.complete_access ≡ t
  pub last_is : m.sdo.size_indicator ≡ last
  pub len-ge : 10 ≤ m.header.len
  pub len-le : 6 + m.header.len ≤ data_size c.message
  pub chunk_is : segment_data_length m.header.len m.sdo ≡ chunk
  pub data_is : take chunk m.body ≡ take chunk (drop k e.bytes)

set_segment_length-bounds :
    (sdo : ServiceData) (chunk n : ℕ)
    → 7 ≤ n
    → chunk ≤ n
    → n < 65527
    → (10 ≤ (set_segment_length sdo chunk).0) × (6 + (set_segment_length sdo chunk).0 ≤ 9 + n)
unfolding set_segment_length
set_segment_length-bounds sdo chunk n h k b = ground arith

pub take-blit_0 :
    (src dst : List ℕ) → length src ≤ length dst → take (length src) (blit 0 src dst) ≡ src
take-blit_0 src dst h = take-blit_end 0 (length src) src dst (omega arith) h

pub bytes_at-entry :
    (dict : Dictionary) (p : Place) (e : Entry)
    → entry_at dict p ≡ some e
    → bytes_at dict p ≡ e.bytes
bytes_at-entry dict p e h = rw (bytes_at, h) refl

pub upload_segment-Carries :
    (p : Place) (e : Entry) (k : ℕ) (last : Bool) (c : Client) (s : Server)
    → Uploading p e k c s
    → Carries e k
        (next_chunk e k c)
        last
        s.segmented_toggle
        c
        (upload_segment p c.message (next_chunk e k c) last s)
unfolding segment_data_length segment_data_size
upload_segment-Carries p e k last c s h =
    let chunk = next_chunk e k c in
    let sdo = (fresh_reply c.message).sdo in
    let zeros : List ℕ = replicate (length c.message.body) 0 in
    let full : length (take chunk (drop k e.bytes)) ≡ chunk =
      omega (arith, length-take chunk (drop k e.bytes), length-drop k e.bytes, h.backed) in
    let (ge, le) =
      set_segment_length-bounds sdo chunk (length c.message.body) h.mailbox_min (omega arith)
        (omega (arith, h.mailbox_max)) in
    record {
      local = refl;
      is_coe = refl;
      is_response = refl;
      answers = refl;
      toggle_is = refl;
      last_is = refl;
      len-ge = ge;
      len-le = le;
      chunk_is = segment-length_roundtrip sdo chunk (omega (arith, h.mailbox_max));
      data_is =
          rw (bytes_at-entry s.dictionary p e h.entry_is, h.sent_is)
            (subst
              (λ n.
                take n (blit 0 (take chunk (drop k e.bytes)) zeros) ≡ take chunk (drop k e.bytes))
              full
              (take-blit_0 (take chunk (drop k e.bytes)) zeros
                (omega (arith, full, length-replicate {A = ℕ} (length c.message.body) 0))));
    }

-- What the client makes of it.
pub receive_segment :
    (e : Entry) (k chunk : ℕ) (last : Bool) (c : Client) (m : Message)
    → c.message.sdo.command ≡ upload_segmented
    → Carries e k chunk last c.message.sdo.complete_access c m
    → chunk ≤ sub32 c.buffer_size c.size
    → Client.process m c ≡ (
        if last
        then finish success (store_segment m chunk c)
        else (continue, set_toggle (not c.message.sdo.complete_access) (store_segment m chunk c)))
unfolding Client.process Client.process_command Client.process_upload_segmented
receive_segment e k chunk last c m cmd h room = ground arith

toggle_same : (a b : Bool) → a ≡ b → toggle_differs a b ≡ false
toggle_same a b h = ground arith

-- What the server does with the request.
continue-upload :
    (p : Place) (raw : Message) (s : Server)
    → s.segmented_entry ≡ some p
    → raw.header.mtype ≡ type_coe
    → raw.coe_header.service ≡ sdo_request
    → raw.header.len ≡ 10
    → raw.sdo.command ≡ upload_segmented
    → process_raw raw s ≡ process_upload_segment p raw s
unfolding process_raw continue_transfer
continue-upload p raw s at t v l q = rw at (ground arith)

pub send_more :
    (p : Place) (e : Entry) (k : ℕ) (c : Client) (s : Server)
    → Uploading p e k c s
    → byte_size e < word32
    → k + next_chunk e k c < byte_size e
    → process_raw c.message s ≡ (
      finalize_and_keep,
      advance (next_chunk e k c) (upload_segment p c.message (next_chunk e k c) false s) s,
    )
unfolding process_upload_segment
send_more p e k c s h b more =
    let t : total_size p s ≡ byte_size e = rw (total_size, h.entry_is) refl in
    let last : (s.segmented_offset + next_chunk e k c == total_size p s) ≡ false =
      ==_ne _ _ (λ q. absurd (omega (arith, h.sent_is, t, q))) in
    continue-upload p c.message s h.place_is h.type_is h.service_is h.len_is h.command_is
    ∙ rw (toggle_same _ _ h.same_toggle, upload_chunk-next p e k c s h b, last) refl

pub send_last :
    (p : Place) (e : Entry) (k : ℕ) (c : Client) (s : Server)
    → Uploading p e k c s
    → byte_size e < word32
    → k + next_chunk e k c ≡ byte_size e
    → process_raw c.message s ≡ (
      finalize,
      stop_segments (
          hook_after read_access p
            (advance (next_chunk e k c) (upload_segment p c.message (next_chunk e k c) true s) s)),
    )
unfolding process_upload_segment
send_last p e k c s h b done =
    let t : total_size p s ≡ byte_size e = rw (total_size, h.entry_is) refl in
    let last : (s.segmented_offset + next_chunk e k c == total_size p s) ≡ true =
      ==_self _ _ (omega (arith, h.sent_is, t)) in
    continue-upload p c.message s h.place_is h.type_is h.service_is h.len_is h.command_is
    ∙ rw (toggle_same _ _ h.same_toggle, upload_chunk-next p e k c s h b, last) refl
