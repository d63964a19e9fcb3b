-- ===== src/CoE/Transfer/Download.antt =====
-- The segments that a client of lib/src/CoE/mailbox/request.cc prepares for a download.
pub mod Run
pub mod Done
pub mod Roundtrip
pub mod Initiate
use kick_cat.Base.{
  ℕ, zero, suc, ◌+◌, ◌-◌, ◌≤◌, ◌<◌, ◌≡◌, refl, sym, ap, ◌∙◌, arith, min, Bool, true, false, not,
  ltb, ◌==◌, ==_ne, ==_self, Bool-cases, ltb→lt, ltb_ge, if◌then◌else◌, List, [], ◌∷◌, ◌++◌, Option,
  none, some, subst, ◌⊎◌, inl, inr,
}
use kick_cat.Base.Lists.{
  length, take, drop, replicate, blit, take-blit_end, length-take, length-drop, length-replicate,
  length-blit,
}
use kick_cat.Base.Bytes.{word32, sub32}
use kick_cat.CoE.Message.{
  Header, CoeHeader, ServiceData, Message, data_size, index_of, subindex_of, payload,
  ProcessingResult, type_coe, gateway_message_mask, is_gateway, sdo_request, sdo_response,
  sdo_information, download_segmented, download, upload, upload_segmented, abort,
  upload_segmented_response, download_segmented_response, upload_response, download_response,
  success, running, timedout, wrong_service, unknown_service, client_buffer_too_small,
  segment_bad_toggle_bit, noop, continue, finalize, finalize_and_keep,
}
use kick_cat.CoE.Segment.{
  segment_data_length, segment_data_size, set_segment_length, segment-length_roundtrip,
}
use kick_cat.CoE.Dictionary.{
  Entry, Object, Dictionary, read_access, write_access, has_access, byte_size, run_hooks,
  before_hooks, after_hooks, get_elem?, modify, Place, Found, find_entry, find_from, find_object,
  entries_of, entry_at, update_entry, no_object, no_entry, found,
}
use kick_cat.CoE.Client
use kick_cat.CoE.Client.{
  Client, blank, expedite, place_whole, place_size, is_segmented, place, create, status_at, finish,
  receive_bytes, ask_segments, process_upload, set_toggle, differs, store_segment,
  process_upload_segmented, chunk_of, fill_segment, segment_flags, prepare_download_segment,
  set_running, process_download, process_download_segmented, is_other_object, is_unrelated,
  process_command, process,
}
use kick_cat.CoE.Server.{
  Reply, Server, serve, toggle_bit_not_alternated, unsupported_access, read_write_only_access,
  write_read_only_access, object_does_not_exist, data_type_length_mismatch,
  data_type_length_too_high, subindex_does_not_exist, general_error, size_too_short, reply,
  reply_message, set_service, set_len, abort_with, hook_before, hook_after, bytes_at, upload_reply,
  start_segments, upload_entry, declared_size, skip_size, store_bytes, download_entry, sdo_reply,
  error_reply,
}
use kick_cat.CoE.Server.Segments.{
  toggle_differs, fresh_reply, stop_segments, abort_segments, total_size, upload_chunk,
  upload_segment, advance, process_upload_segment, download_ack, download_segment,
  continue_transfer, process_raw,
}
use kick_cat.CoE.Transfer.Upload.{take-blit_0}

-- The client has the segment of `chunk` bytes behind the first `k` ready.
pub record Segmented (k chunk : ℕ) (c : Client) : Type 0 where
  pub command_is : c.message.sdo.command ≡ download_segmented
  pub type_is : c.message.header.mtype ≡ type_coe
  pub service_is : c.message.coe_header.service ≡ sdo_request
  pub len-ge : 10 ≤ c.message.header.len
  pub chunk_is : segment_data_length c.message.header.len c.message.sdo ≡ chunk
  pub last_is : c.message.sdo.size_indicator ≡ (c.remaining == 0)
  pub data_is : take chunk c.message.body ≡ take chunk (drop k c.memory)
  pub offset_is : c.offset ≡ k + chunk
  pub mailbox_min : 7 ≤ length c.message.body
  pub mailbox_max : data_size c.message < 65536
  pub memory-le : c.offset + c.remaining ≤ length c.memory
  pub chunk-pos : 1 ≤ chunk

prepare-len :
    (sdo : ServiceData) (chunk : ℕ) → chunk < 65527 → 10 ≤ (set_segment_length sdo chunk).0
unfolding set_segment_length
prepare-len sdo chunk h = ground arith

pub chunk_of-min : (c : Client) → chunk_of c ≡ min (length c.message.body) c.remaining
chunk_of-min c = ground arith

padded-length :
    (chunk : ℕ) (body : List ℕ)
    → length (if ltb chunk 7 then blit 0 (replicate 7 0) body else body) ≡ length body
padded-length chunk body = elim (Bool-cases (ltb chunk 7)) [
  | inl q ↦ rw q (length-blit 0 (replicate 7 0) body)
  | inr q ↦ rw q refl
]

-- The next segment, of a client that has bytes left to send.
pub prepare-Segmented :
    (c : Client)
    → c.message.header.mtype ≡ type_coe
    → 7 ≤ length c.message.body
    → data_size c.message < 65536
    → c.offset + c.remaining ≤ length c.memory
    → 1 ≤ c.remaining
    → Segmented c.offset (chunk_of c) (prepare_download_segment c)
unfolding prepare_download_segment segment_data_length segment_data_size set_segment_length
prepare-Segmented c ty lo hi mem pos =
    let chunk = chunk_of c in
    let m : chunk ≡ min (length c.message.body) c.remaining = chunk_of-min c in
    let src = take chunk (drop c.offset c.memory) in
    let padded = if ltb chunk 7 then blit 0 (replicate 7 0) c.message.body else c.message.body in
    let full : length src ≡ chunk =
      omega (arith, m, length-take chunk (drop c.offset c.memory), length-drop c.offset c.memory) in
    record {
      command_is = refl;
      type_is = ty;
      service_is = refl;
      len-ge = prepare-len c.message.sdo chunk (omega (arith, m));
      chunk_is = segment-length_roundtrip c.message.sdo chunk (omega (arith, m));
      last_is = refl;
      data_is =
          subst (λ n. take n (blit 0 src padded) ≡ src) full
            (take-blit_0 src padded (omega (arith, full, m, padded-length chunk c.message.body)));
      offset_is = refl;
      mailbox_min = omega (arith, length-blit 0 src padded, padded-length chunk c.message.body);
      mailbox_max = omega (arith, length-blit 0 src padded, padded-length chunk c.message.body);
      memory-le = omega (arith, m);
      chunk-pos = omega (arith, m);
    }
