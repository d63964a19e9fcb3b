-- ===== src/CoE/Server/Segments.antt =====
-- The segments of a transfer that the SDO server has started: SDOMessage::process (raw_message) and
-- SDOMessage::downloadSegment of lib/src/CoE/mailbox/response.cc.
use kick_cat.Base.{
  ℕ, ◌+◌, ◌-◌, ◌%◌, Bool, true, false, not, ◌||◌, ltb, ◌==◌, if◌then◌else◌, none, some,
}
use kick_cat.Base.Lists.{length, take, drop, replicate, blit}
use kick_cat.Base.Bytes.{word32, sub32, put32}
use kick_cat.CoE.Message.{
  Message, data_size, ProcessingResult, type_coe, sdo_request, sdo_response, download_segmented,
  upload_segmented, abort, upload_segmented_response, download_segmented_response, noop, finalize,
  finalize_and_keep,
}
use kick_cat.CoE.Segment.{segment_data_length, set_segment_length}
use kick_cat.CoE.Dictionary.{read_access, write_access, byte_size, Place, entry_at, update_entry}
use kick_cat.CoE.Server.{
  Server, toggle_bit_not_alternated, data_type_length_mismatch, reply, set_service, hook_after,
  bytes_at, store_bytes,
}

-- `!=` on the toggle bits.
abbrev pub toggle_differs : Bool → Bool → Bool
toggle_differs true b = not b
toggle_differs false b = b

-- A zeroed buffer of the size of the request, of type CoE.
abbrev pub fresh_reply : Message → Message
fresh_reply raw = record {
  header = record { len = 0; address = 0; channel = 0; priority = 0; mtype = type_coe; count = 0 };
  coe_header = record { number = 0; service = 0 };
  sdo = record {
    size_indicator = false;
    transfer_type = 0;
    block_size = 0;
    complete_access = false;
    command = 0;
  };
  body = replicate (length raw.body) 0;
}

abbrev pub stop_segments : Server → Server
stop_segments s = record s { segmented_entry = none }

abbrev pub abort_segments : ℕ → Message → Server → ProcessingResult × Server
abort_segments code raw s = (
  finalize,
  stop_segments (
      reply
        (record (set_service sdo_request abort (fresh_reply raw)) {
          body = blit 3 (put32 code) (replicate (length raw.body) 0);
        })
        s),
)

-- `(segmented_entry_->bitlen + 7u) / 8u`
abbrev pub total_size : Place → Server → ℕ
total_size p s = elim (entry_at s.dictionary p) [ some e ↦ byte_size e | none ↦ 0 ]

abbrev pub upload_chunk : Place → Message → Server → ℕ
upload_chunk p raw s =
    let remaining = sub32 (total_size p s) s.segmented_offset in
    let max_seg = data_size raw - 9 in if ltb max_seg remaining then max_seg else remaining

-- The segment that answers `raw`: `chunk` bytes, with the toggle echoed.
abbrev pub upload_segment : Place → Message → ℕ → Bool → Server → Message
upload_segment p raw chunk is_last s =
    let (len, sdo) = set_segment_length (fresh_reply raw).sdo chunk in
    record (fresh_reply raw) {
      header = record ((fresh_reply raw).header) { len = len };
      coe_header = record { number = 0; service = sdo_response };
      sdo = record sdo {
        command = upload_segmented_response;
        complete_access = s.segmented_toggle;
        size_indicator = is_last;
      };
      body =
          blit 0 (take chunk (drop s.segmented_offset (bytes_at s.dictionary p)))
            (replicate (length raw.body) 0);
    }

-- The state after a segment of `size` bytes has been answered by `m`.
abbrev pub advance : ℕ → Message → Server → Server
advance size m s = record (reply m s) {
  segmented_offset = s.segmented_offset + size;
  segmented_toggle = not s.segmented_toggle;
}

unfoldable pub process_upload_segment : Place → Message → Server → ProcessingResult × Server
process_upload_segment p raw s =
    let chunk = upload_chunk p raw s in
    let is_last = s.segmented_offset + chunk == total_size p s in
    let next = advance chunk (upload_segment p raw chunk is_last s) s in
    if toggle_differs raw.sdo.complete_access s.segmented_toggle
    then abort_segments toggle_bit_not_alternated raw s
    else if is_last
    then (finalize, stop_segments (hook_after read_access p next))
    else (finalize_and_keep, next)

abbrev pub download_ack : Message → Server → Message
download_ack raw s = record (fresh_reply raw) {
  header = record ((fresh_reply raw).header) { len = 3 };
  coe_header = record { number = 0; service = sdo_response };
  sdo = record ((fresh_reply raw).sdo) {
    command = download_segmented_response;
    complete_access = s.segmented_toggle;
  };
}

unfoldable pub download_segment : Place → Message → Server → ProcessingResult × Server
download_segment p raw s =
    let size = segment_data_length raw.header.len raw.sdo in
    let next = advance size (download_ack raw s) (record s {
      dictionary =
          update_entry p (store_bytes (take size raw.body) s.segmented_offset) s.dictionary;
    }) in
    if toggle_differs raw.sdo.complete_access s.segmented_toggle
    then abort_segments toggle_bit_not_alternated raw s
    else if ltb (total_size p s) ((s.segmented_offset + size) % word32)
    then abort_segments data_type_length_mismatch raw s
    else if raw.sdo.size_indicator
    then (finalize, stop_segments (hook_after write_access p next))
    else (finalize_and_keep, next)

-- The message goes on with the transfer at `p`.
unfoldable pub continue_transfer : Place → Message → Server → ProcessingResult × Server
continue_transfer p raw s =
    if not (raw.header.mtype == type_coe)
      || not (raw.coe_header.service == sdo_request)
      || ltb raw.header.len 10
    then (noop, s)
    else if raw.sdo.command == download_segmented
    then download_segment p raw s
    else if not (raw.sdo.command == upload_segmented)
    then (noop, s)
    else process_upload_segment p raw s

unfoldable pub process_raw : Message → Server → ProcessingResult × Server
process_raw raw s = elim s.segmented_entry [ none ↦ (noop, s) | some p ↦ continue_transfer p raw s ]
