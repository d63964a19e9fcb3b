-- ===== src/CoE/Client.antt =====
-- The master's SDO request, kickcat::mailbox::request::SDOMessage: lib/src/CoE/mailbox/request.cc.
-- `memory` is what stands from the caller's data pointer on, the bytes behind the buffer included;
-- `offset` is how far `client_data_` has moved. The model is of mailboxes of at least 12 bytes.
pub mod Safety
pub mod Interface
use kick_cat.Base.{
  ℕ, ◌+◌, ◌-◌, ◌%◌, ◌≤◌, Bool, true, false, not, ◌&&◌, ◌||◌, ltb, leb, ◌==◌, if◌then◌else◌, List,
  [], ◌∷◌, ◌++◌,
}
use kick_cat.Base.Lists.{length, take, drop, replicate, blit}
use kick_cat.Base.Bytes.{word16, word32, sub32, put16, put32, get32}
use kick_cat.CoE.Message.{
  Header, CoeHeader, ServiceData, Message, data_size, index_of, subindex_of, payload,
  ProcessingResult, type_coe, gateway_message_mask, is_gateway, sdo_request, sdo_response,
  sdo_information, download_segmented, download, upload, upload_segmented, abort,
  upload_segmented_response, download_segmented_response, upload_response, download_response,
  success, running, timedout, wrong_service, unknown_service, client_buffer_too_small,
  segment_bad_toggle_bit, noop, continue, finalize, finalize_and_keep,
}
use kick_cat.CoE.Segment.{segment_data_length, set_segment_length}

pub record Client : Type 0 where
  pub message : Message
  pub memory : List ℕ
  pub offset : ℕ
  pub size : ℕ
  pub buffer_size : ℕ
  pub remaining : ℕ
  pub status : ℕ
  pub timeout : ℕ

-- `SDOMessage::SDOMessage` before the data of a download is placed; `AbstractMessage` zeroes the
-- buffer and turns a timeout into a date.
abbrev pub blank : ℕ → ℕ → ℕ → Bool → ℕ → Message
blank mailbox_size index subindex ca request = record {
  header = record { len = 10; address = 0; channel = 0; priority = 0; mtype = type_coe; count = 0 };
  coe_header = record { number = 0; service = sdo_request };
  sdo = record {
    size_indicator = false;
    transfer_type = 0;
    block_size = 0;
    complete_access = ca;
    command = request % 8;
  };
  body = blit 0 (put16 index ++ subindex ∷ []) (replicate (mailbox_size - 9) 0);
}

-- A download of at most 4 bytes: the data stands in the request.
abbrev pub expedite : List ℕ → ℕ → Message → Message
expedite bytes size m = record m {
  sdo = record (m.sdo) { transfer_type = 1; size_indicator = true; block_size = (4 - size) % 4 };
  body = blit 3 (take size bytes) m.body;
}

-- All the data behind its size in one mailbox.
abbrev pub place_whole : List ℕ → ℕ → Message → Message
place_whole bytes size m = record m {
  header = record (m.header) { len = (m.header.len + size) % word16 };
  body = blit 7 (take size bytes) (blit 3 (put32 size) m.body);
}

-- Only the size: the data goes in segments.
abbrev pub place_size : ℕ → Message → Message
place_size size m = record m {
  sdo = record (m.sdo) { size_indicator = true };
  body = blit 3 (put32 size) m.body;
}

abbrev pub is_segmented : ℕ → Message → Bool
is_segmented size m = not (leb size 4) && not (leb (size + 16) (data_size m))

unfoldable pub place : ℕ → List ℕ → ℕ → Message → Message
place request bytes size m =
    if not (request == download)
    then m
    else if leb size 4
    then expedite bytes size m
    else if leb (size + 16) (data_size m)
    then place_whole bytes size m
    else place_size size m

unfoldable pub create : ℕ → ℕ → ℕ → Bool → ℕ → List ℕ → ℕ → (timeout now : ℕ) → Client
unfolding place
create mailbox_size index subindex ca request bytes size timeout now =
    let m = blank mailbox_size index subindex ca request in
    record {
      message = place request bytes size m;
      memory = bytes;
      offset = 0;
      size = size;
      buffer_size = size;
      remaining = if request == download && is_segmented size m then size else 0;
      status = running;
      timeout = if timeout == 0 then 0 else timeout + now;
    }

-- `AbstractMessage::status (current_time)`
unfoldable pub status_at : ℕ → Client → ℕ × Client
status_at now c =
    if c.status == running && not (c.timeout == 0) && ltb c.timeout now
    then (timedout, record c { status = timedout })
    else (c.status, c)

abbrev pub finish : ℕ → Client → ProcessingResult × Client
finish code c = (finalize, record c { status = code })

-- `std::memcpy (client_data_, data, n)`
abbrev pub receive_bytes : List ℕ → ℕ → Client → List ℕ
receive_bytes bytes n c = blit c.offset (take n bytes) c.memory

-- The first segment request of an upload.
abbrev pub ask_segments : Client → Client
ask_segments c = record c {
  size = 0;
  status = running;
  message = record (c.message) {
    header = record (c.message.header) { len = 10 };
    coe_header = record (c.message.coe_header) { service = sdo_request };
    sdo = record {
      size_indicator = false;
      transfer_type = 0;
      block_size = 0;
      complete_access = false;
      command = upload_segmented;
    };
  };
}

unfoldable pub process_upload : Message → Client → ProcessingResult × Client
process_upload r c =
    if not (r.sdo.command == upload_response)
    then finish wrong_service c
    else if r.sdo.transfer_type == 1
    then (let size = 4 - r.sdo.block_size in
        if ltb c.size size
        then finish client_buffer_too_small c
        else finish success (record c { memory = receive_bytes (payload r) size c; size = size }))
    else if ltb r.header.len 10
    then finish wrong_service c
    else (let complete_size = get32 (payload r) in
        if ltb c.size complete_size
        then finish client_buffer_too_small c
        else if leb complete_size (r.header.len - 10)
        then finish success (record c {
          memory = receive_bytes (drop 4 (payload r)) complete_size c;
          size = complete_size;
        })
        else (continue, ask_segments c))

abbrev pub set_toggle : Bool → Client → Client
set_toggle t c = record c {
  message = record (c.message) { sdo = record (c.message.sdo) { complete_access = t } };
}

-- `!=` on the toggle bits.
abbrev pub differs : Bool → Bool → Bool
differs true b = not b
differs false b = b

-- One segment of an upload: `size` bytes are stored.
abbrev pub store_segment : Message → ℕ → Client → Client
store_segment r size c = record c {
  memory = receive_bytes r.body size c;
  offset = c.offset + size;
  size = (c.size + size) % word32;
}

unfoldable pub process_upload_segmented : Message → Client → ProcessingResult × Client
process_upload_segmented r c =
    if not (r.sdo.command == upload_segmented_response)
    then finish wrong_service c
    else if differs r.sdo.complete_access c.message.sdo.complete_access
    then finish segment_bad_toggle_bit c
    else if ltb r.header.len 10
    then finish wrong_service c
    else (let size = segment_data_length r.header.len r.sdo in
        if ltb (sub32 c.buffer_size c.size) size
        then finish client_buffer_too_small c
        else if r.sdo.size_indicator
        then finish success (store_segment r size c)
        else (continue, set_toggle (not c.message.sdo.complete_access) (store_segment r size c)))

-- `prepareDownloadSegment`: the most that the mailbox holds, or what is left.
abbrev pub chunk_of : Client → ℕ
chunk_of c =
    if ltb (data_size c.message - 9) c.remaining then data_size c.message - 9 else c.remaining

-- Padding octets of a short segment are zeroed before the data is copied.
abbrev pub fill_segment : ℕ → Client → List ℕ
fill_segment chunk c =
    let padded = if ltb chunk 7 then blit 0 (replicate 7 0) c.message.body else c.message.body in
    blit 0 (take chunk (drop c.offset c.memory)) padded

abbrev pub segment_flags : ℕ → ℕ → ServiceData → ServiceData
segment_flags chunk left sdo =
    let (_, sized) = set_segment_length sdo chunk in
    record sized { command = download_segmented; size_indicator = left == 0 }

unfoldable pub prepare_download_segment : Client → Client
prepare_download_segment c =
    let chunk = chunk_of c in
    record c {
      offset = c.offset + chunk;
      remaining = c.remaining - chunk;
      message = record (c.message) {
        header = record (c.message.header) { len = (set_segment_length c.message.sdo chunk).0 };
        coe_header = record (c.message.coe_header) { service = sdo_request };
        sdo = segment_flags chunk (c.remaining - chunk) c.message.sdo;
        body = fill_segment chunk c;
      };
    }

abbrev pub set_running : Client → Client
set_running c = record c { status = running }

unfoldable pub process_download : Message → Client → ProcessingResult × Client
process_download r c =
    if not (r.sdo.command == download_response)
    then finish wrong_service c
    else if c.remaining == 0
    then finish success c
    else (continue, set_running (prepare_download_segment (set_toggle false c)))

unfoldable pub process_download_segmented : Message → Client → ProcessingResult × Client
process_download_segmented r c =
    if not (r.sdo.command == download_segmented_response)
    then finish wrong_service c
    else if differs r.sdo.complete_access c.message.sdo.complete_access
    then finish segment_bad_toggle_bit c
    else if c.remaining == 0
    then finish success c
    else (continue, prepare_download_segment (set_toggle (not c.message.sdo.complete_access) c))

-- The reply is about another object: only the requests that name one look at it.
abbrev pub is_other_object : Message → Client → Bool
is_other_object r c =
    (c.message.sdo.command == upload || c.message.sdo.command == download)
    && (not (index_of r == index_of c.message) || not (subindex_of r == subindex_of c.message))

abbrev pub is_unrelated : Message → Client → Bool
is_unrelated r c =
    is_gateway r.header
    || not (r.header.mtype == type_coe)
    || (not (r.coe_header.service == sdo_request) && not (r.coe_header.service == sdo_response))
    || is_other_object r c

-- The `switch` on the command of the request.
unfoldable pub process_command : Message → Client → ProcessingResult × Client
process_command r c =
    if c.message.sdo.command == upload
    then process_upload r c
    else if c.message.sdo.command == upload_segmented
    then process_upload_segmented r c
    else if c.message.sdo.command == download
    then process_download r c
    else if c.message.sdo.command == download_segmented
    then process_download_segmented r c
    else finish unknown_service c

-- `SDOMessage::process`
unfoldable pub process : Message → Client → ProcessingResult × Client
process r c =
    if is_unrelated r c
    then (noop, c)
    else if r.sdo.command == abort
    then finish (get32 (payload r)) c
    else if ltb (data_size c.message) (6 + r.header.len)
    then finish wrong_service c
    else process_command r c
