-- ===== src/CoE/Server.antt =====
-- The slave's SDO server, kickcat::mailbox::response::SDOMessage: lib/src/CoE/mailbox/response.cc.
-- The message, its segmented transfer, the dictionary and the queue of replies are one state.
pub mod Complete
pub mod Segments
pub mod Dispatch
pub mod Lookup
pub mod Errors
pub mod Bounds
use kick_cat.Base.{
  ℕ, zero, suc, ◌+◌, ◌-◌, ◌/◌, ◌%◌, Bool, true, false, not, ◌&&◌, ◌||◌, ltb, leb, ◌==◌,
  if◌then◌else◌, List, [], ◌∷◌, ◌++◌, Option, none, some,
}
use kick_cat.Base.Lists.{length, take, drop, replicate, blit, get_or}
use kick_cat.Base.Bytes.{word16, word32, sub32, put32, get32}
use kick_cat.CoE.Message.{
  Header, CoeHeader, ServiceData, Message, data_size, index_of, subindex_of, payload,
  ProcessingResult, type_coe, gateway_message_mask, is_gateway, sdo_request, sdo_response,
  sdo_information, download_segmented, download, upload, upload_segmented, abort,
  upload_segmented_response, download_segmented_response, upload_response, download_response,
  success, running, timedout, wrong_service, unknown_service, client_buffer_too_small,
  segment_bad_toggle_bit, noop, continue, finalize, finalize_and_keep,
}
use kick_cat.CoE.Segment.{segment_data_length, set_segment_length}
use kick_cat.CoE.Dictionary.{
  Entry, Object, Dictionary, read_access, write_access, has_access, byte_size, run_hooks,
  before_hooks, after_hooks, get_elem?, modify, Place, Found, find_entry, find_from, find_object,
  entries_of, entry_at, update_entry, no_object, no_entry, found,
}

-- What stands in the queue of replies: a message, or the mailbox error of `replyError`.
pub data Reply : Type 0 where
  sdo_reply : Message → Reply
  error_reply : ℕ → Reply

-- `payload_at` is where `payload_` points, from offset 9; after a reply `message` has been moved
-- out and nothing reads it.
pub record Server : Type 0 where
  pub dictionary : Dictionary
  pub replies : List Reply
  pub message : Message
  pub payload_at : ℕ
  pub segmented_entry : Option Place
  pub segmented_offset : ℕ
  pub segmented_toggle : Bool

-- `createSDOMessage` builds a message with no transfer in progress.
abbrev pub serve : Dictionary → List Reply → Message → Server
serve dict replies m = record {
  dictionary = dict;
  replies = replies;
  message = m;
  payload_at = 3;
  segmented_entry = none;
  segmented_offset = 0;
  segmented_toggle = false;
}

-- CoE::SDO::abort
abbrev pub toggle_bit_not_alternated : ℕ
toggle_bit_not_alternated = 0x05030000

abbrev pub unsupported_access : ℕ
unsupported_access = 0x06010000

abbrev pub read_write_only_access : ℕ
read_write_only_access = 0x06010001

abbrev pub write_read_only_access : ℕ
write_read_only_access = 0x06010002

abbrev pub object_does_not_exist : ℕ
object_does_not_exist = 0x06020000

abbrev pub data_type_length_mismatch : ℕ
data_type_length_mismatch = 0x06070010

abbrev pub data_type_length_too_high : ℕ
data_type_length_too_high = 0x06070012

abbrev pub subindex_does_not_exist : ℕ
subindex_does_not_exist = 0x06090011

abbrev pub general_error : ℕ
general_error = 0x08000000

-- mailbox::Error::SIZE_TOO_SHORT
abbrev pub size_too_short : ℕ
size_too_short = 0x06

abbrev pub reply : Message → Server → Server
reply m s = record s { replies = s.replies ++ (sdo_reply m ∷ []) }

abbrev pub reply_message : Server → Server
reply_message s = reply s.message s

abbrev pub set_service : ℕ → ℕ → Message → Message
set_service service command m = record m {
  coe_header = record (m.coe_header) { service = service };
  sdo = record (m.sdo) { command = command };
}

abbrev pub set_len : ℕ → Message → Message
set_len len m = record m { header = record (m.header) { len = len } }

-- `SDOMessage::abort`: the code goes where `payload_` points.
unfoldable pub abort_with : ℕ → Server → ProcessingResult × Server
abort_with code s = (
  finalize,
  reply
      (record (set_service sdo_request abort s.message) {
        body = blit s.payload_at (put32 code) s.message.body;
      })
      s,
)

abbrev pub hook_before : ℕ → Place → Server → Server
hook_before access p s = record s { dictionary = update_entry p (before_hooks access) s.dictionary }

abbrev pub hook_after : ℕ → Place → Server → Server
hook_after access p s = record s { dictionary = update_entry p (after_hooks access) s.dictionary }

abbrev pub bytes_at : Dictionary → Place → List ℕ
bytes_at dict p = elim (entry_at dict p) [ some e ↦ e.bytes | none ↦ [] ]

-- The reply of `upload`: its length, its flags and, in the payload, the data.
abbrev pub upload_reply : ℕ → ℕ → ℕ → List ℕ → Message → Message
upload_reply len transfer block data_bytes m = record m {
  header = record (m.header) { len = len % word16 };
  coe_header = record (m.coe_header) { service = sdo_response };
  sdo = record (m.sdo) {
    size_indicator = true;
    transfer_type = transfer;
    block_size = block;
    command = upload_response;
  };
  body = blit 3 data_bytes m.body;
}

abbrev pub start_segments : Place → Server → Server
start_segments p s = record s {
  segmented_entry = some p;
  segmented_offset = 0;
  segmented_toggle = false;
}

unfoldable pub upload_entry : Place → Entry → Server → ProcessingResult × Server
unfolding abort_with
upload_entry p e s =
    if not (has_access e.access read_access)
    then abort_with read_write_only_access s
    else (let s1 = hook_before read_access p s in
        let stored = bytes_at s1.dictionary p in
        let size = byte_size e in
        if leb size 4
        then (
          finalize,
          hook_after read_access p
              (reply (upload_reply 10 1 (4 - size) (take size stored) s.message) s1),
        )
        else if leb size (sub32 (data_size s.message) 16)
        then (
          finalize,
          hook_after read_access p (
              reply
                (upload_reply (10 + size) 0 s.message.sdo.block_size
                  (put32 size ++ take size stored) s.message)
                s1),
        )
        else (
          finalize_and_keep,
          start_segments p
              (reply (upload_reply 10 0 s.message.sdo.block_size (put32 size) s.message) s1),
        ))

-- `download`: the size that the request declares; `payload_` moves on when it stands there.
abbrev pub declared_size : Server → ℕ
declared_size s =
    if s.message.sdo.transfer_type == 0
    then get32 (drop s.payload_at s.message.body)
    else 4 - s.message.sdo.block_size

abbrev pub skip_size : Server → Server
skip_size s =
    if s.message.sdo.transfer_type == 0 then record s { payload_at = s.payload_at + 4 } else s

abbrev pub store_bytes : List ℕ → ℕ → Entry → Entry
store_bytes new off e = record e { bytes = blit off new e.bytes }

unfoldable pub download_entry : Place → Entry → Server → ProcessingResult × Server
unfolding abort_with
download_entry p e s =
    if not (has_access e.access write_access)
    then abort_with write_read_only_access s
    else (let s1 = hook_before write_access p s in
        let size = declared_size s1 in
        let s2 = skip_size s1 in
        if not (size == byte_size e)
        then abort_with data_type_length_mismatch s2
        else if s.message.sdo.transfer_type == 0 && ltb (sub32 s.message.header.len 10) size
        then (
          finalize_and_keep,
          start_segments p (reply (set_service sdo_response download_response s.message) s2),
        )
        else (
          finalize,
          hook_after write_access p (
              reply (set_service sdo_response download_response s.message) (record s2 {
                dictionary =
                    update_entry p (store_bytes (take size (drop s2.payload_at s.message.body)) 0)
                      s2.dictionary;
              })),
        ))
