-- ===== src/CoE/Server/Complete.antt =====
-- Complete access: SDOMessage::uploadComplete and SDOMessage::downloadComplete of
-- lib/src/CoE/mailbox/response.cc.
use kick_cat.Base.{
  ℕ, zero, suc, ◌+◌, ◌-◌, ◌/◌, ◌%◌, Bool, true, not, ◌||◌, ltb, leb, ◌==◌, if◌then◌else◌, List, [],
  ◌∷◌, none, some, ◌⊎◌, inl, inr,
}
use kick_cat.Base.Lists.{length, take, drop, blit, get_or}
use kick_cat.Base.Bytes.{word16, put32, get32}
use kick_cat.CoE.Message.{
  Message, data_size, subindex_of, ProcessingResult, sdo_response, upload_response,
  download_response, finalize,
}
use kick_cat.CoE.Dictionary.{
  Entry, Object, read_access, write_access, has_access, byte_size, get_elem?, Place, update_entry,
}
use kick_cat.CoE.Server.{
  Server, unsupported_access, read_write_only_access, write_read_only_access,
  data_type_length_too_high, subindex_does_not_exist, general_error, reply, reply_message,
  set_service, set_len, abort_with, hook_before, hook_after, bytes_at, store_bytes,
}

-- Bytes available after the headers and the complete size.
abbrev pub capacity : Message → ℕ
capacity m = data_size m - 16

abbrev pub first_byte : List Entry → ℕ
first_byte [] = 0
first_byte (e ∷ es) = get_or e.bytes 0 0

abbrev pub has_no_count : List Entry → Bool
has_no_count [] = true
has_no_count (e ∷ es) = length e.bytes == 0

abbrev pub bitoff_at : List Entry → ℕ → ℕ
bitoff_at es i = elim (get_elem? es i) [ some e ↦ e.bitoff | none ↦ 0 ]

-- `object->entries.empty() or subindex >= entries.size() or entries.at(0).data == nullptr`
abbrev pub lacks_entry : Object → ℕ → Bool
lacks_entry o subindex = leb (length o.entries) subindex || has_no_count o.entries

abbrev pub place_payload : ℕ → List ℕ → Server → Server
place_payload off new s = record s {
  message = record (s.message) { body = blit off new s.message.body };
}

-- The layout of an entry does not fit: it starts before the first one, or ends behind the mailbox.
abbrev pub misplaced : Entry → ℕ → Server → Bool
misplaced e skip s =
    ltb (e.bitoff / 8) skip || ltb (capacity s.message) (4 + (e.bitoff / 8 - skip) + byte_size e)

abbrev pub read_entry : Place → Entry → ℕ → Server → Server
read_entry p e skip s =
    let s1 = hook_before read_access p s in
    hook_after read_access p
      (place_payload (7 + (e.bitoff / 8 - skip)) (take (byte_size e) (bytes_at s1.dictionary p)) s1)

-- The `for` of `uploadComplete`, over `n` entries from the position `i`; `size` is the last one's end.
pub upload_entries :
    (n : ℕ) (i obj : ℕ) (o : Object) (skip size : ℕ)
    → Server
    → (ProcessingResult × Server) ⊎ (ℕ × Server)
upload_entries zero i obj o skip size s = inr (size, s)
upload_entries (suc n) i obj o skip size s = elim (get_elem? o.entries i) [
  | none ↦ inl (abort_with unsupported_access s)
  | some e ↦
      let p : Place = record { object = obj; entry = i } in
      let rest =
        upload_entries n (suc i) obj o skip (byte_size e + (e.bitoff / 8 - skip))
          (read_entry p e skip s) in
      if not (has_access e.access read_access)
      then inl (abort_with read_write_only_access s)
      else if misplaced e skip s
      then inl (abort_with general_error s)
      else rest
]

abbrev pub complete_reply : ℕ → Server → Server
complete_reply size s = record s {
  message = record (s.message) {
    header = record (s.message.header) { len = (10 + size) % word16 };
    coe_header = record (s.message.coe_header) { service = sdo_response };
    sdo = record (s.message.sdo) { command = upload_response };
    body = blit 3 (put32 size) s.message.body;
  };
}

abbrev pub not_expedited : Server → Server
not_expedited s = record s {
  message = record (s.message) {
    sdo = record (s.message.sdo) { size_indicator = true; transfer_type = 0 };
  };
}

unfoldable pub upload_complete : ℕ → Object → Server → ProcessingResult × Server
unfolding upload_entries
upload_complete obj o s0 =
    let s = not_expedited s0 in
    let i = subindex_of s.message in
    if lacks_entry o i
    then abort_with subindex_does_not_exist s
    else elim (upload_entries (suc (first_byte o.entries) - i) i obj o (bitoff_at o.entries i / 8) 0
        s) [
          | inl stopped ↦ stopped
          | inr (size, s1) ↦ (finalize, reply_message (complete_reply size s1))
        ]

abbrev pub write_entry : Place → Entry → ℕ → Server → Server
write_entry p e at s =
    let s1 = hook_before write_access p s in
    hook_after write_access p (record s1 {
      dictionary =
          update_entry p (store_bytes (take (byte_size e) (drop at s.message.body)) 0)
            s1.dictionary;
    })

-- The read of an entry would start before the data, or end behind the mailbox.
abbrev pub unreadable : Entry → ℕ → Message → Bool
unreadable e skip m =
    ltb (e.bitoff / 8) skip || ltb (data_size m) (16 + (e.bitoff / 8 - skip) + byte_size e)

-- The `while` of `downloadComplete`, over the entries from the position `i`; `at` is the offset
-- behind what has been read.
pub download_entries :
    (es : List Entry) (i obj skip at msg_size : ℕ) → Server → (ProcessingResult × Server) ⊎ Server
download_entries [] i obj skip at msg_size s =
    if ltb at msg_size then inl (abort_with unsupported_access s) else inr s
download_entries (e ∷ es) i obj skip at msg_size s =
    let p : Place = record { object = obj; entry = i } in
    let off = e.bitoff / 8 - skip in
    let rest =
      download_entries es (suc i) obj skip (off + byte_size e) msg_size
        (write_entry p e (7 + off) s) in
    if not (ltb at msg_size)
    then inr s
    else if not (has_access e.access write_access)
    then inl (abort_with write_read_only_access s)
    else if unreadable e skip s.message
    then inl (abort_with general_error s)
    else rest

-- Subindex 0 takes the first byte.
abbrev pub write_count : ℕ → Server → Server
write_count obj s =
    let p : Place = record { object = obj; entry = 0 } in
    let s1 = hook_before write_access p s in
    hook_after write_access p (record s1 {
      dictionary = update_entry p (store_bytes (take 1 (drop 7 s.message.body)) 0) s1.dictionary;
    })

unfoldable pub download_complete : ℕ → Object → Server → ProcessingResult × Server
unfolding download_entries
download_complete obj o s =
    let i = subindex_of s.message in
    let msg_size = get32 (drop s.payload_at s.message.body) in
    if lacks_entry o i
    then abort_with subindex_does_not_exist s
    else if ltb (capacity s.message) msg_size
    then abort_with data_type_length_too_high s
    else elim (download_entries (drop 1 o.entries) 1 obj (bitoff_at o.entries i / 8)
        (if i == 0 then 1 else 0) msg_size (if i == 0 then write_count obj s else s)) [
          | inl stopped ↦ stopped
          | inr s1 ↦ (
            finalize,
            reply (set_len 10 (set_service sdo_response download_response s1.message)) s1,
          )
        ]
