-- ===== src/CoE/Tests.antt =====
-- Runs of SDO transfers at concrete inputs (lib/src/CoE/mailbox/request.cc and
-- lib/src/CoE/mailbox/response.cc).
use kick_cat.Base.{ℕ, List, ◌≡◌, refl, arith, true, false, [], ◌∷◌, inr}
use kick_cat.Base.Lists.{drop, replicate}
use kick_cat.CoE.Message.{
  Message, payload, type_coe, sdo_request, sdo_response, download, upload, abort, upload_response,
  finalize,
}
use kick_cat.Base.Bytes.{get32}
use kick_cat.CoE.Segment.{segment-length_roundtrip, segment_data_length, set_segment_length}
use kick_cat.CoE.Dictionary.{
  write_access, Entry, Object, Dictionary, read_access, before_hooks, Place, find_object,
}
use kick_cat.CoE.Client.{create}
use kick_cat.CoE.Client.Safety.{process_all, no_overrun}
use kick_cat.CoE.Server.{serve, download_entry, sdo_reply}
use kick_cat.CoE.Server.Errors.{mismatch_code}
use kick_cat.CoE.Transfer.{session}
use kick_cat.CoE.Transfer.Download.Initiate.{Writable}
use kick_cat.CoE.Transfer.Download.Done.{Downloaded}
use kick_cat.CoE.Transfer.Download.Roundtrip.{download_roundtrip}
use kick_cat.CoE.Transfer.Upload.Run.{Uploaded}
use kick_cat.CoE.Transfer.Upload.Initiate.{Readable}
use kick_cat.CoE.Transfer.Upload.Roundtrip.{upload_roundtrip}

-- A name of 12 bytes, which may be read and written.
abbrev name_entry : Entry
name_entry = record {
  subindex = 0;
  bitlen = 96;
  bitoff = 0;
  access = 0x3f;
  dtype = 9;
  description = [];
  bytes = 1 ∷ 2 ∷ 3 ∷ 4 ∷ 5 ∷ 6 ∷ 7 ∷ 8 ∷ 9 ∷ 10 ∷ 11 ∷ 12 ∷ [];
  before_access = [];
  after_access = [];
}

abbrev name_object : Object
name_object = record { index = 0x1008; code = 7; name = []; entries = name_entry ∷ [] }

abbrev dictionary : Dictionary
dictionary = name_object ∷ []

abbrev name_place : Place
name_place = record { object = 0; entry = 0 }

name-Readable : Readable 0x1008 0 dictionary name_place name_object name_entry
unfolding find_object before_hooks
name-Readable = record { found_is = refl; entry_is = refl; readable = refl; backed = refl }

upload_roundtrip_example :
    Uploaded
      (before_hooks read_access name_entry)
      (session 12 (create 20 0x1008 0 false upload (replicate 16 0) 14 0 0) dictionary)
upload_roundtrip_example =
    upload_roundtrip 12 20 0x1008 0 (replicate 16 0) 14 0 0 dictionary name_place name_object
      name_entry (omega arith) (omega arith) (omega arith) (omega arith) (omega arith) (omega arith)
      name-Readable (inr (inr (omega arith)))

-- A reply whose size is that of the whole buffer and more.
abbrev long_reply : Message
long_reply = record {
  header = record { len = 14; address = 0; channel = 0; priority = 0; mtype = type_coe; count = 1 };
  coe_header = record { number = 0; service = sdo_response };
  sdo = record {
    size_indicator = true;
    transfer_type = 0;
    block_size = 0;
    complete_access = false;
    command = upload_response;
  };
  body = 8 ∷ 16 ∷ 0 ∷ 4 ∷ 0 ∷ 0 ∷ 0 ∷ 9 ∷ 9 ∷ 9 ∷ 9 ∷ [];
}

no_overrun_example :
    drop 4
      (process_all
        (long_reply ∷ long_reply ∷ [])
        (create 20 0x1008 0 false upload (replicate 6 7) 4 0 0)).memory
    ≡ drop 4 (replicate 6 7)
no_overrun_example =
    no_overrun 20 0x1008 0 false upload (replicate 6 7) 4 0 0 (long_reply ∷ long_reply ∷ [])
      (omega arith)

segment-length_roundtrip_example :
    segment_data_length
      (set_segment_length long_reply.sdo 3).0
      (set_segment_length long_reply.sdo 3).1
    ≡ 3
segment-length_roundtrip_example = segment-length_roundtrip long_reply.sdo 3 (omega arith)

-- A download of 11 bytes to the entry of 12.
abbrev short_download : Message
short_download = record {
  header = record { len = 10; address = 0; channel = 0; priority = 0; mtype = type_coe; count = 1 };
  coe_header = record { number = 0; service = sdo_request };
  sdo = record {
    size_indicator = true;
    transfer_type = 0;
    block_size = 0;
    complete_access = false;
    command = download;
  };
  body = 8 ∷ 16 ∷ 0 ∷ 11 ∷ 0 ∷ 0 ∷ 0 ∷ 0 ∷ 0 ∷ 0 ∷ 0 ∷ [];
}

mismatch_code_example :
    ((download_entry name_place name_entry (serve dictionary [] short_download)).0 ≡ finalize)
    × ((r : Message) × ((download_entry name_place name_entry
            (serve dictionary [] short_download)).1.replies
          ≡ sdo_reply r ∷ [])
        × (r.sdo.command ≡ abort)
        × (get32 (payload r) ≡ 11)
        × (get32 (drop 4 (payload r)) ≡ 0x06070010))
mismatch_code_example =
    mismatch_code name_place name_entry dictionary short_download refl refl
      (λ e. absurd (omega (arith, e))) (omega arith)

name-Writable : Writable 0x1008 0 dictionary name_place name_object name_entry
unfolding find_object before_hooks
name-Writable = record { found_is = refl; entry_is = refl; writable = refl; backed = refl }

abbrev new_name : List ℕ
new_name = replicate 12 0x41

download_roundtrip_example :
    Downloaded name_place
      (before_hooks write_access name_entry)
      new_name
      (session 13 (create 20 0x1008 0 false download new_name 12 0 0) dictionary)
download_roundtrip_example =
    download_roundtrip 20 0x1008 0 new_name 0 0 dictionary name_place name_object name_entry
      (omega arith) (omega arith) (omega arith) (omega arith) refl (omega arith) (omega arith)
      name-Writable
