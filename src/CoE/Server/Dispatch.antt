-- ===== src/CoE/Server/Dispatch.antt =====
-- SDOMessage::process: the initiate request of an SDO transfer (lib/src/CoE/mailbox/response.cc).
use kick_cat.Base.{ℕ, ◌&&◌, ltb, ◌==◌, if◌then◌else◌, ◌∷◌, [], ◌++◌, none, some}
use kick_cat.CoE.Message.{index_of, subindex_of, ProcessingResult, download, upload, noop, finalize}
use kick_cat.CoE.Dictionary.{Entry, Object, Place, find_object, no_object, no_entry, found}
use kick_cat.CoE.Server.{
  Server, unsupported_access, object_does_not_exist, subindex_does_not_exist, size_too_short,
  abort_with, upload_entry, download_entry, error_reply,
}
use kick_cat.CoE.Server.Complete.{upload_complete, download_complete}

abbrev pub reply_error : ℕ → Server → ProcessingResult × Server
reply_error code s = (finalize, record s { replies = s.replies ++ (error_reply code ∷ []) })

-- The second `switch`: one entry.
unfoldable pub process_entry : Place → Entry → Server → ProcessingResult × Server
process_entry p e s =
    if s.message.sdo.command == upload
    then upload_entry p e s
    else if s.message.sdo.command == download
    then download_entry p e s
    else (noop, s)

unfoldable pub process_found : Place → Object → Entry → Server → ProcessingResult × Server
unfolding process_entry
process_found p o e s =
    if s.message.sdo.complete_access && ltb 1 (subindex_of s.message)
    then abort_with unsupported_access s
    else if s.message.sdo.complete_access && (s.message.sdo.command == upload)
    then upload_complete p.object o s
    else if s.message.sdo.complete_access && (s.message.sdo.command == download)
    then download_complete p.object o s
    else process_entry p e s

unfoldable pub process_request : Server → ProcessingResult × Server
unfolding process_found
process_request s =
    if ltb s.message.header.len 10
    then reply_error size_too_short s
    else elim (find_object s.dictionary (index_of s.message) (subindex_of s.message)) [
      | no_object ↦ abort_with object_does_not_exist s
      | no_entry i o ↦ abort_with subindex_does_not_exist s
      | found p o e ↦ process_found p o e s
    ]

-- Nothing is done while a segmented transfer is in progress.
unfoldable pub process : Server → ProcessingResult × Server
unfolding process_request
process s = elim s.segmented_entry [ some p ↦ (noop, s) | none ↦ process_request s ]
