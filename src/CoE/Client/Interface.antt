-- ===== src/CoE/Client/Interface.antt =====
-- The SDO request as a message of the master's mailbox: the virtual functions of AbstractMessage
-- (lib/include/kickcat/Mailbox.h) that it has (lib/src/CoE/mailbox/request.cc).
use kick_cat.Base.{ℕ, ◌%◌, ◌≡◌, ◌≢◌, arith}
use kick_cat.CoE.Message.{Message, noop}
use kick_cat.CoE.Client
use kick_cat.CoE.Client.{Client, status_at}
use kick_cat.Mailbox.Request.{MessageOps}

-- `setCounter`; the field has three bits.
abbrev pub set_counter : ℕ → Client → Client
set_counter n c = record c {
  message = record (c.message) { header = record (c.message.header) { count = n % 8 } };
}

-- A message that belongs to the request is always taken.
process_upload-takes : (r : Message) (c : Client) → (Client.process_upload r c).0 ≢ noop
unfolding Client.process_upload
process_upload-takes r c h = ground arith

process_upload_segmented-takes :
    (r : Message) (c : Client) → (Client.process_upload_segmented r c).0 ≢ noop
unfolding Client.process_upload_segmented
process_upload_segmented-takes r c h = ground arith

process_download-takes : (r : Message) (c : Client) → (Client.process_download r c).0 ≢ noop
unfolding Client.process_download
process_download-takes r c h = ground arith

process_download_segmented-takes :
    (r : Message) (c : Client) → (Client.process_download_segmented r c).0 ≢ noop
unfolding Client.process_download_segmented
process_download_segmented-takes r c h = ground arith

process_command-takes : (r : Message) (c : Client) → (Client.process_command r c).0 ≢ noop
unfolding Client.process_command
process_command-takes r c h = ground (
  arith,
  process_upload-takes r c,
  process_upload_segmented-takes r c,
  process_download-takes r c,
  process_download_segmented-takes r c,
)

pub process_noop :
    (r : Message) (c : Client) → (Client.process r c).0 ≡ noop → (Client.process r c).1 ≡ c
unfolding Client.process
process_noop r c h = ground (arith, process_command-takes r c)

abbrev pub sdo_message : MessageOps Client Message
sdo_message = record {
  process = Client.process;
  set_counter = set_counter;
  status_at = status_at;
  noop-same = process_noop;
}
