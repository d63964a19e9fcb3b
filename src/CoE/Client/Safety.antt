-- ===== src/CoE/Client/Safety.antt =====
-- Where the master's SDO request writes (lib/src/CoE/mailbox/request.cc).
use kick_cat.Base.{
  ℕ, ◌+◌, ◌-◌, ◌≤◌, ◌<◌, ◌≡◌, ◌⊎◌, inr, refl, arith, Bool, false, ◌||◌, ◌==◌, if◌then◌else◌, List,
  [], ◌∷◌, ◌∙◌, subst,
}
use kick_cat.Base.Lists.{take, drop, length-take, drop-blit}
use kick_cat.Base.Bytes.{word32, sub32_lem, get32}
use kick_cat.CoE.Message.{Message, payload, download_segmented, download, upload, upload_segmented}
use kick_cat.CoE.Segment.{segment_data_length}
use kick_cat.CoE.Client.{
  create, Client, process, process_upload, process_upload_segmented, process_command,
  process_download, process_download_segmented, prepare_download_segment, receive_bytes,
}

abbrev pub is_upload : Client → Bool
is_upload c = c.message.sdo.command == upload || c.message.sdo.command == upload_segmented

-- How many bytes the upload has stored so far.
abbrev pub stored : Client → ℕ
stored c = if c.message.sdo.command == upload_segmented then c.size else 0

-- The size is within the buffer, and an upload writes no further than behind what it has stored.
pub record Fits (c : Client) : Type 0 where
  pub size-le : c.size ≤ c.buffer_size
  pub buffer-lt : c.buffer_size < word32
  pub position : (is_upload c ≡ false) ⊎ (c.offset ≤ stored c)

-- The bytes behind the buffer, and its size, are the same.
pub record Contained (c d : Client) : Type 0 where
  pub beyond : drop c.buffer_size d.memory ≡ drop c.buffer_size c.memory
  pub same_size : d.buffer_size ≡ c.buffer_size

-- A copy that ends within the buffer.
receive_bytes-beyond :
    (bytes : List ℕ) (n : ℕ) (c : Client)
    → c.offset + n ≤ c.buffer_size
    → drop c.buffer_size (receive_bytes bytes n c) ≡ drop c.buffer_size c.memory
receive_bytes-beyond bytes n c h =
    drop-blit c.offset c.buffer_size (take n bytes) c.memory (omega (arith, length-take n bytes))

process_upload-Fits :
    (r : Message) (c : Client)
    → c.message.sdo.command ≡ upload
    → Fits c
    → Fits (process_upload r c).1 × Contained c (process_upload r c).1
unfolding process_upload
process_upload-Fits r c e h = ground (
  arith,
  receive_bytes-beyond (payload r) (4 - r.sdo.block_size) c,
  receive_bytes-beyond (drop 4 (payload r)) (get32 (payload r)) c,
)

process_upload_segmented-Fits :
    (r : Message) (c : Client)
    → c.message.sdo.command ≡ upload_segmented
    → Fits c
    → Fits (process_upload_segmented r c).1 × Contained c (process_upload_segmented r c).1
unfolding process_upload_segmented
process_upload_segmented-Fits r c e h = ground (
  arith,
  sub32_lem c.buffer_size c.size,
  receive_bytes-beyond r.body (segment_data_length r.header.len r.sdo) c,
)

process_download-Fits :
    (r : Message) (c : Client)
    → c.message.sdo.command ≡ download
    → Fits c
    → Fits (process_download r c).1 × Contained c (process_download r c).1
unfolding process_download prepare_download_segment
process_download-Fits r c e h = ground arith

process_download_segmented-Fits :
    (r : Message) (c : Client)
    → c.message.sdo.command ≡ download_segmented
    → Fits c
    → Fits (process_download_segmented r c).1 × Contained c (process_download_segmented r c).1
unfolding process_download_segmented prepare_download_segment
process_download_segmented-Fits r c e h = ground arith

process_command-Fits :
    (r : Message) (c : Client)
    → Fits c
    → Fits (process_command r c).1 × Contained c (process_command r c).1
unfolding process_command
process_command-Fits r c h = ground (
  arith,
  process_upload-Fits r c,
  process_upload_segmented-Fits r c,
  process_download-Fits r c,
  process_download_segmented-Fits r c,
)

process-Fits :
    (r : Message) (c : Client) → Fits c → Fits (process r c).1 × Contained c (process r c).1
unfolding process
process-Fits r c h = ground (arith, process_command-Fits r c h)

create-Fits :
    (mailbox_size index subindex : ℕ) (ca : Bool) (request : ℕ) (bytes : List ℕ)
    (size timeout now : ℕ)
    → size < word32
    → Fits (create mailbox_size index subindex ca request bytes size timeout now)
unfolding create
create-Fits mailbox_size index subindex ca request bytes size timeout now h = record {
  size-le = omega arith;
  buffer-lt = h;
  position = inr (omega arith);
}

-- A request that is given one reply after the other.
abbrev pub process_all : List Message → Client → Client
process_all [] c = c
process_all (r ∷ rs) c = process_all rs (process r c).1

process_all-Contained : (rs : List Message) (c : Client) → Fits c → Contained c (process_all rs c)
process_all-Contained [] c h = record { beyond = refl; same_size = refl }
process_all-Contained (r ∷ rs) c h =
    let (fits, one) = process-Fits r c h in
    let rest : Contained (process r c).1 (process_all rs (process r c).1) =
      process_all-Contained rs (process r c).1 fits in
    record {
      beyond =
          subst
            (λ n. drop n (process_all rs (process r c).1).memory ≡ drop n (process r c).1.memory)
            one.same_size rest.beyond
          ∙ one.beyond;
      same_size = rest.same_size ∙ one.same_size;
    }

-- Whatever the slave replies and however often, a request whose buffer is smaller than 2 ^ 32 writes
-- no byte behind the caller's buffer.
pub no_overrun :
    (mailbox_size index subindex : ℕ) (ca : Bool) (request : ℕ) (bytes : List ℕ)
    (size timeout now : ℕ) (rs : List Message)
    → size < word32
    → drop size
        (process_all rs
          (create mailbox_size index subindex ca request bytes size timeout now)).memory
      ≡ drop size bytes
unfolding create
no_overrun mailbox_size index subindex ca request bytes size timeout now rs h =
    (process_all-Contained rs (create mailbox_size index subindex ca request bytes size timeout now)
      (create-Fits mailbox_size index subindex ca request bytes size timeout now h)).beyond
