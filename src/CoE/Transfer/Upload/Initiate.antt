-- ===== src/CoE/Transfer/Upload/Initiate.antt =====
-- The initiate request of an upload and its reply: SDOMessage::upload of
-- lib/src/CoE/mailbox/response.cc and SDOMessage::processUpload of lib/src/CoE/mailbox/request.cc.
use kick_cat.Base.{
  ℕ, ◌+◌, ◌-◌, ◌/◌, ◌≤◌, ◌<◌, ◌≡◌, refl, arith, Bool, true, false, ◌&&◌, ltb, leb, ◌==◌, ◌%◌, [],
  ◌∷◌, ◌++◌, some, le→leb, lt→leb,
}
use kick_cat.Base.Lists.{length, take, drop, replicate}
use kick_cat.Base.Bytes.{word32, word16, sub32, sub32_lem, put32, get32}
use kick_cat.CoE.Message.{
  Message, data_size, index_of, subindex_of, payload, type_coe, sdo_response, download, upload,
  upload_response, success, continue,
}
use kick_cat.CoE.Dictionary.{
  Entry, Object, Dictionary, read_access, has_access, byte_size, before_hooks, Place, find_object,
  entry_at, update_entry, found,
}
use kick_cat.CoE.Client
use kick_cat.CoE.Client.{Client, receive_bytes, store_segment, set_toggle, finish, ask_segments}
use kick_cat.CoE.Server.{
  serve, reply, hook_before, bytes_at, upload_reply, start_segments, upload_entry, sdo_reply,
}
use kick_cat.CoE.Server.Lookup.{entry_at-update}
use kick_cat.CoE.Server.Dispatch
use kick_cat.CoE.Transfer.Upload.{bytes_at-entry}

-- A client with the initiate request of an upload ready, in a mailbox with `room` zeroed bytes.
pub record Asking (index subindex room : ℕ) (c : Client) : Type 0 where
  pub command_is : c.message.sdo.command ≡ upload
  pub one_entry : c.message.sdo.complete_access ≡ false
  pub type_is : c.message.header.mtype ≡ type_coe
  pub address_is : c.message.header.address ≡ 0
  pub len_is : c.message.header.len ≡ 10
  pub body_is : c.message.body ≡ index % 256 ∷ index / 256 % 256 ∷ subindex ∷ replicate room 0
  pub offset_is : c.offset ≡ 0
  pub size_is : c.size ≡ c.buffer_size
  pub buffer-lt : c.buffer_size < word32
  pub memory-le : c.buffer_size ≤ length c.memory

-- An entry that the dictionary holds under the index, that may be read, and that its data backs.
pub record Readable (index subindex : ℕ) (dict : Dictionary) (p : Place) (o : Object) (e : Entry)
    : Type 0 where
  pub found_is : find_object dict index subindex ≡ found p o e
  pub entry_is : entry_at dict p ≡ some e
  pub readable : has_access e.access read_access ≡ true
  pub backed : length (before_hooks read_access e).bytes ≡ byte_size e

pub serve-upload :
    (index subindex room : ℕ) (c : Client) (dict : Dictionary) (p : Place) (o : Object) (e : Entry)
    → index < word16
    → Asking index subindex room c
    → Readable index subindex dict p o e
    → Dispatch.process (serve dict [] c.message) ≡ upload_entry p e (serve dict [] c.message)
unfolding Dispatch.process Dispatch.process_request Dispatch.process_found Dispatch.process_entry
serve-upload index subindex room c dict p o e b h r =
    let i : index_of c.message ≡ index = rw h.body_is (omega arith) in
    let j : subindex_of c.message ≡ subindex = rw h.body_is refl in
    let l : ltb c.message.header.len 10 ≡ false = rw h.len_is refl in
    let t : (t : Bool) → (c.message.sdo.complete_access && t) ≡ false = λ t. rw h.one_entry refl in
    let q : (c.message.sdo.command == upload) ≡ true = rw h.command_is refl in
    rw
      (
        l,
        i,
        j,
        r.found_is,
        Dispatch.process_found,
        t (ltb 1 (subindex_of c.message)),
        t (c.message.sdo.command == upload),
        t (c.message.sdo.command == download),
        Dispatch.process_entry,
        q,
      )
      refl

-- A reply to the request, as far as the client looks at it before the data.
pub record Replies (c : Client) (m : Message) : Type 0 where
  pub local : m.header.address ≡ 0
  pub is_coe : m.header.mtype ≡ type_coe
  pub is_response : m.coe_header.service ≡ sdo_response
  pub answers : m.sdo.command ≡ upload_response
  pub same_index : index_of m ≡ index_of c.message
  pub same_subindex : subindex_of m ≡ subindex_of c.message
  pub len-ge : 10 ≤ m.header.len
  pub len-le : 6 + m.header.len ≤ data_size c.message

pub client-upload :
    (c : Client) (m : Message)
    → c.message.sdo.command ≡ upload
    → Replies c m
    → Client.process m c ≡ Client.process_upload m c
unfolding Client.process Client.process_command
client-upload c m q h = ground arith

pub client-expedited :
    (c : Client) (m : Message) (size : ℕ)
    → m.sdo.command ≡ upload_response
    → m.sdo.transfer_type ≡ 1
    → m.sdo.block_size ≡ 4 - size
    → size ≤ 4
    → size ≤ c.size
    → Client.process_upload m c
      ≡ finish success (record c { memory = receive_bytes (payload m) size c; size = size })
unfolding Client.process_upload
client-expedited c m size q t b h k =
    let e : 4 - m.sdo.block_size ≡ size = omega arith in rw e (ground arith)

pub client-normal :
    (c : Client) (m : Message) (size : ℕ)
    → m.sdo.command ≡ upload_response
    → m.sdo.transfer_type ≡ 0
    → get32 (payload m) ≡ size
    → m.header.len ≡ 10 + size
    → size ≤ c.size
    → Client.process_upload m c
      ≡ finish success
          (record c { memory = receive_bytes (drop 4 (payload m)) size c; size = size })
unfolding Client.process_upload
client-normal c m size q t b l k = rw b (ground arith)

pub client-segmented :
    (c : Client) (m : Message) (size : ℕ)
    → m.sdo.command ≡ upload_response
    → m.sdo.transfer_type ≡ 0
    → get32 (payload m) ≡ size
    → m.header.len ≡ 10
    → 0 < size
    → size ≤ c.size
    → Client.process_upload m c ≡ (continue, ask_segments c)
unfolding Client.process_upload
client-segmented c m size q t b l z k = rw b (ground arith)

pub server-expedited :
    (p : Place) (e : Entry) (dict : Dictionary) (m : Message)
    → entry_at dict p ≡ some e
    → has_access e.access read_access ≡ true
    → byte_size e ≤ 4
    → (upload_entry p e (serve dict [] m)).1.replies
      ≡ sdo_reply (
          upload_reply 10 1
            (4 - byte_size e)
            (take (byte_size e) (before_hooks read_access e).bytes)
            m)
        ∷ []
unfolding upload_entry
server-expedited p e dict m at r h =
    let b : bytes_at (update_entry p (before_hooks read_access) dict) p
        ≡ (before_hooks read_access e).bytes =
      bytes_at-entry _ p _ (entry_at-update p (before_hooks read_access) dict e at) in
    let l : leb (byte_size e) 4 ≡ true = le→leb _ _ h in rw (r, l, b) refl

pub server-normal :
    (p : Place) (e : Entry) (dict : Dictionary) (m : Message)
    → entry_at dict p ≡ some e
    → has_access e.access read_access ≡ true
    → 4 < byte_size e
    → byte_size e + 16 ≤ data_size m
    → data_size m < word32
    → (upload_entry p e (serve dict [] m)).1.replies
      ≡ sdo_reply (
          upload_reply
            (10 + byte_size e)
            0
            m.sdo.block_size
            (put32 (byte_size e) ++ take (byte_size e) (before_hooks read_access e).bytes)
            m)
        ∷ []
unfolding upload_entry
server-normal p e dict m at r h k w =
    let b : bytes_at (update_entry p (before_hooks read_access) dict) p
        ≡ (before_hooks read_access e).bytes =
      bytes_at-entry _ p _ (entry_at-update p (before_hooks read_access) dict e at) in
    let l : leb (byte_size e) 4 ≡ false = lt→leb _ _ h in
    let n : leb (byte_size e) (sub32 (data_size m) 16) ≡ true =
      le→leb _ _ (omega (arith, sub32_lem (data_size m) 16 (omega arith) w)) in
    rw (r, l, n, b) refl

pub server-segmented :
    (p : Place) (e : Entry) (dict : Dictionary) (m : Message)
    → has_access e.access read_access ≡ true
    → 4 < byte_size e
    → data_size m < byte_size e + 16
    → 16 ≤ data_size m
    → data_size m < word32
    → (upload_entry p e (serve dict [] m)).1
      ≡ start_segments p (
          reply
            (upload_reply 10 0 m.sdo.block_size (put32 (byte_size e)) m)
            (hook_before read_access p (serve dict [] m)))
unfolding upload_entry
server-segmented p e dict m r h k z w =
    let l : leb (byte_size e) 4 ≡ false = lt→leb _ _ h in
    let n : leb (byte_size e) (sub32 (data_size m) 16) ≡ false =
      lt→leb _ _ (omega (arith, sub32_lem (data_size m) 16 z w)) in
    rw (r, l, n) refl
