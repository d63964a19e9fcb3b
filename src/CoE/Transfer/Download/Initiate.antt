-- ===== src/CoE/Transfer/Download/Initiate.antt =====
-- The initiate request of a segmented download and its reply: SDOMessage of lib/src/CoE/mailbox/request.cc, and
-- SDOMessage::download of lib/src/CoE/mailbox/response.cc.
use kick_cat.Base.{
  ℕ, ◌+◌, ◌/◌, ◌%◌, ◌≤◌, ◌<◌, ◌≡◌, refl, ap, ◌∙◌, arith, Bool, true, false, ◌&&◌, ltb, ◌==◌,
  ==_self, lt→ltb, [], ◌∷◌, some, subst,
}
use kick_cat.Base.Lists.{length, drop, replicate, blit, length-replicate, length-blit, blit-append}
use kick_cat.Base.Bytes.{word16, word32, sub32, put32, get32, get32-put32}
use kick_cat.CoE.Message.{
  Message, data_size, index_of, subindex_of, payload, type_coe, sdo_response, download, upload,
  download_response, continue,
}
use kick_cat.CoE.Dictionary.{
  Entry, Object, Dictionary, write_access, has_access, byte_size, before_hooks, Place, find_object,
  entry_at, found,
}
use kick_cat.CoE.Client
use kick_cat.CoE.Client.{
  Client, create, place, prepare_download_segment, set_toggle, set_running, chunk_of,
}
use kick_cat.CoE.Segment.{set_segment_length}
use kick_cat.CoE.Server.{serve, reply, set_service, hook_before, start_segments, download_entry}
use kick_cat.CoE.Server.Lookup.{entry_at-update}
use kick_cat.CoE.Server.Dispatch
use kick_cat.CoE.Transfer.{initiate}
use kick_cat.CoE.Transfer.Download.{Segmented, prepare-Segmented, chunk_of-min}
use kick_cat.CoE.Transfer.Download.Run.{Downloading}

-- A client with the initiate request of a segmented download ready.
pub record Offering (index subindex room : ℕ) (c : Client) : Type 0 where
  pub command_is : c.message.sdo.command ≡ download
  pub one_entry : c.message.sdo.complete_access ≡ false
  pub not_expedited_is : c.message.sdo.transfer_type ≡ 0
  pub type_is : c.message.header.mtype ≡ type_coe
  pub address_is : c.message.header.address ≡ 0
  pub len_is : c.message.header.len ≡ 10
  pub body_is :
      c.message.body
      ≡ index % 256 ∷ index / 256 % 256 ∷ subindex ∷ blit 0 (put32 c.remaining) (replicate room 0)
  pub offset_is : c.offset ≡ 0
  pub remaining-lt : c.remaining < word32
  pub memory-le : c.remaining ≤ length c.memory

-- An entry that the dictionary holds under the index, that may be written, and that its data backs.
pub record Writable (index subindex : ℕ) (dict : Dictionary) (p : Place) (o : Object) (e : Entry)
    : Type 0 where
  pub found_is : find_object dict index subindex ≡ found p o e
  pub entry_is : entry_at dict p ≡ some e
  pub writable : has_access e.access write_access ≡ true
  pub backed : length (before_hooks write_access e).bytes ≡ byte_size e

serve-download :
    (index subindex room : ℕ) (c : Client) (dict : Dictionary) (p : Place) (o : Object) (e : Entry)
    → index < word16
    → Offering index subindex room c
    → Writable index subindex dict p o e
    → Dispatch.process (serve dict [] c.message) ≡ download_entry p e (serve dict [] c.message)
unfolding Dispatch.process Dispatch.process_request Dispatch.process_found Dispatch.process_entry
serve-download index subindex room c dict p o e b h r =
    let i : index_of c.message ≡ index = rw h.body_is (omega arith) in
    let j : subindex_of c.message ≡ subindex = rw h.body_is refl in
    let l : ltb c.message.header.len 10 ≡ false = rw h.len_is refl in
    let t : (t : Bool) → (c.message.sdo.complete_access && t) ≡ false = λ t. rw h.one_entry refl in
    let u : (c.message.sdo.command == upload) ≡ false = rw h.command_is refl in
    let q : (c.message.sdo.command == download) ≡ true = rw h.command_is refl in
    rw
      (
        l,
        i,
        j,
        r.found_is,
        Dispatch.process_found,
        t (ltb 1 (subindex_of c.message)),
        t (c.message.sdo.command == upload),
        t (c.message.sdo.command == download),
        Dispatch.process_entry,
        u,
        q,
      )
      refl

-- The server accepts the size and waits for segments.
start-download :
    (p : Place) (e : Entry) (dict : Dictionary) (m : Message)
    → has_access e.access write_access ≡ true
    → m.sdo.transfer_type ≡ 0
    → m.header.len ≡ 10
    → get32 (payload m) ≡ byte_size e
    → 0 < byte_size e
    → (download_entry p e (serve dict [] m)).1
      ≡ start_segments p (
          reply
            (set_service sdo_response download_response m)
            (record (hook_before write_access p (serve dict [] m)) { payload_at = 7 }))
unfolding download_entry sub32
start-download p e dict m a t l z pos =
    let q : (m.sdo.transfer_type == 0) ≡ true = ==_self _ _ t in
    let same : (get32 (payload m) == byte_size e) ≡ true = ==_self _ _ z in
    let less : ltb (sub32 m.header.len 10) (get32 (payload m)) ≡ true =
      rw (l, z) (lt→ltb _ _ pos) in
    rw (a, q, same, less) refl

client-accepts :
    (c : Client) (m : Message)
    → c.message.sdo.command ≡ download
    → m.header.address ≡ 0
    → m.header.mtype ≡ type_coe
    → m.coe_header.service ≡ sdo_response
    → m.header.len ≡ 10
    → m.sdo.command ≡ download_response
    → index_of m ≡ index_of c.message
    → subindex_of m ≡ subindex_of c.message
    → 16 ≤ data_size c.message
    → 0 < c.remaining
    → Client.process m c ≡ (continue, set_running (prepare_download_segment (set_toggle false c)))
unfolding Client.process Client.process_command Client.process_download
client-accepts c m q a t v l r i j z pos = ground arith

offered-size :
    (index subindex room : ℕ) (c : Client)
    → 4 ≤ room
    → Offering index subindex room c
    → get32 (payload c.message) ≡ c.remaining
offered-size index subindex room c z h =
    let body : payload c.message ≡ blit 0 (put32 c.remaining) (replicate room 0) =
      rw h.body_is refl in
    ap get32 (
      body
      ∙ blit-append (put32 c.remaining) [] (replicate room 0)
          (omega (arith, length-replicate {A = ℕ} room 0)))
    ∙ get32-put32 c.remaining (blit 0 [] (drop 4 (replicate room 0))) h.remaining-lt

pub initiate-Downloading :
    (index subindex room : ℕ) (c : Client) (dict : Dictionary) (p : Place) (o : Object) (e : Entry)
    → index < word16
    → 4 ≤ room
    → room < 65520
    → Offering index subindex room c
    → Writable index subindex dict p o e
    → c.remaining ≡ byte_size e
    → 0 < c.remaining
    → ((initiate c dict).0 ≡ continue)
      × ((initiate c dict).1.memory ≡ c.memory)
      × ((initiate c dict).1.remaining ≤ c.remaining)
      × Downloading p
          (before_hooks write_access e)
          (before_hooks write_access e).bytes
          0
          (chunk_of c)
          (initiate c dict).1
          (initiate c dict).2
unfolding prepare_download_segment set_segment_length before_hooks
initiate-Downloading index subindex room c dict p o e b z y h r same pos =
    let size : data_size c.message ≡ 12 + room = rw h.body_is (
      omega (
        arith,
        length-replicate {A = ℕ} room 0,
        length-blit 0 (put32 c.remaining) (replicate room 0),
      )) in
    let answer : (Dispatch.process (serve dict [] c.message)).1
        ≡ start_segments p (
            reply (set_service sdo_response download_response c.message)
              (record (hook_before write_access p (serve dict [] c.message)) { payload_at = 7 })) =
      ap (λ v. v.1) (serve-download index subindex room c dict p o e b h r)
      ∙ start-download p e dict c.message r.writable h.not_expedited_is h.len_is
          (offered-size index subindex room c z h ∙ same) (omega arith) in
    let value : initiate c dict ≡ (
      continue,
      set_running (prepare_download_segment (set_toggle false c)),
      record (start_segments p
          (record (hook_before write_access p (serve dict [] c.message)) { payload_at = 7 })) {
            replies = [];
          },
    ) =
      rw
        (
          answer,
          client-accepts c (set_service sdo_response download_response c.message) h.command_is
              h.address_is h.type_is refl h.len_is refl refl refl (omega (arith, size)) pos,
        )
        refl in
    let ready : Segmented c.offset (chunk_of c) (prepare_download_segment (set_toggle false c)) =
      prepare-Segmented (set_toggle false c) h.type_is (omega (arith, size)) (omega (arith, size))
        (omega (arith, h.offset_is, h.memory-le)) pos in
    let first : Segmented 0 (chunk_of c) (prepare_download_segment (set_toggle false c)) =
      subst (λ n. Segmented n (chunk_of c) (prepare_download_segment (set_toggle false c)))
        h.offset_is ready in
    rw value (
      refl,
      refl,
      omega arith,
      record {
        segment = record {
          command_is = first.command_is;
          type_is = first.type_is;
          service_is = first.service_is;
          len-ge = first.len-ge;
          chunk_is = first.chunk_is;
          last_is = first.last_is;
          data_is = first.data_is;
          offset_is = first.offset_is;
          mailbox_min = first.mailbox_min;
          mailbox_max = first.mailbox_max;
          memory-le = first.memory-le;
          chunk-pos = first.chunk-pos;
        };
        sum_is = omega (arith, chunk_of-min c, same);
        same_toggle = refl;
        place_is = refl;
        entry_is = entry_at-update p (before_hooks write_access) dict e r.entry_is;
        backed = r.backed;
        small = omega (arith, same, h.remaining-lt);
        sent_is = refl;
        replies_are = refl;
        stored = refl;
      },
    )
