-- ===== src/CoE/Transfer/Upload/Single.antt =====
-- Uploads that are over after one reply: expedited, or in one mailbox
-- (lib/src/CoE/mailbox/request.cc and lib/src/CoE/mailbox/response.cc).
use kick_cat.Base.{ℕ, ◌+◌, ◌-◌, ◌≤◌, ◌<◌, ◌≡◌, refl, ap, ◌∙◌, arith, List, [], ◌∷◌, ◌++◌, subst}
use kick_cat.Base.Lists.{
  length, take, drop, replicate, blit, length-drop, length-replicate, take_all, blit-append,
}
use kick_cat.Base.Bytes.{word16, put32, get32, get32-put32}
use kick_cat.CoE.Message.{Message, data_size, payload, ProcessingResult, success, finalize}
use kick_cat.CoE.Dictionary.{Entry, Object, Dictionary, read_access, byte_size, before_hooks, Place}
use kick_cat.CoE.Client
use kick_cat.CoE.Client.{
  Client, receive_bytes, store_segment, set_toggle, finish, ask_segments, create,
}
use kick_cat.CoE.Server.{Reply, Server, serve, upload_reply, upload_entry, sdo_reply}
use kick_cat.CoE.Transfer.{transfer, deliver, initiate}
use kick_cat.CoE.Transfer.Upload.{take-blit_0}
use kick_cat.CoE.Transfer.Upload.Run.{Uploaded}
use kick_cat.CoE.Transfer.Upload.Initiate.{
  Asking, Readable, Replies, serve-upload, client-upload, client-expedited, client-normal,
  server-expedited, server-normal,
}

pub upload_reply-Replies :
    (index subindex room : ℕ) (c : Client) (len transfer block : ℕ) (bytes : List ℕ)
    → Asking index subindex room c
    → 10 ≤ len
    → len < word16
    → len ≤ room + 6
    → Replies c (upload_reply len transfer block bytes c.message)
upload_reply-Replies index subindex room c len transfer block bytes h ge lt le = record {
  local = h.address_is;
  is_coe = h.type_is;
  is_response = refl;
  answers = refl;
  same_index = rw h.body_is refl;
  same_subindex = rw h.body_is refl;
  len-ge = omega arith;
  len-le = rw h.body_is (omega (arith, length-replicate {A = ℕ} room 0));
}

pub deliver_one :
    (c : Client) (s : Server) (m : Message) (rs : List Reply)
    → s.replies ≡ sdo_reply m ∷ rs
    → deliver c s ≡ ((Client.process m c).0, (Client.process m c).1, record s { replies = rs })
deliver_one c s m rs h = rw h refl

-- The payload of a reply, behind the three bytes of index and subindex.
pub payload-reply :
    (index subindex room : ℕ) (c : Client) (len transfer block : ℕ) (bytes : List ℕ)
    → Asking index subindex room c
    → payload (upload_reply len transfer block bytes c.message) ≡ blit 0 bytes (replicate room 0)
payload-reply index subindex room c len transfer block bytes h = rw h.body_is refl

-- A client that has stored all the bytes at once.
stored-Uploaded :
    (e : Entry) (c : Client) (src : List ℕ) (s : Server) (r : ProcessingResult × Client × Server)
    → r ≡ (
      finalize,
      (finish success
          (record c { memory = receive_bytes src (byte_size e) c; size = byte_size e })).1,
      s,
    )
    → length e.bytes ≡ byte_size e
    → c.offset ≡ 0
    → byte_size e ≤ length c.memory
    → take (byte_size e) src ≡ e.bytes
    → Uploaded e r
stored-Uploaded e c src s r q b o k t = record {
  finished = rw q refl;
  succeeded = rw q refl;
  whole = rw q refl;
  bytes_are =
      rw (q, t, o)
        (subst (λ n. take n (blit 0 e.bytes c.memory) ≡ e.bytes) b
          (take-blit_0 e.bytes c.memory (omega (arith, b))));
}

pub upload_expedited :
    (index subindex room : ℕ) (c : Client) (dict : Dictionary) (p : Place) (o : Object) (e : Entry)
    → index < word16
    → 4 ≤ room
    → Asking index subindex room c
    → Readable index subindex dict p o e
    → byte_size e ≤ c.buffer_size
    → byte_size e ≤ 4
    → Uploaded (before_hooks read_access e) (initiate c dict)
unfolding before_hooks
upload_expedited index subindex room c dict p o e b z h r k small =
    let e' = before_hooks read_access e in
    let m = upload_reply 10 1 (4 - byte_size e) (take (byte_size e) e'.bytes) c.message in
    let whole : take (byte_size e) e'.bytes ≡ e'.bytes =
      take_all (byte_size e) e'.bytes (omega (arith, r.backed)) in
    let value : initiate c dict ≡ (
      finalize,
      (finish success
          (record c { memory = receive_bytes (payload m) (byte_size e) c; size = byte_size e })).1,
      record ((upload_entry p e (serve dict [] c.message)).1) { replies = [] },
    ) =
      rw
        (
          serve-upload index subindex room c dict p o e b h r,
          deliver_one c (upload_entry p e (serve dict [] c.message)).1 m []
              (server-expedited p e dict c.message r.entry_is r.readable small),
          client-upload c m h.command_is (
              upload_reply-Replies index subindex room c 10 1 (4 - byte_size e)
                (take (byte_size e) e'.bytes) h (omega arith) (omega arith) (omega arith)),
          client-expedited c m (byte_size e) refl refl refl small (omega (arith, h.size_is)),
        )
        refl in
    stored-Uploaded e' c (payload m) _ (initiate c dict) value r.backed h.offset_is
      (omega (arith, h.memory-le))
      (rw
        (
          payload-reply index subindex room c 10 1 (4 - byte_size e) (take (byte_size e) e'.bytes)
              h,
          whole,
        )
        (subst (λ n. take n (blit 0 e'.bytes (replicate room 0)) ≡ e'.bytes) r.backed
          (take-blit_0 e'.bytes (replicate room 0)
            (omega (arith, r.backed, length-replicate {A = ℕ} room 0)))))

-- A size in front of data is read back, and the data stands behind it.
pub payload-size :
    (index subindex room : ℕ) (c : Client) (len block size : ℕ) (bytes : List ℕ)
    → Asking index subindex room c
    → 4 ≤ room
    → payload (upload_reply len 0 block (put32 size ++ bytes) c.message)
      ≡ put32 size ++ blit 0 bytes (drop 4 (replicate room 0))
payload-size index subindex room c len block size bytes h z =
    payload-reply index subindex room c len 0 block (put32 size ++ bytes) h
    ∙ blit-append (put32 size) bytes (replicate room 0)
        (omega (arith, length-replicate {A = ℕ} room 0))

pub upload_normal :
    (index subindex room : ℕ) (c : Client) (dict : Dictionary) (p : Place) (o : Object) (e : Entry)
    → index < word16
    → room < 65520
    → Asking index subindex room c
    → Readable index subindex dict p o e
    → byte_size e ≤ c.buffer_size
    → 4 < byte_size e
    → byte_size e + 4 ≤ room
    → Uploaded (before_hooks read_access e) (initiate c dict)
unfolding before_hooks
upload_normal index subindex room c dict p o e b z h r k large fit =
    let e' = before_hooks read_access e in
    let n = byte_size e in
    let m =
      upload_reply (10 + n) 0 c.message.sdo.block_size (put32 n ++ take n e'.bytes) c.message in
    let size : data_size c.message ≡ 12 + room =
      rw h.body_is (omega (arith, length-replicate {A = ℕ} room 0)) in
    let len : m.header.len ≡ 10 + n = omega arith in
    let body : payload m ≡ put32 n ++ blit 0 (take n e'.bytes) (drop 4 (replicate room 0)) =
      payload-size index subindex room c (10 + n) c.message.sdo.block_size n (take n e'.bytes) h
        (omega arith) in
    let read : get32 (payload m) ≡ n =
      ap get32 body
      ∙ get32-put32 n (blit 0 (take n e'.bytes) (drop 4 (replicate room 0)))
          (omega (arith, h.buffer-lt)) in
    let whole : take n e'.bytes ≡ e'.bytes = take_all n e'.bytes (omega (arith, r.backed)) in
    let value : initiate c dict ≡ (
      finalize,
      (finish success (record c { memory = receive_bytes (drop 4 (payload m)) n c; size = n })).1,
      record ((upload_entry p e (serve dict [] c.message)).1) { replies = [] },
    ) =
      rw
        (
          serve-upload index subindex room c dict p o e b h r,
          deliver_one c (upload_entry p e (serve dict [] c.message)).1 m [] (
              server-normal p e dict c.message r.entry_is r.readable large (omega (arith, size))
                (omega (arith, size))),
          client-upload c m h.command_is (
              upload_reply-Replies index subindex room c (10 + n) 0 c.message.sdo.block_size
                (put32 n ++ take n e'.bytes) h (omega arith) (omega arith) (omega arith)),
          client-normal c m n refl refl read len (omega (arith, h.size_is)),
        )
        refl in
    stored-Uploaded e' c (drop 4 (payload m)) _ (initiate c dict) value r.backed h.offset_is
      (omega (arith, h.memory-le))
      (rw (body, whole)
        (subst (λ i. take i (blit 0 e'.bytes (drop 4 (replicate room 0))) ≡ e'.bytes) r.backed
          (take-blit_0 e'.bytes (drop 4 (replicate room 0)) (
            omega (
              arith,
              r.backed,
              length-replicate {A = ℕ} room 0,
              length-drop 4 (replicate {A = ℕ} room 0),
            )))))
