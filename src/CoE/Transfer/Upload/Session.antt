-- ===== src/CoE/Transfer/Upload/Session.antt =====
-- A whole upload, from the client's initiate request to its last segment: expedited, in one mailbox
-- or in segments (lib/src/CoE/mailbox/request.cc and lib/src/CoE/mailbox/response.cc).
use kick_cat.Base.{
  ℕ, ◌+◌, ◌≤◌, ◌<◌, ◌≡◌, refl, ap, ◌∙◌, arith, leb, [], Bool-cases, leb→le, leb_gt, inl, inr, ◌⊎◌,
}
use kick_cat.Base.Lists.{drop, replicate, blit, length-replicate}
use kick_cat.Base.Bytes.{word16, put32, get32, get32-put32}
use kick_cat.CoE.Message.{data_size, payload, continue}
use kick_cat.CoE.Dictionary.{Entry, Object, Dictionary, read_access, byte_size, before_hooks, Place}
use kick_cat.CoE.Client.{Client, ask_segments}
use kick_cat.CoE.Server.{serve, reply, hook_before, upload_reply, start_segments, upload_entry}
use kick_cat.CoE.Server.Lookup.{entry_at-update}
use kick_cat.CoE.Transfer.{initiate, session}
use kick_cat.CoE.Transfer.Upload.{Uploading}
use kick_cat.CoE.Transfer.Upload.Run.{Uploaded, transfer-Uploaded}
use kick_cat.CoE.Transfer.Upload.Initiate.{
  Asking, Readable, serve-upload, client-upload, client-segmented, server-segmented,
}
use kick_cat.CoE.Transfer.Upload.Single.{
  upload_reply-Replies, payload-size, upload_expedited, upload_normal,
}

initiate_segments :
    (index subindex room : ℕ) (c : Client) (dict : Dictionary) (p : Place) (o : Object) (e : Entry)
    → index < word16
    → 7 ≤ room
    → room < 65520
    → Asking index subindex room c
    → Readable index subindex dict p o e
    → byte_size e ≤ c.buffer_size
    → 4 < byte_size e
    → room < byte_size e + 4
    → ((initiate c dict).0 ≡ continue)
      × Uploading p (before_hooks read_access e) 0 (initiate c dict).1 (initiate c dict).2
unfolding before_hooks
initiate_segments index subindex room c dict p o e b y z h r k large tight =
    let n = byte_size e in
    let m = upload_reply 10 0 c.message.sdo.block_size (put32 n) c.message in
    let size : data_size c.message ≡ 12 + room =
      rw h.body_is (omega (arith, length-replicate {A = ℕ} room 0)) in
    let read : get32 (payload m) ≡ n =
      ap get32 (payload-size index subindex room c 10 c.message.sdo.block_size n [] h (omega arith))
      ∙ get32-put32 n (blit 0 [] (drop 4 (replicate room 0))) (omega (arith, h.buffer-lt)) in
    let answer : (upload_entry p e (serve dict [] c.message)).1
        ≡ start_segments p (reply m (hook_before read_access p (serve dict [] c.message))) =
      server-segmented p e dict c.message r.readable large (omega (arith, size))
        (omega (arith, size)) (omega (arith, size)) in
    let value : initiate c dict ≡ (
      continue,
      ask_segments c,
      record (start_segments p (hook_before read_access p (serve dict [] c.message))) {
        replies = [];
      },
    ) =
      rw
        (
          serve-upload index subindex room c dict p o e b h r,
          answer,
          client-upload c m h.command_is (
              upload_reply-Replies index subindex room c 10 0 c.message.sdo.block_size (put32 n) h
                (omega arith) (omega arith) (omega arith)),
          client-segmented c m n refl refl read refl (omega arith) (omega (arith, h.size_is)),
        )
        refl in
    rw value (
      refl,
      record {
        command_is = refl;
        type_is = h.type_is;
        len_is = refl;
        service_is = refl;
        same_toggle = refl;
        mailbox_min = omega (arith, size);
        mailbox_max = omega (arith, size);
        size_is = refl;
        offset_is = h.offset_is;
        fits = k;
        buffer-lt = h.buffer-lt;
        memory-le = h.memory-le;
        place_is = refl;
        entry_is = entry_at-update p (before_hooks read_access) dict e r.entry_is;
        backed = r.backed;
        sent_is = refl;
        replies_are = refl;
        sent-lt = omega arith;
        received = refl;
      },
    )

-- For any entry, however long: as many exchanges as it has bytes are enough, and none is needed when
-- it is expedited or fits in one mailbox.
pub session-Uploaded :
    (rounds index subindex room : ℕ) (c : Client) (dict : Dictionary) (p : Place) (o : Object)
    (e : Entry)
    → index < word16
    → 7 ≤ room
    → room < 65520
    → Asking index subindex room c
    → Readable index subindex dict p o e
    → byte_size e ≤ c.buffer_size
    → (byte_size e ≤ 4) ⊎ (byte_size e + 4 ≤ room) ⊎ (byte_size e ≤ rounds)
    → Uploaded (before_hooks read_access e) (session rounds c dict)
unfolding session before_hooks
session-Uploaded rounds index subindex room c dict p o e b y z h r k enough =
    elim (Bool-cases (leb (byte_size e) 4)) [
      | inl q ↦
          let u : Uploaded (before_hooks read_access e) (initiate c dict) =
            upload_expedited index subindex room c dict p o e b (omega arith) h r k
              (leb→le _ _ q) in
          rw (session, u.finished) u
      | inr q ↦ elim (Bool-cases (leb (byte_size e + 4) room)) [
        | inl w ↦
            let u : Uploaded (before_hooks read_access e) (initiate c dict) =
              upload_normal index subindex room c dict p o e b z h r k (leb_gt _ _ q)
                (leb→le _ _ w) in
            rw (session, u.finished) u
        | inr w ↦
            let (go, up) =
              initiate_segments index subindex room c dict p o e b y z h r k (leb_gt _ _ q)
                (leb_gt _ _ w) in
            rw (session, go)
              (transfer-Uploaded rounds p (before_hooks read_access e) 0 (initiate c dict).1
                (initiate c dict).2 up (ground (arith, enough, leb_gt _ _ q, leb_gt _ _ w)))
      ]
    ]
