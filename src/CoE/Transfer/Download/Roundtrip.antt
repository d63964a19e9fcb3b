-- ===== src/CoE/Transfer/Download/Roundtrip.antt =====
-- A segmented download, from the constructor of SDOMessage in lib/src/CoE/mailbox/request.cc to the
-- last segment at the server of lib/src/CoE/mailbox/response.cc.
use kick_cat.Base.{
  ℕ, suc, ◌+◌, ◌-◌, ◌≤◌, ◌<◌, ◌≡◌, refl, ap, arith, false, leb, lt→leb, ◌==◌, if◌then◌else◌, List,
  [], ◌∷◌, ◌++◌, subst,
}
use kick_cat.Base.Lists.{length, take, replicate, blit, length-replicate, length-blit, take_all}
use kick_cat.Base.Bytes.{word16, word32, put32, put16}
use kick_cat.CoE.Message.{download, data_size, running}
use kick_cat.CoE.Dictionary.{
  Dictionary, Place, Object, Entry, byte_size, before_hooks, write_access,
}
use kick_cat.CoE.Client.{Client, create, place, blank, place_size, chunk_of}
use kick_cat.CoE.Transfer.{session, initiate, transfer}
use kick_cat.CoE.Transfer.Upload.Roundtrip.{blank-body}
use kick_cat.CoE.Transfer.Download.Initiate.{Offering, Writable, initiate-Downloading}
use kick_cat.CoE.Transfer.Download.Done.{Downloaded, transfer-Downloaded}

session-Downloaded :
    (index subindex room : ℕ) (c : Client) (dict : Dictionary) (p : Place) (o : Object) (e : Entry)
    → index < word16
    → 4 ≤ room
    → room < 65520
    → Offering index subindex room c
    → Writable index subindex dict p o e
    → c.remaining ≡ byte_size e
    → 0 < c.remaining
    → Downloaded p
        (before_hooks write_access e)
        (take (byte_size e) c.memory)
        (session (suc (byte_size e)) c dict)
unfolding session before_hooks
session-Downloaded index subindex room c dict p o e b z y h r same pos =
    let (go, kept, left, ready) =
      initiate-Downloading index subindex room c dict p o e b z y h r same pos in
    rw (session, go)
      (subst
        (λ m.
          Downloaded p (before_hooks write_access e) (take (byte_size e) m)
            (transfer (suc (byte_size e)) (initiate c dict).1 (initiate c dict).2))
        kept
        (transfer-Downloaded (suc (byte_size e)) p (before_hooks write_access e)
          (before_hooks write_access e).bytes 0 (chunk_of c) (initiate c dict).1 (initiate c dict).2
          ready (omega (arith, left, same))))

-- The request of a segmented download, as the constructor leaves it.
abbrev offer : (mailbox_size index subindex : ℕ) → List ℕ → (size timeout now : ℕ) → Client
offer mailbox_size index subindex bytes size timeout now = record {
  message = place_size size (blank mailbox_size index subindex false download);
  memory = bytes;
  offset = 0;
  size = size;
  buffer_size = size;
  remaining = size;
  status = running;
  timeout = if timeout == 0 then 0 else timeout + now;
}

create-offer :
    (mailbox_size index subindex : ℕ) (bytes : List ℕ) (size timeout now : ℕ)
    → 16 ≤ mailbox_size
    → 4 < size
    → mailbox_size < size + 16
    → create mailbox_size index subindex false download bytes size timeout now
      ≡ offer mailbox_size index subindex bytes size timeout now
unfolding create place
create-offer mailbox_size index subindex bytes size timeout now lo big tight =
    let m = blank mailbox_size index subindex false download in
    let held : data_size m ≡ mailbox_size = omega (
      arith,
      length-blit 0 (put16 index ++ subindex ∷ []) (replicate (mailbox_size - 9) 0),
      length-replicate {A = ℕ} (mailbox_size - 9) 0,
    ) in
    let a : leb size 4 ≡ false = lt→leb _ _ big in
    let b : leb (size + 16) (data_size m) ≡ false = lt→leb _ _ (omega (arith, held)) in
    rw (a, b) refl

offer-Offering :
    (mailbox_size index subindex : ℕ) (bytes : List ℕ) (size timeout now : ℕ)
    → 16 ≤ mailbox_size
    → size < word32
    → size ≤ length bytes
    → Offering index subindex
        (mailbox_size - 12)
        (offer mailbox_size index subindex bytes size timeout now)
offer-Offering mailbox_size index subindex bytes size timeout now lo b k = record {
  command_is = refl;
  one_entry = refl;
  not_expedited_is = refl;
  type_is = refl;
  address_is = refl;
  len_is = refl;
  body_is = ap (blit 3 (put32 size)) (blank-body mailbox_size index subindex (omega arith));
  offset_is = refl;
  remaining-lt = b;
  memory-le = k;
}

-- With a mailbox of 16 to 65531 bytes, a download to an entry that may be written, of the entry's
-- size and too large for one mailbox, ends with success, and the entry holds exactly the client's
-- bytes, as the callbacks after the access leave them: one exchange more than there are bytes is
-- enough. The transfer has then ended at the server as well.
pub download_roundtrip :
    (mailbox_size index subindex : ℕ) (bytes : List ℕ) (timeout now : ℕ) (dict : Dictionary)
    (p : Place) (o : Object) (e : Entry)
    → 16 ≤ mailbox_size
    → mailbox_size < 65532
    → index < word16
    → length bytes < word32
    → length bytes ≡ byte_size e
    → 4 < length bytes
    → mailbox_size < length bytes + 16
    → Writable index subindex dict p o e
    → Downloaded p (before_hooks write_access e) bytes (
        session
          (suc (byte_size e))
          (create mailbox_size index subindex false download bytes (length bytes) timeout now)
          dict)
download_roundtrip mailbox_size index subindex bytes timeout now dict p o e lo hi i b same big tight
      r =
    let c = offer mailbox_size index subindex bytes (length bytes) timeout now in
    let all : take (byte_size e) bytes ≡ bytes =
      take_all (byte_size e) bytes (omega (arith, same)) in
    let done : Downloaded p (before_hooks write_access e) (take (byte_size e) bytes)
        (session (suc (byte_size e)) c dict) =
      session-Downloaded index subindex (mailbox_size - 12) c dict p o e i (omega arith)
        (omega arith)
        (offer-Offering mailbox_size index subindex bytes (length bytes) timeout now lo b
          (omega arith))
        r same (omega arith) in
    rw (create-offer mailbox_size index subindex bytes (length bytes) timeout now lo big tight) (
      subst (λ v. Downloaded p (before_hooks write_access e) v (session (suc (byte_size e)) c dict))
        all done)
