-- ===== src/CoE/Transfer/Upload/Roundtrip.antt =====
-- An upload from its creation: the constructor of SDOMessage in lib/src/CoE/mailbox/request.cc, then
-- the whole session with the server of lib/src/CoE/mailbox/response.cc.
use kick_cat.Base.{
  ℕ, suc, ◌-◌, ◌/◌, ◌%◌, ◌≤◌, ◌<◌, ◌≡◌, refl, arith, false, List, [], ◌∷◌, ◌++◌, ap, ◌⊎◌, ◌+◌,
}
use kick_cat.Base.Lists.{length, replicate, blit}
use kick_cat.Base.Bytes.{word16, word32, put16}
use kick_cat.CoE.Message.{upload}
use kick_cat.CoE.Dictionary.{Dictionary, Place, Object, Entry, byte_size, before_hooks, read_access}
use kick_cat.CoE.Client.{create, place}
use kick_cat.CoE.Transfer.{session}
use kick_cat.CoE.Transfer.Upload.Run.{Uploaded}
use kick_cat.CoE.Transfer.Upload.Initiate.{Asking, Readable}
use kick_cat.CoE.Transfer.Upload.Session.{session-Uploaded}

pub blit_none : (ys : List ℕ) → blit 0 [] ys ≡ ys
blit_none [] = refl
blit_none (y ∷ ys) = refl

pub blank-body :
    (mailbox_size index subindex : ℕ)
    → 12 ≤ mailbox_size
    → blit 0 (put16 index ++ subindex ∷ []) (replicate (mailbox_size - 9) 0)
      ≡ index % 256 ∷ index / 256 % 256 ∷ subindex ∷ replicate (mailbox_size - 12) 0
blank-body mailbox_size index subindex h =
    let n : mailbox_size - 9 ≡ suc (suc (suc (mailbox_size - 12))) = omega arith in
    rw n (
      ap (λ r. index % 256 ∷ index / 256 % 256 ∷ subindex ∷ r)
        (blit_none (replicate (mailbox_size - 12) 0)))

create-Asking :
    (mailbox_size index subindex : ℕ) (bytes : List ℕ) (size timeout now : ℕ)
    → 12 ≤ mailbox_size
    → size < word32
    → size ≤ length bytes
    → Asking index subindex
        (mailbox_size - 12)
        (create mailbox_size index subindex false upload bytes size timeout now)
unfolding create place
create-Asking mailbox_size index subindex bytes size timeout now h b m = record {
  command_is = refl;
  one_entry = refl;
  type_is = refl;
  address_is = refl;
  len_is = refl;
  body_is = blank-body mailbox_size index subindex h;
  offset_is = refl;
  size_is = refl;
  buffer-lt = b;
  memory-le = m;
}

-- With a mailbox of 19 to 65531 bytes, an upload of an entry that may be read, into a buffer that is
-- large enough, ends with success, the size of the entry and exactly its bytes, as the callbacks
-- before the access leave them. The initiate request alone does it when the entry has at most 4
-- bytes, and when it and the 16 bytes before it fit in the mailbox; in any case as many exchanges of
-- segments as the entry has bytes are enough.
pub upload_roundtrip :
    (rounds mailbox_size index subindex : ℕ) (bytes : List ℕ) (size timeout now : ℕ)
    (dict : Dictionary) (p : Place) (o : Object) (e : Entry)
    → 19 ≤ mailbox_size
    → mailbox_size < 65532
    → index < word16
    → size < word32
    → size ≤ length bytes
    → byte_size e ≤ size
    → Readable index subindex dict p o e
    → (byte_size e ≤ 4) ⊎ (byte_size e + 16 ≤ mailbox_size) ⊎ (byte_size e ≤ rounds)
    → Uploaded (before_hooks read_access e) (
        session rounds
          (create mailbox_size index subindex false upload bytes size timeout now)
          dict)
unfolding create
upload_roundtrip rounds mailbox_size index subindex bytes size timeout now dict p o e lo hi i b m k
      r enough =
    session-Uploaded rounds index subindex (mailbox_size - 12)
      (create mailbox_size index subindex false upload bytes size timeout now) dict p o e i
      (omega arith) (omega arith)
      (create-Asking mailbox_size index subindex bytes size timeout now (omega arith) b m) r k
      (ground (arith, enough))
