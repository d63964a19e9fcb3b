-- ===== src/CoE/Server/Errors.antt =====
-- Where the SDO server puts an abort code: SDOMessage::abort and SDOMessage::download of
-- lib/src/CoE/mailbox/response.cc.
use kick_cat.Base.{ℕ, ◌≤◌, ◌≡◌, ◌≢◌, refl, arith, true, false, List, [], ◌∷◌, ==_ne, ==_self, ◌==◌}
use kick_cat.Base.Lists.{drop, blit, length}
use kick_cat.Base.Bytes.{get32, put32}
use kick_cat.CoE.Message.{Message, payload, abort, finalize}
use kick_cat.CoE.Dictionary.{Entry, Dictionary, write_access, has_access, byte_size, Place}
use kick_cat.CoE.Server.{serve, data_type_length_mismatch, abort_with, download_entry, sdo_reply}

-- The first word of the payload is read as before a copy behind it.
get32-blit : (src body : List ℕ) → get32 (drop 3 (blit 7 src body)) ≡ get32 (drop 3 body)
get32-blit src [] = refl
get32-blit src (a ∷ []) = refl
get32-blit src (a ∷ b ∷ []) = refl
get32-blit src (a ∷ b ∷ c ∷ []) = refl
get32-blit src (a ∷ b ∷ c ∷ d ∷ []) = refl
get32-blit src (a ∷ b ∷ c ∷ d ∷ e ∷ []) = refl
get32-blit src (a ∷ b ∷ c ∷ d ∷ e ∷ f ∷ []) = refl
get32-blit src (a ∷ b ∷ c ∷ d ∷ e ∷ f ∷ g ∷ rest) = refl

-- The code stands seven bytes behind the start of the body, when the body is that long.
get32-code :
    (body : List ℕ)
    → 11 ≤ length body
    → get32 (drop 4 (drop 3 (blit 7 (put32 data_type_length_mismatch) body)))
      ≡ data_type_length_mismatch
get32-code [] h = absurd (omega arith)
get32-code (a ∷ []) h = absurd (omega arith)
get32-code (a ∷ b ∷ []) h = absurd (omega arith)
get32-code (a ∷ b ∷ c ∷ []) h = absurd (omega arith)
get32-code (a ∷ b ∷ c ∷ d ∷ []) h = absurd (omega arith)
get32-code (a ∷ b ∷ c ∷ d ∷ e ∷ []) h = absurd (omega arith)
get32-code (a ∷ b ∷ c ∷ d ∷ e ∷ f ∷ []) h = absurd (omega arith)
get32-code (a ∷ b ∷ c ∷ d ∷ e ∷ f ∷ g ∷ []) h = absurd (omega arith)
get32-code (a ∷ b ∷ c ∷ d ∷ e ∷ f ∷ g ∷ h' ∷ []) h = absurd (omega arith)
get32-code (a ∷ b ∷ c ∷ d ∷ e ∷ f ∷ g ∷ h' ∷ i ∷ []) h = absurd (omega arith)
get32-code (a ∷ b ∷ c ∷ d ∷ e ∷ f ∷ g ∷ h' ∷ i ∷ j ∷ []) h = absurd (omega arith)
get32-code (a ∷ b ∷ c ∷ d ∷ e ∷ f ∷ g ∷ h' ∷ i ∷ j ∷ k ∷ rest) l = refl

-- A download that is not expedited, of an entry that may be written, whose declared size is not that
-- of the entry is aborted, and in a body of at least 11 bytes the code is written four bytes too far:
-- where the client reads it, at the start of the payload, stands the size that it has sent, and the
-- code stands in the four bytes behind it.
pub mismatch_code :
    (p : Place) (e : Entry) (dict : Dictionary) (m : Message)
    → has_access e.access write_access ≡ true
    → m.sdo.transfer_type ≡ 0
    → get32 (payload m) ≢ byte_size e
    → 11 ≤ length m.body
    → (download_entry p e (serve dict [] m)).0 ≡ finalize
      × ((r : Message) × ((download_entry p e (serve dict [] m)).1.replies ≡ sdo_reply r ∷ [])
          × (r.sdo.command ≡ abort)
          × (get32 (payload r) ≡ get32 (payload m))
          × (get32 (drop 4 (payload r)) ≡ data_type_length_mismatch))
unfolding download_entry abort_with
mismatch_code p e dict m a t n l =
    let q : (m.sdo.transfer_type == 0) ≡ true = ==_self _ _ t in
    let r : (get32 (payload m) == byte_size e) ≡ false = ==_ne _ _ n in
    rw (a, q, r)
      (
        refl,
        (_, refl, refl, get32-blit (put32 data_type_length_mismatch) m.body, get32-code m.body l),
      )
