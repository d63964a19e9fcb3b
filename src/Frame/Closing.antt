-- ===== src/Frame/Closing.antt =====
-- finalize of lib/src/Frame.cc: the last datagram is marked, and short frames are padded.
use kick_cat.Base.{
  ℕ, ◌+◌, ◌-◌, ◌%◌, ◌≤◌, ◌≡◌, refl, sym, ap, subst, ◌∙◌, true, ltb, List, ◌∷◌, arith, Bool-cases,
  inl, inr,
}
use kick_cat.Base.Lists.{drop, replicate, blit, length, length-blit, drop-drop}
use kick_cat.Base.Bytes.{put16, get16}
use kick_cat.EtherCat.{eth_ethercat_type}
use kick_cat.Frame.{Frame, ethernet_type, header_len, finalize, close_last, reset_context, first}
use kick_cat.Frame.Socket.{padded}
use kick_cat.Frame.Building.{Holds, header_len-blit, type-blit}
use kick_cat.Frame.Layout.{
  Request, Laid, total, drop-blit_off, Laid-blit, Laid-close, unset_multiple,
}

-- A frame that is ready to be sent, and what the other side finds in it.
pub record IsClosed (ds : List Request) (f : Frame) : Type 0 where
  pub laid : Laid true ds (drop first f.memory)
  pub len_is : header_len f ≡ total ds
  pub whole : length f.memory ≡ 1518
  pub type_is : ethernet_type f ≡ eth_ethercat_type

module _ (f : Frame) where
  drop-close_last : drop first (close_last f) ≡ unset_multiple (f.last + 6) (drop first f.memory)
  unfolding close_last
  drop-close_last =
      drop-blit_off first (f.last + 6) (first + f.last + 6) _ f.memory (omega arith)
      ∙ ap (λ xs. blit (f.last + 6) (put16 (get16 xs % 32768)) (drop first f.memory))
          (ap (λ k. drop k f.memory) (omega arith) ∙ sym (drop-drop first (f.last + 6) f.memory))

abbrev closed : Frame → Frame
closed f = reset_context (record f { memory = close_last f })

IsClosed-close :
    (d : Request) (ds : List Request) (f : Frame) → Holds (d ∷ ds) f → IsClosed (d ∷ ds) (closed f)
unfolding reset_context close_last header_len ethernet_type
IsClosed-close d ds f h = record {
  laid =
      subst (Laid true (d ∷ ds)) (sym (drop-close_last f))
        (Laid-close d ds (drop first f.memory) (f.last + 6) (omega (arith, h.last_is)) h.laid);
  len_is = header_len-blit (f.last + 6) (first + f.last + 6) _ f (omega arith) ∙ h.len_is;
  whole = length-blit (first + f.last + 6) _ f.memory ∙ h.whole;
  type_is = type-blit (f.last + 8) (first + f.last + 6) _ f (omega arith) ∙ h.type_is;
}

-- Padding behind the datagrams.
IsClosed-blit :
    (ds : List Request) (off k : ℕ) (src : List ℕ) (f : Frame)
    → k ≡ first + off
    → total ds ≤ off
    → IsClosed ds f
    → IsClosed ds (record f { memory = blit k src f.memory })
unfolding header_len ethernet_type
IsClosed-blit ds off k src f e b h = record {
  laid =
      subst (Laid true ds) (sym (drop-blit_off first off k src f.memory e))
        (Laid-blit true ds (drop first f.memory) src off b h.laid);
  len_is = header_len-blit off k src f e ∙ h.len_is;
  whole = length-blit k src f.memory ∙ h.whole;
  type_is = type-blit (2 + off) k src f (omega arith) ∙ h.type_is;
}

pub IsClosed-finalize :
    (d : Request) (ds : List Request) (f : Frame)
    → Holds (d ∷ ds) f
    → IsClosed (d ∷ ds) (finalize f).1
unfolding finalize
IsClosed-finalize d ds f h =
    let c = IsClosed-close d ds f h in
    let n = header_len (closed f) + 14 + 2 in
    elim (Bool-cases (ltb n 60)) [
      | inl small ↦ rw small (
          IsClosed-blit (d ∷ ds) f.next (first + f.next) (replicate (60 - n) 0) (closed f) refl
            (omega (arith, h.next_is)) c)
      | inr big ↦ rw big c
    ]

-- The size that finalize gives, and that it is ready to be read from its first datagram.
pub finalize-padded :
    (d : Request) (ds : List Request) (f : Frame)
    → Holds (d ∷ ds) f
    → (finalize f).0 ≡ padded (total (d ∷ ds))
unfolding finalize
finalize-padded d ds f h = let c = IsClosed-close d ds f h in rw c.len_is (ground arith)
