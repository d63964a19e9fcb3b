-- ===== src/Frame/Copy.antt =====
-- The bytes of a frame, copied by the network into the memory of another one.
use kick_cat.Base.{
  ℕ, zero, suc, ◌+◌, ◌-◌, ◌%◌, ◌≤◌, ◌≡◌, refl, sym, ap, subst, ◌∙◌, true, false, List, [], ◌∷◌,
  ◌++◌, arith, ==_self, ◌==◌,
}
use kick_cat.Base.Lists.{take, drop, blit, length, length-take, length-drop, blit-append}
use mathlib.Core.List.{append-nil}
use kick_cat.Base.Bytes.{get16}
use kick_cat.EtherCat.{eth_ethercat_type}
use kick_cat.Frame.{Frame, ethernet_type, header_len, clear, set_len, first}
use kick_cat.Frame.Socket.{done, check_read, padded}
use kick_cat.Frame.Layout.{Request, Laid, total, Laid-take}
use kick_cat.Frame.Building.{drop-set_len}
use kick_cat.Frame.Closing.{IsClosed}

drop-take :
    (k n : ℕ) (m tail : List ℕ)
    → k ≤ n
    → n ≤ length m
    → drop k (take n m ++ tail) ≡ take (n - k) (drop k m) ++ tail
drop-take zero n m tail h b = let e : n - 0 ≡ n = omega arith in rw e refl
drop-take (suc k) zero m tail h b = absurd (omega arith)
drop-take (suc k) (suc n) [] tail h b = absurd (omega arith)
drop-take (suc k) (suc n) (x ∷ m) tail h b =
    let e : suc n - suc k ≡ n - k = omega arith in
    rw e (drop-take k n m tail (omega arith) (omega arith))

get16-take : (n : ℕ) (m tail : List ℕ) → 2 ≤ n → 2 ≤ length m → get16 (take n m ++ tail) ≡ get16 m
get16-take zero m tail h b = absurd (omega arith)
get16-take (suc zero) m tail h b = absurd (omega arith)
get16-take (suc (suc n)) [] tail h b = absurd (omega arith)
get16-take (suc (suc n)) (x ∷ []) tail h b = absurd (omega arith)
get16-take (suc (suc n)) (x ∷ y ∷ m) tail h b = refl

next-clear : (f : Frame) → (clear f).next ≡ f.next
unfolding clear set_len
next-clear f = refl

blit_whole :
    (xs ys : List ℕ) → length xs ≤ length ys → blit 0 xs ys ≡ xs ++ blit 0 [] (drop (length xs) ys)
blit_whole xs ys h = ap (λ zs. blit 0 zs ys) (sym (append-nil xs)) ∙ blit-append xs [] ys h

-- A closed frame whose first `n` bytes have been copied over another one.
module _ (ds : List Request) (n : ℕ) (f g : Frame) (h : IsClosed ds f) (lower : total ds + 16 ≤ n)
    (upper : n ≤ 1518) (big : length g.memory ≡ 1518) where
  abbrev pub copied : Frame
  copied = record g { memory = blit 0 (take n f.memory) g.memory }

  pub length-sent : length (take n f.memory) ≡ n
  length-sent = omega (arith, length-take n f.memory, h.whole)

  copied_is :
      blit 0 (take n f.memory) g.memory
      ≡ take n f.memory ++ blit 0 [] (drop (length (take n f.memory)) g.memory)
  copied_is = blit_whole (take n f.memory) g.memory (omega (arith, length-sent))

  field-copied : (k : ℕ) → k + 2 ≤ n → get16 (drop k copied.memory) ≡ get16 (drop k f.memory)
  field-copied k b =
      ap (λ m. get16 (drop k m)) copied_is
      ∙ ap get16 (drop-take k n f.memory _ (omega arith) (omega (arith, h.whole)))
      ∙ get16-take (n - k) (drop k f.memory) _ (omega arith)
          (omega (arith, length-drop k f.memory, h.whole))

  Laid-copied : Laid true ds (drop first copied.memory)
  Laid-copied =
      subst (Laid true ds)
        (sym (
          ap (drop first) copied_is
          ∙ drop-take first n f.memory _ (omega arith) (omega (arith, h.whole))))
        (Laid-take true ds (drop first f.memory) _ (n - 16) (omega arith) h.laid)

  header_len-copied : header_len copied ≡ total ds
  unfolding header_len
  header_len-copied = ap (λ (k : ℕ). k % 2048) (field-copied 14 (omega arith)) ∙ h.len_is

  type-copied : ethernet_type copied ≡ eth_ethercat_type
  unfolding ethernet_type
  type-copied = field-copied 12 (omega arith) ∙ h.type_is

  -- readFrame accepts the copy and finds the datagrams in it.
  pub read-copied :
      n ≡ padded (total ds)
      → (check_read n copied).0 ≡ done n
        × ((check_read n copied).1.is_available ≡ true)
        × ((check_read n copied).1.next ≡ g.next)
        × (drop first (check_read n copied).1.memory ≡ drop first copied.memory)
  unfolding check_read clear
  read-copied e =
      let some_bytes : (n == 0) ≡ false = ground arith in
      let good : (n == padded (total ds)) ≡ true = ==_self n _ e in
      let kind : (eth_ethercat_type == eth_ethercat_type) ≡ true = refl in
      (
        rw (some_bytes, type-copied, header_len-copied, good) refl,
        rw (some_bytes, type-copied, header_len-copied, good) refl,
        rw (some_bytes, type-copied, header_len-copied, good) (next-clear copied),
        rw (some_bytes, type-copied, header_len-copied, good) (drop-set_len 0 copied),
      )

  pub Laid-read :
      g.next ≡ 0
      → n ≡ padded (total ds)
      → Laid true ds (drop (first + (check_read n copied).1.next) (check_read n copied).1.memory)
  Laid-read start e =
      let r : Frame = (check_read n copied).1 in
      let (_, _, next, same) = read-copied e in
      subst (Laid true ds) (sym (ap (λ k. drop (first + k) r.memory) (next ∙ start) ∙ same))
        Laid-copied
