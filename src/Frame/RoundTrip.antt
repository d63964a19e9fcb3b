-- ===== src/Frame/RoundTrip.antt =====
-- A frame that writeFrame has sent and readFrame has received gives its datagrams back.
use kick_cat.Base.{
  ℕ, zero, suc, ◌+◌, ◌%◌, ◌≤◌, ◌≡◌, refl, sym, ap, subst, ◌∙◌, true, false, if◌then◌else◌, List, [],
  ◌∷◌, arith,
}
use kick_cat.Base.Lists.{drop, length, drop-drop}
use kick_cat.EtherCat.{eth_ethercat_type}
use kick_cat.Frame.{
  Frame, Datagram, ethernet_type, header_len, next_datagram, reset_context, first, datagram_at,
  new_header,
}
use kick_cat.Frame.Layout.{
  Request, Laid, extent, image, expected, more, drop-append_off, datagram_at-image, length-image,
}

-- Taking datagrams out as long as there are some, `fuel` at most.
unfoldable pub drain : ℕ → Frame → List Datagram
drain zero f = []
drain (suc fuel) f =
    let (d, g) = next_datagram f in
    let rest = drain fuel g in if f.is_available then d ∷ rest else []

-- What the other side finds: the last datagram alone has no bit `multiple`.
abbrev pub expected_all : List Request → List Datagram
expected_all [] = []
expected_all (d ∷ ds) = expected d (more true ds) ∷ expected_all ds

drain-unavailable : (fuel : ℕ) (f : Frame) → f.is_available ≡ false → drain fuel f ≡ []
unfolding drain
drain-unavailable zero f h = refl
drain-unavailable (suc fuel) f h = rw h refl

-- The loop stops by itself behind the last datagram.
pub drain-Laid :
    (ds : List Request) (d : Request) (fuel : ℕ) (f : Frame)
    → length (d ∷ ds) ≤ fuel
    → f.is_available ≡ true
    → Laid true (d ∷ ds) (drop (first + f.next) f.memory)
    → drain fuel f ≡ expected_all (d ∷ ds)
unfolding drain next_datagram new_header reset_context
drain-Laid ds d zero f h on l = absurd (omega arith)
drain-Laid [] d (suc fuel) f h on (r, rest, b, e, v, l) =
    let at : datagram_at (drop (first + f.next) f.memory) ≡ expected d false =
      ap datagram_at e ∙ datagram_at-image d false r rest v b in
    rw (on, at) (ap (λ xs. expected d false ∷ xs) (drain-unavailable fuel _ refl))
drain-Laid (c ∷ ds) d (suc fuel) f h on (r, rest, b, e, v, l) =
    let at : datagram_at (drop (first + f.next) f.memory) ≡ expected d true =
      ap datagram_at e ∙ datagram_at-image d true r rest v b in
    let g : Frame = record f { next = f.next + 10 + d.size % 2048 + 2; is_available = true } in
    let behind : drop (first + g.next) f.memory ≡ rest =
      ap (λ k. drop k f.memory) (omega (arith, v.size_fits))
      ∙ sym (drop-drop (first + f.next) (extent d) f.memory)
      ∙ ap (drop (extent d)) e
      ∙ drop-append_off (image d true r) rest 0 (extent d)
          (omega (arith, length-image d true r v)) in
    rw (on, at)
      (ap (λ xs. expected d true ∷ xs)
        (drain-Laid ds c fuel g (omega arith) refl (subst (Laid true (c ∷ ds)) (sym behind) l)))

-- A frame that holds no datagram: a new one, or one that has been sent and cleared.
pub record IsEmpty (f : Frame) : Type 0 where
  pub next_is : f.next ≡ 0
  pub last_is : f.last ≡ 0
  pub len_is : header_len f ≡ 0
  pub whole : length f.memory ≡ 1518
  pub type_is : ethernet_type f ≡ eth_ethercat_type
