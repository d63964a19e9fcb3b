-- ===== src/Frame/Building.antt =====
-- What addDatagram, finalize and nextDatagram do to a frame that holds given datagrams.
use mathlib.Core.List.{append_assoc, append-nil}
use kick_cat.Base.{
  ℕ, suc, ◌+◌, ◌*◌, ◌/◌, ◌%◌, ◌≤◌, ◌≡◌, refl, sym, ap, subst, ◌∙◌, true, false, List, [], ◌∷◌, ◌++◌,
  arith,
}
use kick_cat.Base.Lists.{drop, blit, length, All, length-blit, drop-blit, drop-drop, length-drop}
use kick_cat.Base.Bytes.{put16, get16}
use kick_cat.EtherCat.{eth_ethercat_type}
use kick_cat.Frame.{
  Frame, ethernet_type, header_len, set_len, add_datagram, first, new_header, reserved_at,
}
use kick_cat.Frame.Layout.{
  Request, IsValid, Laid, image, extent, total, last_of, drop-blit_off, Laid-snoc,
}

abbrev pub add : Request → Frame → Frame
add d f = add_datagram d.index d.command d.address d.source d.size f

abbrev pub add_all : List Request → Frame → Frame
add_all [] f = f
add_all (d ∷ ds) f = add_all ds (add d f)

abbrev pub last_offset : List Request → ℕ
last_offset [] = 0
last_offset (d ∷ ds) = last_of d ds

pub record Holds (ds : List Request) (f : Frame) : Type 0 where
  pub laid : Laid false ds (drop first f.memory)
  pub next_is : f.next ≡ total ds
  pub last_is : f.last ≡ last_offset ds
  pub len_is : header_len f ≡ total ds
  pub whole : length f.memory ≡ 1518
  pub type_is : ethernet_type f ≡ eth_ethercat_type

get16-blit_start : (w : ℕ) (m : List ℕ) → 2 ≤ length m → get16 (blit 0 (put16 w) m) ≡ w % 65536
get16-blit_start w [] h = absurd (omega arith)
get16-blit_start w (a ∷ []) h = absurd (omega arith)
get16-blit_start w (a ∷ b ∷ m) h = omega arith

get16-blit_after : (off : ℕ) (src m : List ℕ) → get16 (blit (suc (suc off)) src m) ≡ get16 m
get16-blit_after off src [] = refl
get16-blit_after off src (a ∷ []) = refl
get16-blit_after off src (a ∷ b ∷ m) = refl

-- Writing the length.
module _ (n : ℕ) (f : Frame) where
  abbrev len_word : ℕ
  len_word = n % 2048 + 2048 * (get16 (drop 14 f.memory) / 2048)

  pub drop-set_len : drop first (set_len n f).memory ≡ drop first f.memory
  unfolding set_len
  drop-set_len = drop-blit 14 16 (put16 len_word) f.memory (omega arith)

  pub length-set_len : length (set_len n f).memory ≡ length f.memory
  unfolding set_len
  length-set_len = length-blit 14 (put16 len_word) f.memory

  pub header_len-set_len : 16 ≤ length f.memory → header_len (set_len n f) ≡ n % 2048
  unfolding set_len header_len
  header_len-set_len h =
      let at : drop 14 (blit 14 (put16 len_word) f.memory)
          ≡ blit 0 (put16 len_word) (drop 14 f.memory) =
        drop-blit_off 14 0 14 (put16 len_word) f.memory refl in
      omega (
        arith,
        ap get16 at,
        get16-blit_start len_word (drop 14 f.memory) (omega (arith, length-drop 14 f.memory)),
      )

-- Writes behind the type leave it.
pub type-blit :
    (off n : ℕ) (src : List ℕ) (f : Frame)
    → n ≡ 14 + off
    → ethernet_type (record f { memory = blit n src f.memory }) ≡ ethernet_type f
unfolding ethernet_type
type-blit off n src f e =
    ap get16 (drop-blit_off 12 (suc (suc off)) n src f.memory (omega arith))
    ∙ get16-blit_after off src (drop 12 f.memory)

pub type-set_len : (n : ℕ) (f : Frame) → ethernet_type (set_len n f) ≡ ethernet_type f
unfolding set_len ethernet_type
type-set_len n f =
    ap get16 (drop-blit_off 12 2 14 (put16 (len_word n f)) f.memory refl)
    ∙ get16-blit_after 0 (put16 (len_word n f)) (drop 12 f.memory)

-- A write among the datagrams leaves the length.
pub header_len-blit :
    (off n : ℕ) (src : List ℕ) (f : Frame)
    → n ≡ first + off
    → header_len (record f { memory = blit n src f.memory }) ≡ header_len f
unfolding header_len
header_len-blit off n src f e = omega (
  arith,
  ap get16 (drop-blit_off 14 (suc (suc off)) n src f.memory (omega arith)),
  get16-blit_after off src (drop 14 f.memory),
)

total-snoc : (ds : List Request) (d : Request) → total (ds ++ (d ∷ [])) ≡ total ds + extent d
total-snoc [] d = omega arith
total-snoc (c ∷ ds) d = omega (arith, total-snoc ds d)

last_of-snoc :
    (c : Request) (ds : List Request) (d : Request)
    → last_of c (ds ++ (d ∷ [])) ≡ extent c + total ds
last_of-snoc c [] d = omega arith
last_of-snoc c (b ∷ ds) d = omega (arith, last_of-snoc b ds d)

last_offset-snoc : (ds : List Request) (d : Request) → last_offset (ds ++ (d ∷ [])) ≡ total ds
last_offset-snoc [] d = refl
last_offset-snoc (c ∷ ds) d = last_of-snoc c ds d

-- The bytes of the datagrams that a frame can carry.
abbrev pub capacity : ℕ
capacity = 1498

-- The frame with the bytes of one more datagram, before its length is raised.
abbrev put : Request → Frame → Frame
put d f = record f {
  memory =
      blit (first + f.next) (image d true (reserved_at (drop (first + f.next) f.memory))) f.memory;
}

pub Holds-add :
    (ds : List Request) (d : Request) (f : Frame)
    → IsValid d
    → total ds + extent d ≤ capacity
    → Holds ds f
    → Holds (ds ++ (d ∷ [])) (add d f)
unfolding add_datagram new_header header_len ethernet_type
Holds-add ds d f v fits h =
    let g = put d f in
    let n : ℕ = header_len g + (10 + d.size + 2) % 2048 in
    let len : header_len g ≡ header_len f = header_len-blit f.next (first + f.next) _ f refl in
    let big : length g.memory ≡ 1518 = length-blit (first + f.next) _ f.memory ∙ h.whole in
    let here : drop (first + f.next) f.memory ≡ drop (total ds) (drop first f.memory) =
      ap (λ k. drop (first + k) f.memory) h.next_is ∙ sym (drop-drop first (total ds) f.memory) in
    let moved : drop first g.memory
        ≡ blit (total ds) (image d true (reserved_at (drop (total ds) (drop first f.memory))))
            (drop first f.memory) =
      drop-blit_off first (total ds) (first + f.next) _ f.memory (omega (arith, h.next_is))
      ∙ ap (λ xs. blit (total ds) (image d true (reserved_at xs)) (drop first f.memory)) here in
    record {
      laid = subst (Laid false (ds ++ (d ∷ []))) (sym (drop-set_len n g ∙ moved)) (
          Laid-snoc ds d (drop first f.memory) v
            (omega (arith, length-drop first f.memory, h.whole)) h.laid);
      next_is = omega (arith, h.next_is, total-snoc ds d);
      last_is = h.next_is ∙ sym (last_offset-snoc ds d);
      len_is = omega (
        arith,
        header_len-set_len n g (omega (arith, big)),
        len,
        h.len_is,
        total-snoc ds d,
        v.size_fits,
      );
      whole = length-set_len n g ∙ big;
      type_is =
          type-set_len n g ∙ type-blit (2 + f.next) (first + f.next) _ f (omega arith) ∙ h.type_is;
    }

pub Holds-add_all :
    (ds es : List Request) (f : Frame)
    → All IsValid es
    → total ds + total es ≤ capacity
    → Holds ds f
    → Holds (ds ++ es) (add_all es f)
Holds-add_all ds [] f v fits h = rw (append-nil ds) h
Holds-add_all ds (e ∷ es) f v fits h =
    let one = Holds-add ds e f v.0 (omega arith) h in
    let rest =
      Holds-add_all (ds ++ (e ∷ [])) es (add e f) v.1 (omega (arith, total-snoc ds e)) one in
    subst (λ l. Holds l (add_all es (add e f))) (append_assoc ds (e ∷ []) es) rest
