-- ===== src/Frame/Layout.antt =====
-- How datagrams lie one behind the other in the bytes of a frame, and what writes elsewhere leave.
use kick_cat.Base.{
  ℕ, zero, suc, ◌+◌, ◌-◌, ◌%◌, ◌≤◌, ◌<◌, ◌≡◌, refl, sym, ap, ap₂, ◌∙◌, Bool, true, false, not, List,
  [], ◌∷◌, ◌++◌, Option, arith,
}
use mathlib.Core.List.{append-nil, append_assoc}
use kick_cat.Base.Lists.{take, drop, blit, length, length-append, blit-append, drop-drop}
use kick_cat.Base.Bytes.{put16, get16, word32}
use kick_cat.EtherCat.{datagram_header_size, DatagramHeader, header_bytes, header_of}
use kick_cat.Frame.{Datagram, payload, new_header, datagram_at, reserved_at}

-- What a caller asks to add.
pub record Request : Type 0 where
  pub index : ℕ
  pub command : ℕ
  pub address : ℕ
  pub source : Option (List ℕ)
  pub size : ℕ

abbrev pub body : Request → List ℕ
body d = payload d.command d.source d.size

-- The fields fit in their words, and there are as many bytes as announced.
pub record IsValid (d : Request) : Type 0 where
  pub index_fits : d.index < 256
  pub command_fits : d.command < 256
  pub address_fits : d.address < word32
  pub size_fits : d.size < 2048
  pub enough : length (body d) ≡ d.size

abbrev pub header_for : Request → Bool → DatagramHeader
header_for d more = record (new_header d.index d.command d.address d.size) { multiple = more }

abbrev pub image : Request → Bool → ℕ → List ℕ
image d more reserved = header_bytes (header_for d more) reserved ++ (body d ++ put16 0)

-- What is taken out of the frame for a request.
abbrev pub expected : Request → Bool → Datagram
expected d more = record { header = header_for d more; bytes = body d; wkc = 0 }

abbrev pub extent : Request → ℕ
extent d = d.size + 12

pub length-image :
    (d : Request) (more : Bool) (r : ℕ) → IsValid d → length (image d more r) ≡ extent d
unfolding header_bytes
length-image d more r v = omega (arith, length-append (body d) (put16 0), v.enough)

pub take-append_exact {ℓ} : {A : Type ℓ} (xs ys : List A) → take (length xs) (xs ++ ys) ≡ xs
take-append_exact [] ys = refl
take-append_exact (x ∷ xs) ys = ap (λ r. x ∷ r) (take-append_exact xs ys)

pub drop-append_exact {ℓ} : {A : Type ℓ} (xs ys : List A) → drop (length xs) (xs ++ ys) ≡ ys
drop-append_exact [] ys = refl
drop-append_exact (x ∷ xs) ys = drop-append_exact xs ys

header_of-image :
    (d : Request) (more : Bool) (r : ℕ) (rest : List ℕ)
    → IsValid d
    → r < 8
    → header_of (image d more r ++ rest) ≡ header_for d more
unfolding header_bytes header_of new_header
header_of-image d more r rest v h = ground (arith, v.index_fits, v.size_fits)

drop-image :
    (d : Request) (more : Bool) (r : ℕ) (rest : List ℕ)
    → drop 10 (image d more r ++ rest) ≡ body d ++ (put16 0 ++ rest)
unfolding header_bytes
drop-image d more r rest = append_assoc (body d) (put16 0) rest

pub datagram_at-image :
    (d : Request) (more : Bool) (r : ℕ) (rest : List ℕ)
    → IsValid d
    → r < 8
    → datagram_at (image d more r ++ rest) ≡ expected d more
unfolding datagram_at new_header
datagram_at-image d more r rest v h =
    let n : d.size % 2048 ≡ length (body d) = omega (arith, v.size_fits, v.enough) in
    let w : drop (datagram_header_size + d.size % 2048) (image d more r ++ rest) ≡ put16 0 ++ rest =
      sym (drop-drop 10 (d.size % 2048) (image d more r ++ rest))
      ∙ ap₂ (λ k xs. drop k xs) n (drop-image d more r rest)
      ∙ drop-append_exact (body d) (put16 0 ++ rest) in
    let b : take (d.size % 2048) (body d ++ (put16 0 ++ rest)) ≡ body d =
      ap (λ k. take k (body d ++ (put16 0 ++ rest))) n
      ∙ take-append_exact (body d) (put16 0 ++ rest) in
    rw (header_of-image d more r rest v h, drop-image d more r rest, w, b) refl

-- The bit `multiple` of the datagram before `ds`: only the last of a closed frame has none.
abbrev pub more : Bool → List Request → Bool
more is_closed [] = not is_closed
more is_closed (_ ∷ _) = true

-- The bytes start with these datagrams, one behind the other.
abbrev pub Laid : Bool → List Request → List ℕ → Type 0
Laid is_closed [] m = Unit
Laid is_closed (d ∷ ds) m =
    (r : ℕ) × (rest : List ℕ) × (r < 8)
    × (m ≡ image d (more is_closed ds) r ++ rest)
    × IsValid d
    × Laid is_closed ds rest

abbrev pub total : List Request → ℕ
total [] = 0
total (d ∷ ds) = extent d + total ds

blit-append_off :
    (xs ys src : List ℕ) (off n : ℕ)
    → n ≡ length xs + off
    → blit n src (xs ++ ys) ≡ xs ++ blit off src ys
blit-append_off [] ys src off n e = let e' : n ≡ off = omega arith in rw e' refl
blit-append_off (x ∷ xs) ys src off zero e = absurd (omega arith)
blit-append_off (x ∷ xs) ys src off (suc n) e =
    ap (λ r. x ∷ r) (blit-append_off xs ys src off n (omega arith))

take-append_off :
    (xs ys : List ℕ) (k n : ℕ) → n ≡ length xs + k → take n (xs ++ ys) ≡ xs ++ take k ys
take-append_off [] ys k n e = let e' : n ≡ k = omega arith in rw e' refl
take-append_off (x ∷ xs) ys k zero e = absurd (omega arith)
take-append_off (x ∷ xs) ys k (suc n) e = ap (λ r. x ∷ r) (take-append_off xs ys k n (omega arith))

pub drop-append_off : (xs ys : List ℕ) (k n : ℕ) → n ≡ length xs + k → drop n (xs ++ ys) ≡ drop k ys
drop-append_off [] ys k n e = let e' : n ≡ k = omega arith in rw e' refl
drop-append_off (x ∷ xs) ys k zero e = absurd (omega arith)
drop-append_off (x ∷ xs) ys k (suc n) e = drop-append_off xs ys k n (omega arith)

pub drop-blit_off :
    (k off n : ℕ) (src m : List ℕ) → n ≡ k + off → drop k (blit n src m) ≡ blit off src (drop k m)
drop-blit_off zero off n src m e = let e' : n ≡ off = omega arith in rw e' refl
drop-blit_off (suc k) off zero src m e = absurd (omega arith)
drop-blit_off (suc k) off (suc n) src [] e = refl
drop-blit_off (suc k) off (suc n) src (x ∷ xs) e = drop-blit_off k off n src xs (omega arith)

-- A write behind the datagrams leaves them.
pub Laid-blit :
    (is_closed : Bool) (ds : List Request) (m src : List ℕ) (off : ℕ)
    → total ds ≤ off
    → Laid is_closed ds m
    → Laid is_closed ds (blit off src m)
Laid-blit is_closed [] m src off h l = tt
Laid-blit is_closed (d ∷ ds) m src off h (r, rest, b, e, v, l) =
    let n : off ≡ length (image d (more is_closed ds) r) + (off - extent d) =
      omega (arith, length-image d (more is_closed ds) r v) in
    (
      r,
      blit (off - extent d) src rest,
      b,
      rw e (blit-append_off (image d (more is_closed ds) r) rest src (off - extent d) off n),
      v,
      Laid-blit is_closed ds rest src (off - extent d) (omega arith) l,
    )

-- They are there as well when only the bytes up to their end are copied.
pub Laid-take :
    (is_closed : Bool) (ds : List Request) (m tail : List ℕ) (n : ℕ)
    → total ds ≤ n
    → Laid is_closed ds m
    → Laid is_closed ds (take n m ++ tail)
Laid-take is_closed [] m tail n h l = tt
Laid-take is_closed (d ∷ ds) m tail n h (r, rest, b, e, v, l) =
    let whole = image d (more is_closed ds) r in
    let k : n ≡ length whole + (n - extent d) =
      omega (arith, length-image d (more is_closed ds) r v) in
    (
      r,
      take (n - extent d) rest ++ tail,
      b,
      rw e (
          ap (λ xs. xs ++ tail) (take-append_off whole rest (n - extent d) n k)
          ∙ append_assoc whole (take (n - extent d) rest) tail),
      v,
      Laid-take is_closed ds rest tail (n - extent d) (omega arith) l,
    )

reserved_at_lt : (m : List ℕ) → reserved_at m < 8
unfolding reserved_at
reserved_at_lt m = omega arith

more_open : (ds : List Request) → more false ds ≡ true
more_open [] = refl
more_open (d ∷ ds) = refl

-- A datagram that is written behind the others.
pub Laid-snoc :
    (ds : List Request) (d : Request) (m : List ℕ)
    → IsValid d
    → total ds + extent d ≤ length m
    → Laid false ds m
    → Laid false
        (ds ++ (d ∷ []))
        (blit (total ds) (image d true (reserved_at (drop (total ds) m))) m)
Laid-snoc [] d m v h l =
    let whole = image d true (reserved_at m) in
    (
      reserved_at m,
      blit 0 [] (drop (length whole) m),
      reserved_at_lt m,
      ap (λ xs. blit 0 xs m) (sym (append-nil whole))
          ∙ blit-append whole [] m (omega (arith, length-image d true (reserved_at m) v)),
      v,
      tt,
    )
Laid-snoc (c ∷ ds) d m v h (r, rest, b, e, w, l) =
    let first = image c true r in
    let n = length-image c true r w in
    let m-rest : m ≡ first ++ rest = e ∙ ap (λ t. image c t r ++ rest) (more_open ds) in
    let at : drop (total (c ∷ ds)) m ≡ drop (total ds) rest =
      ap (drop (total (c ∷ ds))) m-rest
      ∙ drop-append_off first rest (total ds) (total (c ∷ ds)) (omega (arith, n)) in
    let room : total ds + extent d ≤ length rest =
      omega (arith, n, ap length m-rest, length-append first rest) in
    let new = image d true (reserved_at (drop (total ds) rest)) in
    (
      r,
      blit (total ds) new rest,
      b,
      ap₂ (λ (xs ys : List ℕ). blit (total (c ∷ ds)) (image d true (reserved_at xs)) ys) at m-rest
          ∙ blit-append_off first rest new (total ds) (total (c ∷ ds)) (omega (arith, n))
          ∙ ap (λ t. image c t r ++ blit (total ds) new rest) (sym (more_open (ds ++ (d ∷ [])))),
      w,
      Laid-snoc ds d rest v room l,
    )

-- Where the header of the last datagram stands.
abbrev pub last_of : Request → List Request → ℕ
last_of d [] = 0
last_of d (c ∷ ds) = extent d + last_of c ds

abbrev pub unset_multiple : ℕ → List ℕ → List ℕ
unset_multiple pos m = blit pos (put16 (get16 (drop pos m) % 32768)) m

unset-image :
    (d : Request) (r : ℕ) (rest : List ℕ)
    → IsValid d
    → r < 8
    → unset_multiple 6 (image d true r ++ rest) ≡ image d false r ++ rest
unfolding header_bytes new_header
unset-image d r rest v h = ground (arith, v.index_fits, v.size_fits)

-- Clearing the bit `multiple` of the last datagram closes the frame.
pub Laid-close :
    (d : Request) (ds : List Request) (m : List ℕ) (n : ℕ)
    → n ≡ last_of d ds + 6
    → Laid false (d ∷ ds) m
    → Laid true (d ∷ ds) (unset_multiple n m)
Laid-close d [] m n e (r, rest, b, em, w, l) =
    let six : n ≡ 6 = omega arith in
    (r, rest, b, ap₂ unset_multiple six em ∙ unset-image d r rest w b, w, tt)
Laid-close d (c ∷ ds) m n e (r, rest, b, em, w, l) =
    let first = image d true r in
    let k : n ≡ length first + (last_of c ds + 6) = omega (arith, length-image d true r w) in
    let at : drop n m ≡ drop (last_of c ds + 6) rest =
      ap (drop n) em ∙ drop-append_off first rest (last_of c ds + 6) n k in
    let word = put16 (get16 (drop (last_of c ds + 6) rest) % 32768) in
    (
      r,
      unset_multiple (last_of c ds + 6) rest,
      b,
      ap₂ (λ (xs ys : List ℕ). blit n (put16 (get16 xs % 32768)) ys) at em
          ∙ blit-append_off first rest word (last_of c ds + 6) n k,
      w,
      Laid-close c ds rest (last_of c ds + 6) refl l,
    )
