-- ===== src/CoE/Information/Listing.antt =====
-- What the fragments of an object dictionary list carry: SDOInformationMessage::processODList of
-- lib/src/CoE/mailbox/response.cc.
use kick_cat.Base.{
  ℕ, zero, suc, ◌+◌, ◌-◌, ◌*◌, ◌/◌, ◌%◌, ◌≤◌, ◌<◌, ◌≡◌, refl, ap, ap₂, sym, ◌∙◌, arith, leb, le→leb,
  lt→leb, Bool-cases, leb→le, leb_gt, ◌==◌, ==_ne, subst, List, [], ◌∷◌, ◌++◌, inl, inr, true,
  false,
}
use native.Mathlib.Nat.{
  mod_self, div_self, mod-eq_of_lt, div-eq_of_lt, mul-mod_left, mul-div_left, div-eq_of_lt-le,
  div-add-mod',
}
use native.Mathlib.Decide.{ℕ_discrete}
use kick_cat.Base.Lists.{
  length, take, drop, length-take, take-add, take_all, blit, All, length-append,
}
use kick_cat.Base.Bytes.{get16, word16}
use kick_cat.CoE.Information.{InfoMessage, info_size}
use kick_cat.CoE.Information.Server.{fill, fragments, count_up, required_fragments, bytes_of}

-- A fragment takes as many words as there is room for.
fill-take :
    (limit len room : ℕ) (ws : List ℕ)
    → room ≡ (limit - len) / 2
    → ((fill limit len ws).0 ≡ take room ws) × ((fill limit len ws).1 ≡ drop room ws)
unfolding fill
fill-take limit len zero [] e = (refl, refl)
fill-take limit len (suc room) [] e = (refl, refl)
fill-take limit len zero (w ∷ ws) e =
    let no : leb (len + 2) limit ≡ false = lt→leb _ _ (omega arith) in rw no (refl, refl)
fill-take limit len (suc room) (w ∷ ws) e =
    let yes : leb (len + 2) limit ≡ true = le→leb _ _ (omega arith) in
    let (now, later) = fill-take limit (len + 2) room ws (omega arith) in
    rw yes (ap (λ r. w ∷ r) now, later)

fill-len :
    (limit len : ℕ) (ws : List ℕ) → (fill limit len ws).2 ≡ len + 2 * length (fill limit len ws).0
unfolding fill
fill-len limit len [] = omega arith
fill-len limit len (w ∷ ws) = elim (Bool-cases (leb (len + 2) limit)) [
  | inl q ↦ rw q (omega (arith, fill-len limit (len + 2) ws))
  | inr q ↦ rw q (omega arith)
]

-- The first `n` words of some bytes.
abbrev pub words_in : ℕ → List ℕ → List ℕ
words_in zero bytes = []
words_in (suc n) bytes = get16 bytes ∷ words_in n (drop 2 bytes)

length-words_in : (n : ℕ) (bytes : List ℕ) → length (words_in n bytes) ≡ n
length-words_in zero bytes = refl
length-words_in (suc n) bytes = ap suc (length-words_in n (drop 2 bytes))

-- The words of the bodies of the replies, one reply after the other: as many as each header
-- announces behind the 6 bytes of the headers.
abbrev pub carried : List InfoMessage → List ℕ
carried [] = []
carried (m ∷ ms) = words_in ((m.header.len - 6) / 2) m.body ++ carried ms

abbrev pub IsWord : ℕ → Type 0
IsWord w = w < word16

-- What is written at the start of a body is read there.
words_in-bytes_of :
    (ws body : List ℕ)
    → All IsWord ws
    → 2 * length ws ≤ length body
    → words_in (length ws) (blit 0 (bytes_of ws) body) ≡ ws
words_in-bytes_of [] body a h = refl
words_in-bytes_of (w ∷ ws) [] a h = absurd (omega arith)
words_in-bytes_of (w ∷ ws) (x ∷ []) a h = absurd (omega arith)
words_in-bytes_of (w ∷ ws) (x ∷ y ∷ body) a h =
    ap₂ (λ (v : ℕ) (vs : List ℕ). v ∷ vs) (omega (arith, a.0))
      (words_in-bytes_of ws body a.1 (omega arith))

All-take : (n : ℕ) (ws : List ℕ) → All IsWord ws → All IsWord (take n ws)
All-take zero ws a = tt
All-take (suc n) [] a = tt
All-take (suc n) (w ∷ ws) a = (a.0, All-take n ws a.1)

All-drop : (n : ℕ) (ws : List ℕ) → All IsWord ws → All IsWord (drop n ws)
All-drop zero ws a = a
All-drop (suc n) [] a = tt
All-drop (suc n) (w ∷ ws) a = All-drop n ws a.1

-- The words that one fragment has room for.
abbrev pub words_per_fragment : InfoMessage → ℕ
words_per_fragment m = (info_size m - 12) / 2

mul_suc : (n room : ℕ) → room + n * room ≡ suc n * room
mul_suc n room = ground arith

-- The words of one fragment, read back from its body.
first_fragment :
    (m : InfoMessage) (ws : List ℕ)
    → m.header.len ≡ 6
    → All IsWord ws
    → let f = fill (info_size m - 6) m.header.len ws in
      words_in ((f.2 - 6) / 2) (blit 0 (bytes_of f.0) m.body) ≡ take (words_per_fragment m) ws
first_fragment m ws h a =
    let room = words_per_fragment m in
    let (now, later) = fill-take (info_size m - 6) m.header.len room ws (omega (arith, h)) in
    let f = fill (info_size m - 6) m.header.len ws in
    let short : length f.0 ≤ room = omega (arith, ap length now, length-take room ws) in
    let count : (f.2 - 6) / 2 ≡ length f.0 =
      omega (arith, h, fill-len (info_size m - 6) m.header.len ws) in
    let small : All IsWord f.0 = subst (All IsWord) (sym now) (All-take room ws a) in
    ap (λ (n : ℕ). words_in n (blit 0 (bytes_of f.0) m.body)) count
    ∙ words_in-bytes_of f.0 m.body small (omega (arith, short))
    ∙ now

length-fragments : (n : ℕ) (m : InfoMessage) (ws : List ℕ) → length (fragments n m ws) ≡ n
unfolding fragments
length-fragments zero m ws = refl
length-fragments (suc n) m ws = ap suc (length-fragments n (count_up m) _)

pub fragments-carried :
    (n : ℕ) (m : InfoMessage) (ws : List ℕ)
    → m.header.len ≡ 6
    → All IsWord ws
    → carried (fragments n m ws) ≡ take (n * words_per_fragment m) ws
unfolding fragments
fragments-carried zero m ws h a = let z : 0 * words_per_fragment m ≡ 0 = omega arith in rw z refl
fragments-carried (suc n) m ws h a =
    let room = words_per_fragment m in
    let f = fill (info_size m - 6) m.header.len ws in
    let (now, later) = fill-take (info_size m - 6) m.header.len room ws (omega (arith, h)) in
    let small : All IsWord f.1 = subst (All IsWord) (sym later) (All-drop room ws a) in
    let rest : carried (fragments n (count_up m) f.1) ≡ take (n * room) f.1 =
      fragments-carried n (count_up m) f.1 h small in
    let total : room + n * room ≡ suc n * room = mul_suc n room in
    ap (λ r. r ++ carried (fragments n (count_up m) f.1)) (first_fragment m ws h a)
    ∙ ap (λ r. take room ws ++ r) (rest ∙ ap (take (n * room)) later)
    ∙ take-add room (n * room) ws
    ∙ ap (λ k. take k ws) total

one_fragment :
    (mailbox words : ℕ) → 0 < words → words * 2 ≤ mailbox → required_fragments mailbox words ≡ 1
unfolding required_fragments
one_fragment mailbox words z h = elim (Bool-cases (leb mailbox (words * 2))) [
  | inl q ↦
      let same : words * 2 ≡ mailbox = omega (arith, leb→le _ _ q) in
      let none_left : mailbox % mailbox ≡ 0 = mod_self mailbox in
      let once : mailbox / mailbox ≡ 1 = div_self {n = mailbox} (omega arith) in
      rw (same, none_left, once) refl
  | inr q ↦
      let less : words * 2 < mailbox = leb_gt _ _ q in
      let some_left : words * 2 % mailbox ≡ words * 2 = mod-eq_of_lt less in
      let nothing : words * 2 / mailbox ≡ 0 = div-eq_of_lt less in
      let test : (words * 2 == 0) ≡ false = ==_ne _ _ (λ e. absurd (omega (arith, e))) in
      rw (some_left, nothing, test) refl
]

positive : (mailbox n k : ℕ) → 0 < n → n ≤ k * mailbox → 0 < mailbox
positive zero n k z h = let none_left : k * 0 ≡ 0 = omega arith in absurd (omega arith)
positive (suc mailbox) n k z h = omega arith

not_whole :
    (mailbox total k : ℕ)
    → total / mailbox ≡ k
    → k * mailbox < total
    → (total % mailbox == 0) ≡ false
not_whole mailbox total k d lo = ==_ne _ _ (λ e.
    let parts = div-add-mod' total mailbox in
    let same : total / mailbox * mailbox ≡ k * mailbox = ap (λ (q : ℕ). q * mailbox) d in
    absurd (omega arith))

-- The code asks for the size of the list over the size of the mailbox, rounded up.
required_fragments-up :
    (mailbox words k : ℕ)
    → suc k < word16
    → k * mailbox < words * 2
    → words * 2 ≤ suc k * mailbox
    → required_fragments mailbox words ≡ suc k
unfolding required_fragments
required_fragments-up mailbox words k b lo hi = elim (ℕ_discrete (words * 2) (suc k * mailbox)) [
  | yes e ↦
      let pos = positive mailbox (words * 2) (suc k) (omega arith) hi in
      let whole : words * 2 % mailbox ≡ 0 =
        ap (λ (n : ℕ). n % mailbox) e ∙ mul-mod_left (suc k) mailbox in
      let d : words * 2 / mailbox ≡ suc k =
        ap (λ (n : ℕ). n / mailbox) e ∙ mul-div_left (suc k) pos in
      let fits : suc k % word16 ≡ suc k = omega (arith, b) in rw (whole, d, fits) refl
  | no e ↦
      let next : suc k * mailbox ≡ (k + 1) * mailbox = ap (λ (n : ℕ). n * mailbox) (omega arith) in
      let below : words * 2 < (k + 1) * mailbox = ground (arith, e) in
      let d : words * 2 / mailbox ≡ k = div-eq_of_lt-le {k = k} mailbox (omega arith) below in
      let fits : (k + 1) % word16 ≡ suc k = omega (arith, b) in
      rw (not_whole mailbox (words * 2) k d lo, d, fits) refl
]

-- For an answer whose header counts 6 bytes, and a list of 16-bit words: when `k + 1`, below 2 ^ 16, is
-- the size of the list in bytes over the size of the mailbox, rounded up, and `k + 1` fragments, which
-- have 12 bytes less each, have room for the list, then `k + 1` replies are made, and the words read
-- from their bodies, as many as their headers announce, are the whole list in its order.
pub od_list_sent :
    (m : InfoMessage) (ws : List ℕ) (k : ℕ)
    → m.header.len ≡ 6
    → All IsWord ws
    → suc k < word16
    → k * info_size m < length ws * 2
    → length ws * 2 ≤ suc k * info_size m
    → length ws ≤ suc k * words_per_fragment m
    → (length (fragments (required_fragments (info_size m) (length ws)) m ws) ≡ suc k)
      × (carried (fragments (required_fragments (info_size m) (length ws)) m ws) ≡ ws)
od_list_sent m ws k h a b lo hi fit =
    let e = required_fragments-up (info_size m) (length ws) k b lo hi in
    rw e (
      length-fragments (suc k) m ws,
      fragments-carried (suc k) m ws h a ∙ take_all (suc k * words_per_fragment m) ws fit,
    )

-- The end of a list is lost when the list fits in the mailbox but not behind the 12 bytes of the
-- headers, for an answer whose header counts 6 bytes: the bodies of the replies hold fewer words.
pub od_list_loses :
    (m : InfoMessage) (ws : List ℕ)
    → m.header.len ≡ 6
    → length ws * 2 ≤ info_size m
    → info_size m < length ws * 2 + 12
    → length (carried (fragments (required_fragments (info_size m) (length ws)) m ws)) < length ws
unfolding fragments
od_list_loses m ws h fit tight =
    let one : required_fragments (info_size m) (length ws) ≡ 1 =
      one_fragment (info_size m) (length ws) (omega arith) fit in
    let room = words_per_fragment m in
    let f = fill (info_size m - 6) m.header.len ws in
    let (now, later) = fill-take (info_size m - 6) m.header.len room ws (omega (arith, h)) in
    let count = length-words_in ((f.2 - 6) / 2) (blit 0 (bytes_of f.0) m.body) in
    let all = length-append (words_in ((f.2 - 6) / 2) (blit 0 (bytes_of f.0) m.body)) [] in
    rw one (
      omega (
        arith,
        all,
        count,
        h,
        ap length now,
        length-take room ws,
        fill-len (info_size m - 6) m.header.len ws,
      ))
