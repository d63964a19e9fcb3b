-- ===== src/Link/Split.antt =====
-- mergeSplitLRW of lib/master/src/Link.cc: which copy each byte of the payload comes from.
use kick_cat.Base.{
  ℕ, ◌+◌, ◌-◌, ◌%◌, ◌≤◌, ◌<◌, ◌≡◌, refl, ap, ◌∙◌, Bool, false, ◌||◌, ◌==◌, ltb, if◌then◌else◌, List,
  [], ◌∷◌, ◌++◌, Option, none, some, arith, bit_or, le→leb, lt→leb,
}
use kick_cat.Base.Lists.{take, drop, length, get_or, All, length-blit}
use kick_cat.Link.Merge.{Entry, LogicalFrameDescription, copy_input, copy_prefix, merge_split_lrw}
use kick_cat.Link.Copies.{within, get_or-copy_at, get_or-or_at}

abbrev pub input_covers : Option ℕ → ℕ → ℕ → Bool
input_covers none n i = false
input_covers (some off) n i = within off n i

abbrev pub EndsWithin : ℕ → Option ℕ → ℕ → Type 0
EndsWithin n none size = Unit
EndsWithin n (some off) size = off + size ≤ n

-- Whether the inputs of one of the slaves hold byte `i`.
abbrev pub covers : List Entry → ℕ → Bool
covers [] i = false
covers (e ∷ es) i = input_covers e.input_offset e.input_size i || covers es i

-- The inputs end within `n` bytes, and the slave is expected to answer.
abbrev pub Fits : ℕ → Entry → Type 0
Fits n e = (0 < e.contribution) × EndsWithin n e.input_offset e.input_size

abbrev pub contributions : List Entry → ℕ
contributions [] = 0
contributions (e ∷ es) = e.contribution + contributions es

get_or-input :
    (o : Option ℕ) (size n i : ℕ) (from to : List ℕ)
    → EndsWithin n o size
    → n ≤ length from
    → i < length to
    → let result = copy_input o size from to in
      (get_or result i 0 ≡ (if input_covers o size i then get_or from i 0 else get_or to i 0))
      × (length result ≡ length to)
get_or-input none size n i from to f b h = (refl, refl)
get_or-input (some off) size n i from to f b h = (
  get_or-copy_at off size i from to h (omega arith),
  length-blit off (take size (drop off from)) to,
)

stop-copy_prefix :
    (q : List Entry) (acc wkc : ℕ) (from to : List ℕ)
    → wkc ≤ acc
    → copy_prefix q acc wkc from to ≡ to
unfolding copy_prefix
stop-copy_prefix [] acc wkc from to h = refl
stop-copy_prefix (e ∷ q) acc wkc from to h = rw (le→leb wkc acc h) refl

input_covers-behind :
    (o : Option ℕ) (size n i : ℕ) → EndsWithin n o size → n ≤ i → input_covers o size i ≡ false
input_covers-behind none size n i f h = refl
input_covers-behind (some off) size n i f h = ground arith

-- No input covers a byte behind the process data.
covers-behind : (n i : ℕ) (p : List Entry) → All (Fits n) p → n ≤ i → covers p i ≡ false
covers-behind n i [] f h = refl
covers-behind n i (e ∷ p) ((pos, f), fs) h =
    rw (input_covers-behind e.input_offset e.input_size n i f h) (covers-behind n i p fs h)

-- The loop copies the inputs of the first slaves, up to the one that completes the counter.
get_or-copy_prefix :
    (p q : List Entry) (acc wkc n i : ℕ) (from to : List ℕ)
    → All (Fits n) p
    → acc + contributions p ≡ wkc
    → wkc < 65536
    → n ≤ length from
    → i < length to
    → let result = copy_prefix (p ++ q) acc wkc from to in
      (get_or result i 0 ≡ (if covers p i then get_or from i 0 else get_or to i 0))
      × (length result ≡ length to)
unfolding copy_prefix
get_or-copy_prefix [] q acc wkc n i from to f e w b h =
    let stop = stop-copy_prefix q acc wkc from to (omega arith) in
    (ap (λ xs. get_or xs i 0) stop, ap length stop)
get_or-copy_prefix (c ∷ p) q acc wkc n i from to (f, fs) e w b h =
    let to' = copy_input c.input_offset c.input_size from to in
    let one = get_or-input c.input_offset c.input_size n i from to f.1 b h in
    let more : (acc + c.contribution) % 65536 + contributions p ≡ wkc = omega arith in
    let rest =
      get_or-copy_prefix p q ((acc + c.contribution) % 65536) wkc n i from to' fs more w b
        (omega (arith, one.1)) in
    rw (lt→leb wkc acc (omega arith), copy_prefix) (ground (arith, rest, one))

-- On an open ring where every slave has answered, the working counter of the copy that went from
-- the start is that of the first slaves `p`. Then byte `i` of the merged payload of a mapped frame
-- comes from that copy when it is an input of one of these slaves, and from the other copy when it
-- is not; behind the process data, both copies are joined bit by bit.
pub merge_split-bytes :
    (desc : LogicalFrameDescription) (p q : List Entry) (nominal redundancy : List ℕ)
    (wkc_nominal i : ℕ)
    → desc.entries ≡ p ++ q
    → All (Fits desc.pdo_size) p
    → 0 < contributions p
    → contributions p < 65536
    → 0 < wkc_nominal
    → desc.pdo_size ≤ desc.logical_size
    → length nominal ≡ desc.logical_size
    → length redundancy ≡ desc.logical_size
    → i < desc.logical_size
    → get_or (merge_split_lrw desc nominal redundancy wkc_nominal (contributions p)) i 0 ≡ (
        if ltb i desc.pdo_size
        then (if covers p i then get_or redundancy i 0 else get_or nominal i 0)
        else bit_or (get_or nominal i 0) (get_or redundancy i 0))
unfolding merge_split_lrw
merge_split-bytes desc p q nominal redundancy wkc i e fits some_ small answered ordered ln lr h =
    let prefix =
      get_or-copy_prefix p q 0 (contributions p) desc.pdo_size i redundancy nominal fits
        (omega arith) small (omega arith) (omega arith) in
    let joined =
      get_or-or_at desc.pdo_size (desc.logical_size - desc.pdo_size) i redundancy
        (copy_prefix (p ++ q) 0 (contributions p) redundancy nominal) (omega (arith, prefix.1))
        (omega arith) (omega (arith, prefix.1)) in
    let off = covers-behind desc.pdo_size i p fits in
    let a : (contributions p == 0) ≡ false = ground arith in
    let b : (wkc == 0) ≡ false = ground arith in
    rw (a, b, e) (joined ∙ rw prefix.0 (ground (arith, off)))
