-- ===== src/Link/Merge.antt =====
-- The merge of the two copies of a datagram that come back when the ring is open: mergeSplitLRW and
-- Link::nextDatagram of lib/master/src/Link.cc.
use kick_cat.Base.{
  ℕ, ◌+◌, ◌-◌, ◌%◌, Bool, true, false, not, ◌||◌, ◌&&◌, ◌==◌, ltb, leb, if◌then◌else◌, List, [],
  ◌∷◌, Option, none, some, bit_or,
}
use kick_cat.Base.Lists.{take, drop, blit}
use kick_cat.EtherCat.Command
use kick_cat.Frame.{Frame, Datagram, next_datagram, first}

-- LogicalFrameDescription::Entry; no offset stands for -1.
pub record Entry : Type 0 where
  pub contribution : ℕ
  pub input_offset : Option ℕ
  pub input_size : ℕ

pub record LogicalFrameDescription : Type 0 where
  pub address : ℕ
  pub logical_size : ℕ
  pub pdo_size : ℕ
  pub entries : List Entry

-- memcpy (to + off, from + off, n)
abbrev pub copy_at : ℕ → ℕ → List ℕ → List ℕ → List ℕ
copy_at off n from to = blit off (take n (drop off from)) to

-- The inputs of a slave, at the offset that it has.
abbrev pub copy_input : Option ℕ → ℕ → List ℕ → List ℕ → List ℕ
copy_input none n from to = to
copy_input (some off) n from to = copy_at off n from to

-- The loop over the slaves, `acc` being the working counter of those before: a `uint16_t`.
unfoldable pub copy_prefix : List Entry → ℕ → ℕ → List ℕ → List ℕ → List ℕ
copy_prefix [] acc wkc from to = to
copy_prefix (e ∷ es) acc wkc from to =
    let rest =
      copy_prefix es ((acc + e.contribution) % 65536) wkc from
        (copy_input e.input_offset e.input_size from to) in
    if leb wkc acc then to else rest

-- The bytes of one list and of another, bit by bit, as far as both go.
unfoldable pub or_bytes : List ℕ → List ℕ → List ℕ
or_bytes [] ys = []
or_bytes (x ∷ xs) [] = x ∷ xs
or_bytes (x ∷ xs) (y ∷ ys) = bit_or x y ∷ or_bytes xs ys

-- The bytes from `off` on, up to `off + n`.
abbrev pub or_at : ℕ → ℕ → List ℕ → List ℕ → List ℕ
or_at off n from to = blit off (or_bytes (take n (drop off to)) (take n (drop off from))) to

unfoldable pub merge_split_lrw : LogicalFrameDescription → List ℕ → List ℕ → ℕ → ℕ → List ℕ
merge_split_lrw desc nominal redundancy wkc_nominal wkc_redundancy =
    if wkc_redundancy == 0
    then nominal
    else if wkc_nominal == 0
    then blit 0 (take desc.logical_size redundancy) nominal
    else or_at desc.pdo_size (desc.logical_size - desc.pdo_size) redundancy
        (copy_prefix desc.entries 0 wkc_redundancy redundancy nominal)

-- The mapped frame with this address.
unfoldable pub find_mapping : ℕ → List LogicalFrameDescription → Option LogicalFrameDescription
find_mapping address [] = none
find_mapping address (d ∷ ds) =
    let rest = find_mapping address ds in if d.address == address then some d else rest

-- Reads, whose payload was zero when it was sent; and BRW, which gets back the request.
abbrev pub is_or_merged : ℕ → Bool
is_or_merged c =
    c == Command.nop
    || c == Command.brd
    || c == Command.aprd
    || c == Command.fprd
    || c == Command.lrd
    || c == Command.brw

-- The rule for one segment: the copy that has gone through a slave.
abbrev pub pick_copy : ℕ → ℕ → List ℕ → List ℕ → List ℕ
pick_copy wkc_nominal wkc_redundancy nominal redundancy =
    if wkc_nominal == 0 && not (wkc_redundancy == 0) then blit 0 redundancy nominal else nominal

-- `other` is what stands in the other frame, as many bytes as the datagram of the nominal one has.
unfoldable pub merge_bytes : List LogicalFrameDescription → Datagram → List ℕ → ℕ → List ℕ
merge_bytes mapping d other wkc =
    let c = d.header.command in
    if is_or_merged c
    then or_bytes d.bytes other
    else if c == Command.lrw
    then elim (find_mapping d.header.address mapping) [
      | none ↦ pick_copy d.wkc wkc d.bytes other
      | some desc ↦
          if d.header.len == desc.logical_size
          then merge_split_lrw desc d.bytes other d.wkc wkc
          else pick_copy d.wkc wkc d.bytes other
    ]
    else if c == Command.aprw || c == Command.fprw
    then pick_copy d.wkc wkc d.bytes other
    else d.bytes

unfoldable pub merge : List LogicalFrameDescription → Datagram → Datagram → List ℕ → Datagram
unfolding merge_bytes
merge mapping d e other = record {
  header = record d.header { irq = bit_or d.header.irq e.header.irq };
  bytes = merge_bytes mapping d other e.wkc;
  wkc = (d.wkc + e.wkc) % 65536;
}

-- What nextDatagram gives: the datagram, whether one of a pair was dropped, and the two frames.
pub record Taken : Type 0 where
  pub datagram : Datagram
  pub is_dropped : Bool
  pub nominal : Frame
  pub redundancy : Frame

-- Both frames have a datagram. `ahead` is how far an index is from the start of the window, and
-- `stale` whether it is outside.
unfoldable pub choose :
    List LogicalFrameDescription
    → (ℕ → ℕ)
    → (ℕ → Bool)
    → Datagram
    → Datagram
    → List ℕ
    → Datagram × Bool
choose mapping ahead stale d e other =
    if not (d.header.index == e.header.index)
    then (if ltb (ahead e.header.index) (ahead d.header.index) then e else d, true)
    else if stale d.header.index
    then (d, false)
    else (merge mapping d e other, false)

unfoldable pub next_of : List LogicalFrameDescription → (ℕ → ℕ) → (ℕ → Bool) → Frame → Frame → Taken
unfolding choose
next_of mapping ahead stale nom red =
    if not nom.is_available && red.is_available
    then (let (d, r) = next_datagram red in
        record { datagram = d; is_dropped = false; nominal = nom; redundancy = r })
    else if nom.is_available && not red.is_available
    then (let (d, n) = next_datagram nom in
        record { datagram = d; is_dropped = false; nominal = n; redundancy = red })
    else let (d, n) = next_datagram nom in
      let (e, r) = next_datagram red in
      let other = take d.header.len (drop (first + red.next + 10) red.memory) in
      let (t, dropped) = choose mapping ahead stale d e other in
      record { datagram = t; is_dropped = dropped; nominal = n; redundancy = r }
