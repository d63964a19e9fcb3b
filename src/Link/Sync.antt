-- ===== src/Link/Sync.antt =====
-- Link::writeThenRead and checkRedundancyNeeded of lib/master/src/Link.cc: one frame, at once.
use kick_cat.Base.{
  ℕ, ◌≡◌, Bool, true, false, not, ◌&&◌, ◌==◌, ltb, if◌then◌else◌, List, [], ◌∷◌, Option, none, some,
  arith,
}
use kick_cat.Base.Lists.{take, blit}
use kick_cat.EtherCat.{eth_ethercat_type}
use kick_cat.EtherCat.Command
use kick_cat.Frame
use kick_cat.Frame.{
  Frame, ethernet_type, header_len, add_datagram, finalize, set_source_mac, next_datagram, fresh,
}
use kick_cat.Frame.Socket.{
  Reading, failed, received, Writing, refused, written, error, done, padded, read_frame,
}
use kick_cat.Link.{Sockets, primary_mac, secondary_mac}

-- What writeThenRead throws.
pub data Thrown : Type 0 where
  cannot_write : Thrown
  nothing_read : Thrown
  invalid_type : Thrown
  wrong_size : Thrown

-- A read of no byte and an error are the same here; what is read lands in the frame.
abbrev pub got : Reading → Bool
got (failed e) = false
got (received []) = false
got (received (b ∷ bytes)) = true

abbrev pub land : Reading → Frame → Frame
land (failed e) f = f
land (received bytes) f = record f { memory = blit 0 bytes f.memory }

-- Fewer bytes than asked for, an error included.
abbrev pub is_short : Writing → ℕ → Bool
is_short (refused e) n = true
is_short (written k) n = ltb k n

-- Write on one socket, and read on the other, or else on the same: whether nothing was read.
unfoldable pub write_read :
    {W : Type 0}
    → (List ℕ → W → Writing × W)
    → (W → Reading × W)
    → (W → Reading × W)
    → List ℕ
    → ℕ
    → Frame
    → W
    → Option (Bool × Frame × W)
write_read write read_to read_from mac n f w =
    let f1 = set_source_mac mac f in
    let (a, w1) = write (take n f1.memory) w in
    let (b, w2) = read_to w1 in
    let (c, w3) = read_from w2 in
    if is_short a n
    then none
    else if got b
    then some (false, land b f1, w2)
    else some (not (got c), land c (land b f1), w3)

pub data Answer (W : Type 0) : Type 0 where
  threw : Thrown → Answer W
  answer : Frame → W → Answer W

-- The checks of the frame that has come back.
unfoldable pub check_answer : {W : Type 0} → ℕ → Frame → W → Answer W
check_answer n f w =
    if not (ethernet_type f == eth_ethercat_type)
    then threw invalid_type
    else if not (padded (header_len f) == n)
    then threw wrong_size
    else answer (record f { is_available = true }) w

-- Both passes have been made: the answer counts when one of them has read something.
unfoldable pub after_second : {W : Type 0} → ℕ → Bool → Option (Bool × Frame × W) → Answer W
unfolding check_answer
after_second n faulty none = threw cannot_write
after_second n faulty (some (faulty', f, w)) =
    if faulty && faulty' then threw nothing_read else check_answer n f w

module _ {W : Type 0} (net : Sockets W) where
  unfoldable pub after_first : ℕ → Option (Bool × Frame × W) → Answer W
  unfolding after_second write_read
  after_first n none = threw cannot_write
  after_first n (some (faulty, f, w)) =
      after_second n faulty
        (write_read net.write_redundancy net.read_nominal net.read_redundancy secondary_mac n f w)

  unfoldable pub write_then_read : Frame → W → Answer W
  unfolding after_first write_read
  write_then_read f w =
      let (n, g) = finalize f in
      after_first n
        (write_read net.write_nominal net.read_redundancy net.read_nominal primary_mac n g w)

  -- A broadcast read on the redundancy socket: whether slaves answer there, which activates it.
  unfoldable pub check_redundancy : W → Bool × W
  check_redundancy w =
      let f = add_datagram 0 Command.brd 0 none 1 fresh in
      let (n, g) = finalize (set_source_mac secondary_mac f) in
      let (_, w1) = net.write_redundancy (take n g.memory) w in
      let f1 = Frame.clear g in
      let (a, w2) = net.read_nominal w1 in
      let (b, w3) = net.read_redundancy w2 in
      let (status, f2) = read_frame a f1 in
      let (status', f3) = read_frame b f2 in
      elim status [
        | done k ↦ (not ((next_datagram f2).0.wkc == 0), w2)
        | error e ↦ elim status' [
          | done k ↦ (not ((next_datagram f3).0.wkc == 0), w3)
          | error e' ↦ (false, w3)
        ]
      ]

abbrev IsChecked : ℕ → Frame → Type 0
IsChecked n g =
    (ethernet_type g ≡ eth_ethercat_type) × (padded (header_len g) ≡ n) × (g.is_available ≡ true)

module _ {W : Type 0} where
  check_answer-IsChecked :
      (n : ℕ) (f g : Frame) (w w' : W) → check_answer n f w ≡ answer g w' → IsChecked n g
  unfolding check_answer ethernet_type header_len
  check_answer-IsChecked n f g w w' h = ground arith

  after_second-IsChecked :
      (n : ℕ) (faulty : Bool) (o : Option (Bool × Frame × W)) (g : Frame) (w' : W)
      → after_second n faulty o ≡ answer g w'
      → IsChecked n g
  unfolding after_second
  after_second-IsChecked n faulty none g w' h = cc
  after_second-IsChecked n faulty (some (faulty', f, w)) g w' h =
      ground (arith, check_answer-IsChecked n f g w w')

  after_first-IsChecked :
      (net : Sockets W) (n : ℕ) (o : Option (Bool × Frame × W)) (g : Frame) (w' : W)
      → after_first net n o ≡ answer g w'
      → IsChecked n g
  unfolding after_first
  after_first-IsChecked net n none g w' h = cc
  after_first-IsChecked net n (some (faulty, f, w)) g w' h =
      after_second-IsChecked n faulty _ g w' h

  -- A frame that writeThenRead returns, and does not throw, has the EtherCAT type and the padded
  -- size of the frame that was sent, and its datagrams can be taken out, whatever the sockets do.
  pub write_then_read-checked :
      (net : Sockets W) (f g : Frame) (w w' : W)
      → write_then_read net f w ≡ answer g w'
      → (ethernet_type g ≡ eth_ethercat_type)
        × (padded (header_len g) ≡ (finalize f).0)
        × (g.is_available ≡ true)
  unfolding write_then_read
  write_then_read-checked net f g w w' h = after_first-IsChecked net (finalize f).0 _ g w' h
