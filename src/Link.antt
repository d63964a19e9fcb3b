-- ===== src/Link.antt =====
-- kickcat::Link of lib/master/src/Link.cc: datagrams with callbacks over two sockets. The callbacks
-- act on a client of type `S`, and the sockets on a world of type `W`.
pub mod Merge
pub mod Process
pub mod Window
pub mod Loop
pub mod Answers
pub mod Budget
pub mod Events
pub mod Copies
pub mod Split
pub mod Sync
mod Tests
use kick_cat.Base.{
  ℕ, zero, suc, ◌+◌, ◌-◌, ◌%◌, Bool, true, false, not, ◌||◌, ◌==◌, ltb, if◌then◌else◌, List, [],
  ◌∷◌, Option, none, some,
}
use kick_cat.Base.Lists.{take}
use kick_cat.EtherCat.{datagram_size}
use kick_cat.Frame
use kick_cat.Frame.{
  Frame, Datagram, free_space, add_datagram, finalize, reset_context, set_source_mac,
}
use kick_cat.Frame.Socket.{Reading, Writing, refused, written}
use kick_cat.Link.Merge.{LogicalFrameDescription}

pub data DatagramState : Type 0 where
  lost : DatagramState
  send_error : DatagramState
  invalid_wkc : DatagramState
  no_handler : DatagramState
  ok : DatagramState

abbrev pub is_ok : DatagramState → Bool
is_ok ok = true
is_ok lost = false
is_ok send_error = false
is_ok invalid_wkc = false
is_ok no_handler = false

-- AbstractSocket, twice: what the socket answers, and the world after it.
pub record Sockets (W : Type 0) : Type 0 where
  pub write_nominal : List ℕ → W → Writing × W
  pub write_redundancy : List ℕ → W → Writing × W
  pub read_nominal : W → Reading × W
  pub read_redundancy : W → Reading × W

-- `process` shall not throw; `error` may, and says so.
pub record Callbacks (S : Type 0) : Type 0 where
  pub status : DatagramState
  pub process : Datagram → S → DatagramState × S
  pub error : DatagramState → S → Bool × S

pub record Irq (S : Type 0) : Type 0 where
  pub callback : S → S
  pub is_armed : Bool

pub record Link (S : Type 0) : Type 0 where
  pub index_queue : ℕ
  pub index_head : ℕ
  pub sent_frame : ℕ
  pub callbacks : ℕ → Callbacks S
  pub logical_mapping : List LogicalFrameDescription
  pub irqs : List (Irq S)
  pub nominal : Frame
  pub redundancy : Frame

-- `uint8_t` differences
abbrev pub sub8 : ℕ → ℕ → ℕ
sub8 a b = (a + 256 - b) % 256

module _ {S : Type 0} where
  -- How many datagrams wait for an answer.
  abbrev pub in_flight : Link S → ℕ
  in_flight l = sub8 l.index_head l.index_queue

  -- Outside the window from index_queue to index_head.
  unfoldable pub is_stale : Link S → ℕ → Bool
  is_stale l i = not (ltb (sub8 i l.index_queue) (in_flight l))

  abbrev pub set_at : ℕ → Callbacks S → (ℕ → Callbacks S) → ℕ → Callbacks S
  set_at i c cs j = if j == i then c else cs j

  abbrev pub set_status : ℕ → DatagramState → (ℕ → Callbacks S) → ℕ → Callbacks S
  set_status i status cs = set_at i (record (cs i) { status = status }) cs

  -- The datagrams of a frame that no socket has taken: the last `n` before index_head.
  unfoldable pub mark_unsent : ℕ → ℕ → (ℕ → Callbacks S) → ℕ → Callbacks S
  mark_unsent zero head cs = cs
  mark_unsent (suc n) head cs = set_status (sub8 head (suc n)) send_error (mark_unsent n head cs)

  unfoldable pub set_logical_mapping : List LogicalFrameDescription → Link S → Link S
  set_logical_mapping mapping l = record l { logical_mapping = mapping }

abbrev pub primary_mac : List ℕ
primary_mac = 0xCA ∷ 0xDE ∷ 0xCA ∷ 0xDE ∷ 0xDE ∷ 0xFF ∷ []

abbrev pub secondary_mac : List ℕ
secondary_mac = 0x03 ∷ 0x02 ∷ 0x02 ∷ 0x02 ∷ 0xFF ∷ 0xFF ∷ []

-- Whether a socket has taken all bytes.
abbrev pub is_sent : Writing → ℕ → Bool
is_sent (refused e) n = false
is_sent (written k) n = k == n

module _ {S W : Type 0} (net : Sockets W) where
  unfoldable pub send_frame : Link S → W → Link S × W
  send_frame l w =
      let (n, f) = finalize l.nominal in
      let f1 = set_source_mac primary_mac f in
      let (a, w1) = net.write_nominal (take n f1.memory) w in
      let f2 = set_source_mac secondary_mac f1 in
      let (b, w2) = net.write_redundancy (take n f2.memory) w1 in
      let went = is_sent a n || is_sent b n in
      (
        record l {
          nominal = Frame.clear f2;
          redundancy = reset_context (Frame.clear l.redundancy);
          sent_frame = if went then (l.sent_frame + 1) % 256 else l.sent_frame;
          callbacks =
              if went then l.callbacks else mark_unsent l.nominal.counter l.index_head l.callbacks;
        },
        w2,
      )

  unfoldable pub finalize_datagrams : Link S → W → Link S × W
  finalize_datagrams l w = if l.nominal.counter == 0 then (l, w) else send_frame l w

  -- A frame without the room for a datagram of `n` bytes is sent.
  unfoldable pub make_room : ℕ → Link S → W → Link S × W
  make_room n l w = if ltb (free_space l.nominal) (datagram_size n) then send_frame l w else (l, w)

  -- The datagram goes in the frame and its callbacks at its index.
  unfoldable pub enqueue :
      ℕ
      → ℕ
      → Option (List ℕ)
      → ℕ
      → (Datagram → S → DatagramState × S)
      → (DatagramState → S → Bool × S)
      → Link S
      → Link S
  enqueue command address source n process error l = record l {
    nominal = add_datagram l.index_head command address source n l.nominal;
    callbacks =
        set_at l.index_head (record { status = lost; process = process; error = error })
          l.callbacks;
    index_head = (l.index_head + 1) % 256;
  }

  -- `none` is the exception for too many datagrams in flight.
  unfoldable pub add :
      ℕ
      → ℕ
      → Option (List ℕ)
      → ℕ
      → (Datagram → S → DatagramState × S)
      → (DatagramState → S → Bool × S)
      → Link S
      → W
      → Option (Link S × W)
  unfolding enqueue
  add command address source n process error l w =
      if l.index_queue == (l.index_head + 1) % 256
      then none
      else let (l1, w1) = make_room n l w in
        let l2 = enqueue command address source n process error l1 in
        some (if Frame.is_full l2.nominal then send_frame l2 w1 else (l2, w1))
