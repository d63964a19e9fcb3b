-- ===== src/Frame.antt =====
-- lib/src/Frame.cc: the datagrams of an Ethernet frame, in the bytes of the frame. A pointer to a
-- datagram is an offset from the first one.
pub mod Socket
pub mod Layout
pub mod Building
pub mod Closing
pub mod Copy
pub mod RoundTrip
pub mod Errors
mod Tests
use kick_cat.Base.{
  ℕ, ◌+◌, ◌-◌, ◌*◌, ◌/◌, ◌%◌, ◌<◌, Bool, true, false, ◌||◌, ltb, leb, ◌==◌, if◌then◌else◌, List, [],
  ◌∷◌, ◌++◌, Option, none, some,
}
use kick_cat.Base.Lists.{take, drop, replicate, blit, length}
use kick_cat.Base.Bytes.{put16, get16}
use kick_cat.EtherCat.{
  DatagramHeader, header_bytes, header_of, ethernet_header_size, ethercat_header_size,
  datagram_header_size, eth_mtu_size, eth_max_size, eth_min_size, eth_ethercat_type,
  max_ethercat_datagrams, datagram_size,
}
use kick_cat.EtherCat.Command

pub record Frame : Type 0 where
  pub memory : List ℕ
  pub next : ℕ
  pub last : ℕ
  pub counter : ℕ
  pub is_available : Bool
  pub is_exhausted : Bool

-- Where the first datagram stands.
abbrev pub first : ℕ
first = 16

-- ethernet ()->type
unfoldable pub ethernet_type : Frame → ℕ
ethernet_type f = get16 (drop 12 f.memory)

-- header ()->len, eleven bits of the two bytes
unfoldable pub header_len : Frame → ℕ
header_len f = get16 (drop 14 f.memory) % 2048

unfoldable pub set_len : ℕ → Frame → Frame
set_len n f =
    let word = get16 (drop 14 f.memory) in
    record f { memory = blit 14 (put16 (n % 2048 + 2048 * (word / 2048))) f.memory }

unfoldable pub reset_context : Frame → Frame
reset_context f = record f {
  next = 0;
  last = 0;
  counter = 0;
  is_available = false;
  is_exhausted = false;
}

abbrev pub blank : List ℕ → Frame
blank m = record {
  memory = m;
  next = 0;
  last = 0;
  counter = 0;
  is_available = false;
  is_exhausted = false;
}

-- Frame (): a broadcast destination, the EtherCAT type, and no datagram.
unfoldable pub fresh : Frame
fresh =
    blank (
      replicate 6 255 ++ replicate 6 0 ++ put16 eth_ethercat_type ++ put16 4096 ++ replicate 1502 0)

-- Frame (data, data_size)
unfoldable pub of_data : List ℕ → Frame → Frame
of_data bytes f = record (reset_context (record f { memory = blit 0 bytes f.memory })) {
  is_available = true;
}

-- An `int32_t`: a frame whose datagrams reach past the end has no space.
unfoldable pub free_space : Frame → ℕ
free_space f = eth_mtu_size - ethercat_header_size - f.next

unfoldable pub is_full : Frame → Bool
is_full f = leb max_ethercat_datagrams f.counter || ltb (free_space f) (datagram_size 0)

-- What is put behind the header: zeros for a command that only reads.
unfoldable pub payload : ℕ → Option (List ℕ) → ℕ → List ℕ
payload command source n =
    let zeros = replicate n 0 in
    if command == Command.nop
      || command == Command.brd
      || command == Command.aprd
      || command == Command.fprd
      || command == Command.lrd
    then zeros
    else elim source [ none ↦ zeros | some bytes ↦ take n bytes ]

-- The reserved bits of a header are left as they are in the memory.
unfoldable pub reserved_at : List ℕ → ℕ
reserved_at m = get16 (drop 6 m) / 2048 % 8

unfoldable pub new_header : ℕ → ℕ → ℕ → ℕ → DatagramHeader
new_header index command address n = record {
  command = command;
  index = index;
  address = address;
  len = n % 2048;
  circulating = false;
  multiple = true;
  irq = 0;
}

unfoldable pub add_datagram : ℕ → ℕ → ℕ → Option (List ℕ) → ℕ → Frame → Frame
unfolding set_len payload reserved_at new_header
add_datagram index command address source n f =
    let pos = first + f.next in
    let bytes =
      header_bytes (new_header index command address n) (reserved_at (drop pos f.memory))
      ++ (payload command source n ++ put16 0) in
    let g = record f { memory = blit pos bytes f.memory } in
    record (set_len (header_len g + (datagram_header_size + n + 2) % 2048) g) {
      last = f.next;
      next = f.next + datagram_header_size + n + 2;
      counter = f.counter + 1;
    }

unfoldable pub clear : Frame → Frame
clear f = set_len 0 f

-- multiple = 0 in the last header
unfoldable pub close_last : Frame → List ℕ
close_last f =
    let pos = first + f.last + 6 in blit pos (put16 (get16 (drop pos f.memory) % 32768)) f.memory

-- The number of bytes to write, with the padding up to the smallest frame.
unfoldable pub finalize : Frame → ℕ × Frame
unfolding close_last
finalize f =
    let g = reset_context (record f { memory = close_last f }) in
    let to_write = header_len g + ethernet_header_size + ethercat_header_size in
    if ltb to_write eth_min_size
    then (
      eth_min_size,
      record g { memory = blit (first + f.next) (replicate (eth_min_size - to_write) 0) g.memory },
    )
    else (to_write, g)

-- A datagram as it is taken out: its header, its bytes and its working counter.
pub record Datagram : Type 0 where
  pub header : DatagramHeader
  pub bytes : List ℕ
  pub wkc : ℕ

unfoldable pub datagram_at : List ℕ → Datagram
datagram_at m =
    let h = header_of m in
    record {
      header = h;
      bytes = take h.len (drop datagram_header_size m);
      wkc = get16 (drop (datagram_header_size + h.len) m);
    }

unfoldable pub next_datagram : Frame → Datagram × Frame
next_datagram f =
    let d = datagram_at (drop (first + f.next) f.memory) in
    let g = record f { next = f.next + datagram_header_size + d.header.len + 2 } in
    (d, if d.header.multiple then g else reset_context g)

-- For the simulation: the pointer is null behind the last datagram.
unfoldable pub peek_datagram : Frame → Option Datagram × Frame
peek_datagram f =
    let d = datagram_at (drop (first + f.next) f.memory) in
    let next = f.next + datagram_header_size + d.header.len + 2 in
    if f.is_exhausted then (none, f) else (
      some d,
      if d.header.multiple then record f { next = next } else record f { is_exhausted = true },
    )

unfoldable pub set_source_mac : List ℕ → Frame → Frame
set_source_mac mac f = record f { memory = blit 6 (take 6 mac) f.memory }
