-- ===== src/EtherCat.antt =====
-- The EtherCAT part of lib/include/kickcat/protocol.h: sizes, commands and the header of a datagram.
pub mod Command
use kick_cat.Base.{ℕ, ◌+◌, ◌*◌, ◌/◌, ◌%◌, Bool, true, if◌then◌else◌, List, [], ◌∷◌, ◌++◌, ltb, ◌==◌}
use kick_cat.Base.Lists.{get_or}
use kick_cat.Base.Bytes.{put16, get16, put32, get32, word16}

-- sizeof of the three headers and of the working counter
abbrev pub ethernet_header_size : ℕ
ethernet_header_size = 14

abbrev pub ethercat_header_size : ℕ
ethercat_header_size = 2

abbrev pub datagram_header_size : ℕ
datagram_header_size = 10

abbrev pub eth_mtu_size : ℕ
eth_mtu_size = 1500

abbrev pub eth_max_size : ℕ
eth_max_size = 1518

abbrev pub eth_min_size : ℕ
eth_min_size = 60

-- hton (0x88A4), as the two bytes in the frame give it on a little-endian machine
abbrev pub eth_ethercat_type : ℕ
eth_ethercat_type = 0xA488

abbrev pub max_ethercat_datagrams : ℕ
max_ethercat_datagrams = 15

-- The header of a datagram without its reserved bits.
pub record DatagramHeader : Type 0 where
  pub command : ℕ
  pub index : ℕ
  pub address : ℕ
  pub len : ℕ
  pub circulating : Bool
  pub multiple : Bool
  pub irq : ℕ

-- The bytes of the header. The word behind the address holds the length in eleven bits, three
-- reserved bits, and the bits `circulating` and `multiple`.
unfoldable pub header_bytes : DatagramHeader → ℕ → List ℕ
header_bytes h reserved =
    h.command ∷ h.index ∷ put32 h.address
    ++ put16 (
        h.len
        + 2048 * reserved
        + (if h.circulating then 16384 else 0)
        + (if h.multiple then 32768 else 0))
    ++ put16 h.irq

-- The header that the bytes hold.
unfoldable pub header_of : List ℕ → DatagramHeader
header_of xs =
    let flags = get_or xs 6 0 + 256 * get_or xs 7 0 in
    record {
      command = get_or xs 0 0;
      index = get_or xs 1 0;
      address =
          get_or xs 2 0 + 256 * get_or xs 3 0 + 65536 * get_or xs 4 0 + 16777216 * get_or xs 5 0;
      len = flags % 2048;
      circulating = flags / 16384 % 2 == 1;
      multiple = flags / 32768 % 2 == 1;
      irq = get_or xs 8 0 + 256 * get_or xs 9 0;
    }

-- datagram_size (), a `uint16_t`
abbrev pub datagram_size : ℕ → ℕ
datagram_size n = (datagram_header_size + n + 2) % word16
