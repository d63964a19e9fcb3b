-- ===== src/CoE/Message.antt =====
-- A mailbox message with an SDO service (lib/include/kickcat/protocol.h,
-- lib/include/kickcat/CoE/protocol.h). Index and subindex share their bytes with the data of a
-- segment, so `body` is all that follows the flags of the SDO: the bytes from offset 9.
use kick_cat.Base.{ℕ, ◌+◌, Bool, List, bit_and, not, ◌==◌}
use kick_cat.Base.Bytes.{get16}
use kick_cat.Base.Lists.{get_or, length, drop}

pub record Header : Type 0 where
  pub len : ℕ
  pub address : ℕ
  pub channel : ℕ
  pub priority : ℕ
  pub mtype : ℕ
  pub count : ℕ

pub record CoeHeader : Type 0 where
  pub number : ℕ
  pub service : ℕ

-- The flags of `CoE::ServiceData`.
pub record ServiceData : Type 0 where
  pub size_indicator : Bool
  pub transfer_type : ℕ
  pub block_size : ℕ
  pub complete_access : Bool
  pub command : ℕ

pub record Message : Type 0 where
  pub header : Header
  pub coe_header : CoeHeader
  pub sdo : ServiceData
  pub body : List ℕ

-- `data_.size ()`
abbrev pub data_size : Message → ℕ
data_size m = 9 + length m.body

abbrev pub index_of : Message → ℕ
index_of m = get16 m.body

abbrev pub subindex_of : Message → ℕ
subindex_of m = get_or m.body 2 0

-- What follows `CoE::ServiceData`.
abbrev pub payload : Message → List ℕ
payload m = drop 3 m.body

pub data ProcessingResult : Type 0 where
  noop continue finalize finalize_and_keep : ProcessingResult

abbrev pub type_coe : ℕ
type_coe = 0x03

abbrev pub gateway_message_mask : ℕ
gateway_message_mask = 0x8000

abbrev pub is_gateway : Header → Bool
is_gateway h = not (bit_and h.address gateway_message_mask == 0)

-- CoE services.
abbrev pub sdo_request : ℕ
sdo_request = 0x02

abbrev pub sdo_response : ℕ
sdo_response = 0x03

abbrev pub sdo_information : ℕ
sdo_information = 0x08

-- CoE::SDO::request
abbrev pub download_segmented : ℕ
download_segmented = 0x00

abbrev pub download : ℕ
download = 0x01

abbrev pub upload : ℕ
upload = 0x02

abbrev pub upload_segmented : ℕ
upload_segmented = 0x03

abbrev pub abort : ℕ
abort = 0x04

-- CoE::SDO::response
abbrev pub upload_segmented_response : ℕ
upload_segmented_response = 0x00

abbrev pub download_segmented_response : ℕ
download_segmented_response = 0x01

abbrev pub upload_response : ℕ
upload_response = 0x02

abbrev pub download_response : ℕ
download_response = 0x03

-- MessageStatus
abbrev pub success : ℕ
success = 0x000

abbrev pub running : ℕ
running = 0x001

abbrev pub timedout : ℕ
timedout = 0x002

abbrev pub wrong_service : ℕ
wrong_service = 0x101

abbrev pub unknown_service : ℕ
unknown_service = 0x102

abbrev pub client_buffer_too_small : ℕ
client_buffer_too_small = 0x103

abbrev pub segment_bad_toggle_bit : ℕ
segment_bad_toggle_bit = 0x104
