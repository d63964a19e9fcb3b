-- ===== src/CoE/Information.antt =====
-- The SDO information service: the messages of ETG1000.6 chapter 5.6.3
-- (lib/include/kickcat/CoE/protocol.h), with the master's and the slave's side as children.
pub mod Client
pub mod Server
pub mod Listing
pub mod Describe
mod Tests
use kick_cat.Base.{ℕ, ◌+◌, Bool, List}
use kick_cat.Base.Lists.{length}
use kick_cat.CoE.Message.{Header, CoeHeader}

-- `body` is what follows the header of the service: the bytes from offset 12.
pub record InfoMessage : Type 0 where
  pub header : Header
  pub coe_header : CoeHeader
  pub opcode : ℕ
  pub incomplete : Bool
  pub fragments_left : ℕ
  pub body : List ℕ

abbrev pub info_size : InfoMessage → ℕ
info_size m = 12 + length m.body

-- CoE::SDO::information
abbrev pub get_od_list_req : ℕ
get_od_list_req = 0x01

abbrev pub get_od_list_resp : ℕ
get_od_list_resp = 0x02

abbrev pub get_od_req : ℕ
get_od_req = 0x03

abbrev pub get_od_resp : ℕ
get_od_resp = 0x04

abbrev pub get_ed_req : ℕ
get_ed_req = 0x05

abbrev pub get_ed_resp : ℕ
get_ed_resp = 0x06

abbrev pub sdo_info_error_req : ℕ
sdo_info_error_req = 0x07
