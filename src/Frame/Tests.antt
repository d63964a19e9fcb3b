-- ===== src/Frame/Tests.antt =====
-- Two datagrams through a frame, and the witnesses of the theorems.
use kick_cat.Base.{ℕ, ◌≡◌, ◌<◌, refl, true, List, [], ◌∷◌, none, some, ◌++◌}
use kick_cat.Base.Lists.{length, replicate, blit}
use kick_cat.EtherCat.{eth_ethercat_type}
use kick_cat.EtherCat.Command
use kick_cat.Frame.{fresh, header_len, ethernet_type}
use kick_cat.Frame.Socket.{done, received, read_frame, padded}
use kick_cat.Frame.Layout.{Request}
use kick_cat.Frame.Errors.{read_accepts}

abbrev status_read : Request
status_read = record {
  index = 7;
  command = Command.fprd;
  address = 0x1300001;
  source = none;
  size = 2;
}

abbrev control_write : Request
control_write = record {
  index = 8;
  command = Command.fpwr;
  address = 0x1200001;
  source = some (8 ∷ 1 ∷ []);
  size = 2;
}

abbrev mac : List ℕ
mac = 2 ∷ 0 ∷ 0 ∷ 0 ∷ 0 ∷ 1 ∷ []

-- A frame of the smallest size, with the EtherCAT type and a length of 14.
abbrev small_frame : List ℕ
small_frame = replicate 12 255 ++ (0x88 ∷ 0xA4 ∷ 14 ∷ 16 ∷ replicate 44 0)

small_frame_available : (read_frame (received small_frame) fresh).1.is_available ≡ true
unfolding read_frame fresh ethernet_type header_len
small_frame_available = refl

read_accepts_example :
    (bytes : List ℕ) × (received small_frame ≡ received bytes)
    × ((read_frame (received small_frame) fresh).0 ≡ done (length bytes))
    × (0 < length bytes)
    × (ethernet_type (record fresh { memory = blit 0 bytes fresh.memory }) ≡ eth_ethercat_type)
    × (length bytes ≡ padded (header_len (record fresh { memory = blit 0 bytes fresh.memory })))
read_accepts_example =
    read_accepts (received small_frame) fresh (unfold fresh in refl) small_frame_available
