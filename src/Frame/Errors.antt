-- ===== src/Frame/Errors.antt =====
-- What readFrame accepts.
use kick_cat.Base.{ℕ, ◌≡◌, ◌<◌, true, false, List, arith, refl}
use kick_cat.Base.Lists.{length, blit}
use kick_cat.EtherCat.{eth_ethercat_type}
use kick_cat.Frame.{Frame, ethernet_type, header_len, clear, set_len}
use kick_cat.Frame.Socket.{Reading, failed, received, done, read_frame, check_read, padded}

is_available-clear : (f : Frame) → (clear f).is_available ≡ f.is_available
unfolding clear set_len
is_available-clear f = refl

check_accepts :
    (n : ℕ) (f : Frame)
    → f.is_available ≡ false
    → (check_read n f).1.is_available ≡ true
    → ((check_read n f).0 ≡ done n)
      × (0 < n)
      × (ethernet_type f ≡ eth_ethercat_type)
      × (n ≡ padded (header_len f))
unfolding check_read
check_accepts n f off on = ground (arith, is_available-clear f)

-- When readFrame makes datagrams available in a frame that had none, the socket has put bytes in
-- the frame, which has the EtherCAT type and the size that its header announces, padded to 60
-- bytes, and the value is the number of the bytes. So after an error, and after a read of nothing,
-- no datagram is available.
pub read_accepts :
    (r : Reading) (f : Frame)
    → f.is_available ≡ false
    → (read_frame r f).1.is_available ≡ true
    → (bytes : List ℕ) × (r ≡ received bytes)
      × ((read_frame r f).0 ≡ done (length bytes))
      × (0 < length bytes)
      × (ethernet_type (record f { memory = blit 0 bytes f.memory }) ≡ eth_ethercat_type)
      × (length bytes ≡ padded (header_len (record f { memory = blit 0 bytes f.memory })))
unfolding read_frame
read_accepts (failed e) f off on = ground arith
read_accepts (received bytes) f off on =
    let (a, b, c, d) =
      check_accepts (length bytes) (record f { memory = blit 0 bytes f.memory }) off on in
    (bytes, refl, a, b, c, d)
