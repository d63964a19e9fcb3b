-- ===== src/Frame/Socket.antt =====
-- readFrame and writeFrame of lib/src/Frame.cc. What a socket returns is an argument.
use kick_cat.Base.{ℕ, ◌+◌, true, not, ltb, ◌==◌, if◌then◌else◌, List}
use kick_cat.Base.Lists.{take, blit, length}
use kick_cat.EtherCat.{ethernet_header_size, ethercat_header_size, eth_min_size, eth_ethercat_type}
use kick_cat.Frame.{Frame, ethernet_type, header_len, clear, finalize, set_source_mac}

-- AbstractSocket::read: an error number, or the bytes that it has put in the frame.
pub data Reading : Type 0 where
  failed : ℕ → Reading
  received : List ℕ → Reading

-- AbstractSocket::write: an error number, or how many bytes it has taken.
pub data Writing : Type 0 where
  refused : ℕ → Writing
  written : ℕ → Writing

-- The value of readFrame and writeFrame: a negated error number, or a number of bytes.
pub data Status : Type 0 where
  error : ℕ → Status
  done : ℕ → Status

abbrev pub enomsg : ℕ
enomsg = 42

abbrev pub eio : ℕ
eio = 5

-- The size of a frame with its padding.
abbrev pub padded : ℕ → ℕ
padded n =
    let size = n + ethernet_header_size + ethercat_header_size in
    if ltb size eth_min_size then eth_min_size else size

unfoldable pub check_read : ℕ → Frame → Status × Frame
check_read n f =
    if n == 0
    then (done 0, f)
    else if not (ethernet_type f == eth_ethercat_type)
    then (error enomsg, f)
    else if not (n == padded (header_len f))
    then (error eio, clear f)
    else (done n, record (clear f) { is_available = true })

unfoldable pub read_frame : Reading → Frame → Status × Frame
unfolding check_read
read_frame (failed e) f = (error e, f)
read_frame (received bytes) f =
    check_read (length bytes) (record f { memory = blit 0 bytes f.memory })

-- The bytes that writeFrame hands to the socket.
abbrev pub sent : List ℕ → Frame → List ℕ
sent mac f = let (n, g) = finalize (set_source_mac mac f) in take n g.memory

unfoldable pub write_frame : (List ℕ → Writing) → List ℕ → Frame → Status × Frame
write_frame write mac f =
    let (n, g) = finalize (set_source_mac mac f) in
    elim (write (take n g.memory)) [
      | refused e ↦ (error e, clear g)
      | written k ↦ (if k == n then done k else error eio, clear g)
    ]
