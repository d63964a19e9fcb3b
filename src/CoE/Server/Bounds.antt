-- ===== src/CoE/Server/Bounds.antt =====
-- The bounds of a segmented transfer at the SDO server: SDOMessage::downloadSegment of lib/src/CoE/mailbox/response.cc.
use kick_cat.Base.{ℕ, ◌+◌, ◌≤◌, ◌<◌, ◌≡◌, arith, not, none, ◌⊎◌}
use kick_cat.Base.Bytes.{word32}
use kick_cat.CoE.Message.{Message}
use kick_cat.CoE.Segment.{segment_data_length}
use kick_cat.CoE.Dictionary.{Place}
use kick_cat.CoE.Server.{Server}
use kick_cat.CoE.Server.Segments.{total_size, download_segment}

-- The transfer has ended, and the dictionary is as it was.
pub record Stopped (s t : Server) : Type 0 where
  pub ended : t.segmented_entry ≡ none
  pub same_dictionary : t.dictionary ≡ s.dictionary
  pub same_offset : t.segmented_offset ≡ s.segmented_offset

-- The `n` bytes that were transferred are within the entry, and the toggle has changed.
pub record Advanced (p : Place) (n : ℕ) (s t : Server) : Type 0 where
  pub within : s.segmented_offset + n ≤ total_size p s
  pub moved : t.segmented_offset ≡ s.segmented_offset + n
  pub flipped : t.segmented_toggle ≡ not s.segmented_toggle

-- Unless its end wraps at 2 ^ 32, a download segment is either refused, with an abort and nothing
-- written, or its toggle is the expected one, its bytes end within the entry and the toggle changes.
pub download_segment-Bounded :
    (p : Place) (raw : Message) (s : Server)
    → s.segmented_offset + segment_data_length raw.header.len raw.sdo < word32
    → Stopped s (download_segment p raw s).1
      ⊎ (Advanced p (segment_data_length raw.header.len raw.sdo) s (download_segment p raw s).1
          × (raw.sdo.complete_access ≡ s.segmented_toggle))
unfolding download_segment
download_segment-Bounded p raw s h = ground arith
