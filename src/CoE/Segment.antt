-- ===== src/CoE/Segment.antt =====
-- The length of an SDO segment in the mailbox header and the SDO flags: lib/src/CoE/protocol.cc.
use kick_cat.Base.{
  ℕ, zero, suc, ◌+◌, ◌-◌, ◌*◌, ◌/◌, ◌%◌, ◌<◌, ◌≡◌, refl, arith, bit_or, ltb, ◌==◌, if◌then◌else◌,
}
use kick_cat.Base.Bytes.{word16, sub32}
use kick_cat.CoE.Message.{ServiceData}

-- `(block_size << 1) | transfer_type`, as a `uint8_t`
unfoldable pub segment_data_size : ServiceData → ℕ
segment_data_size sdo = bit_or (sdo.block_size * 2) sdo.transfer_type % 256

unfoldable pub segment_data_length : ℕ → ServiceData → ℕ
segment_data_length mailbox_len sdo =
    if mailbox_len == 10 then sub32 7 (segment_data_size sdo) else sub32 mailbox_len 3

-- The octets of a compact segment that carry no data.
abbrev pub unused_octets : ℕ → ℕ
unused_octets chunk = if ltb chunk 7 then 7 - chunk else 0

-- The mailbox length, and the flags with the length of the segment in them.
unfoldable pub set_segment_length : ServiceData → ℕ → ℕ × ServiceData
set_segment_length sdo chunk = (
  if ltb chunk 7 then 10 else (3 + chunk) % word16,
  record sdo { transfer_type = unused_octets chunk % 2; block_size = unused_octets chunk / 2 % 4 },
)

-- Any chunk that a mailbox can hold is read back as it was written, whatever flags were there.
pub segment-length_roundtrip :
    (sdo : ServiceData) (chunk : ℕ)
    → chunk < 65533
    → segment_data_length (set_segment_length sdo chunk).0 (set_segment_length sdo chunk).1 ≡ chunk
unfolding segment_data_length set_segment_length segment_data_size sub32
segment-length_roundtrip sdo zero h = refl
segment-length_roundtrip sdo (suc zero) h = refl
segment-length_roundtrip sdo (suc (suc zero)) h = refl
segment-length_roundtrip sdo (suc (suc (suc zero))) h = refl
segment-length_roundtrip sdo (suc (suc (suc (suc zero)))) h = refl
segment-length_roundtrip sdo (suc (suc (suc (suc (suc zero))))) h = refl
segment-length_roundtrip sdo (suc (suc (suc (suc (suc (suc zero)))))) h = refl
segment-length_roundtrip sdo (suc (suc (suc (suc (suc (suc (suc zero))))))) h = refl
segment-length_roundtrip sdo (suc (suc (suc (suc (suc (suc (suc (suc n)))))))) h = ground arith
