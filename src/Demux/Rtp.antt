-- ===== src/Demux/Rtp.antt =====
-- src/demux/rtp.rs: the fixed RTP header.
use Prim.Native.Nat.{bit_and}
use uturn.Common.{
  ℕ, ◌+◌, ◌*◌, ◌/◌, Bool, Option, none, some, ltb, ◌==◌, if◌then◌else◌, not, Run, done, ◌>>=◌,
  index, length,
}
use uturn.Common.Bytes.{Bytes, read16, read32}

pub record RtpHeader : Type 0 where
  pub version : ℕ
  pub padding : Bool
  pub extension : Bool
  pub csrc_count : ℕ
  pub marker : Bool
  pub payload_type : ℕ
  pub sequence_number : ℕ
  pub timestamp : ℕ
  pub ssrc : ℕ

-- `RtpHeader::header_size`
unfoldable pub header_size : RtpHeader → ℕ
header_size h = 12 + h.csrc_count * 4

-- From the version test on.
unfoldable pub read_fields : Bytes → ℕ → ℕ → ℕ → Run (Option RtpHeader)
unfolding read16 read32
read_fields bytes first_byte second_byte version = do
  sequence_number ← read16 bytes 2
  timestamp ← read32 bytes 4
  ssrc ← read32 bytes 8
  let csrc_count = bit_and first_byte 0x0F
  if ltb (length bytes) (12 + csrc_count * 4)
      then done none
      else done (
          some (record {
            version = version;
            padding = not (bit_and first_byte 0x20 == 0);
            extension = not (bit_and first_byte 0x10 == 0);
            csrc_count = csrc_count;
            marker = not (bit_and second_byte 0x80 == 0);
            payload_type = bit_and second_byte 0x7F;
            sequence_number = sequence_number;
            timestamp = timestamp;
            ssrc = ssrc;
          }))

-- `RtpHeader::parse`
unfoldable pub parse_rtp : Bytes → Run (Option RtpHeader)
unfolding read_fields
parse_rtp bytes = if ltb (length bytes) 12 then done none else do
  first_byte ← index bytes 0
  second_byte ← index bytes 1
  let version = bit_and (first_byte / 64) 0x03
  if not (version == 2) then done none else read_fields bytes first_byte second_byte version
