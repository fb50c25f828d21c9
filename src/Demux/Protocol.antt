-- ===== src/Demux/Protocol.antt =====
-- src/demux/protocol.rs: the classifier by first byte (RFC 7983) and its RTCP test (RFC 5761).
pub mod Safety
pub mod Ranges
use Prim.Native.Nat.{bit_and}
use uturn.Common.{
  ℕ, ◌+◌, ◌*◌, ◌/◌, Bool, false, ◌&&◌, Option, none, some, ltb, leb, ◌==◌, if◌then◌else◌, not, Run,
  done, ◌>>=◌, index, slice, length,
}
use uturn.Common.Bytes.{Bytes, read16}
use uturn.Demux.Stun.{StunInfo}
use uturn.Demux.Stun.Parse.{parse}
use uturn.Demux.Rtp.{RtpHeader, parse_rtp}

pub data PacketType : Type 0 where
  stun : StunInfo → PacketType
  dtls : Bytes → PacketType
  turn_channel_data : ℕ → Bytes → PacketType
  rtp : ℕ → Bytes → PacketType
  rtcp : Bytes → PacketType
  unknown : PacketType

abbrev pub stun_result : Option StunInfo → PacketType
stun_result (some info) = stun info
stun_result none = unknown

unfoldable pub parse_stun : Bytes → Run PacketType
parse_stun bytes = do r ← parse bytes; done (stun_result r)

unfoldable pub parse_channel_data : Bytes → Run PacketType
unfolding read16
parse_channel_data bytes = if ltb (length bytes) 4 then done unknown else do
  channel ← read16 bytes 0
  len ← read16 bytes 2
  if ltb (length bytes) (4 + len)
      then done unknown
      else do body ← slice bytes 4 (4 + len); done (turn_channel_data channel body)

-- The `match pt` at the end of `is_valid_rtcp`: the words that a report of this type must have.
unfoldable pub long_enough : ℕ → ℕ → ℕ → Bool
long_enough pt rc words =
    if pt == 200
    then leb (7 + rc * 6) words
    else if pt == 201
    then leb (2 + rc * 6) words
    else leb 202 pt && leb pt 204

unfoldable pub is_valid_rtcp : Bytes → Run Bool
unfolding read16 long_enough
is_valid_rtcp bytes = if ltb (length bytes) 8 then done false else do
  first ← index bytes 0
  if not (bit_and (first / 64) 0x03 == 2) then done false else do
    length_field ← read16 bytes 2
    if ltb (length bytes) ((length_field + 1) * 4)
        then done false
        else do pt ← index bytes 1; done (long_enough pt (bit_and first 0x1F) (length_field + 1))

abbrev pub rtp_result : Bytes → Option RtpHeader → PacketType
rtp_result bytes (some header) = rtp header.ssrc bytes
rtp_result bytes none = unknown

-- Where the RTCP test has failed.
unfoldable pub as_rtp : Bytes → Run PacketType
as_rtp bytes =
    if ltb (length bytes) 12
    then done unknown
    else do r ← parse_rtp bytes; done (rtp_result bytes r)

unfoldable pub parse_rtp_rtcp : Bytes → Run PacketType
unfolding as_rtp is_valid_rtcp
parse_rtp_rtcp bytes = if ltb (length bytes) 8 then done unknown else do
  raw_pt ← index bytes 1
  if leb 200 raw_pt && leb raw_pt 204
      then (do valid ← is_valid_rtcp bytes; if valid then done (rtcp bytes) else as_rtp bytes)
      else as_rtp bytes

-- `Demuxer::classify`
unfoldable pub classify : Bytes → Run PacketType
unfolding parse_stun parse_channel_data parse_rtp_rtcp
classify bytes = if length bytes == 0 then done unknown else do
  first ← index bytes 0
  if leb first 3
      then parse_stun bytes
      else if leb 20 first && leb first 63
      then done (dtls bytes)
      else if leb 64 first && leb first 127
      then parse_channel_data bytes
      else if leb 128 first && leb first 191
      then parse_rtp_rtcp bytes
      else done unknown
