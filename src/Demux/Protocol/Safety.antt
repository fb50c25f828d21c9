-- ===== src/Demux/Protocol/Safety.antt =====
-- The classifier and the RTP header parser index their input; on no input do they panic.
use Prim.Native.Nat.{bit_and}
use uturn.Common.{
  ℕ, ◌+◌, ◌*◌, ◌/◌, ◌≤◌, ◌<◌, ◌≡◌, false, ◌&&◌, not, none, arith, ltb, leb, ◌==◌, ltb→le, IsDone,
  IsDone-done, IsDone->>=, IsDone-if, index-IsDone, slice-IsDone, length,
}
use uturn.Common.Bytes.{Bytes, read16-IsDone, read32-IsDone}
use uturn.Demux.Stun.Safety.{parse-IsDone}
use uturn.Demux.Rtp.{read_fields, parse_rtp}
use uturn.Demux.Protocol.{
  parse_stun, parse_channel_data, is_valid_rtcp, as_rtp, parse_rtp_rtcp, classify,
}

read_fields-IsDone :
    (bytes : Bytes) (first_byte second_byte version : ℕ)
    → 12 ≤ length bytes
    → IsDone (read_fields bytes first_byte second_byte version)
unfolding read_fields
read_fields-IsDone bytes first_byte second_byte version h =
    IsDone->>= _ _ (read16-IsDone bytes 2 (omega arith)) λ sequence_number _.
      IsDone->>= _ _ (read32-IsDone bytes 4 (omega arith)) λ timestamp _.
        IsDone->>= _ _ (read32-IsDone bytes 8 (omega arith)) λ ssrc _.
          IsDone-if (ltb (length bytes) (12 + bit_and first_byte 0x0F * 4)) _ _
            (λ _. IsDone-done none) (λ _. IsDone-done _)

-- `RtpHeader::parse` returns on every input.
pub parse_rtp-IsDone : (bytes : Bytes) → IsDone (parse_rtp bytes)
unfolding parse_rtp
parse_rtp-IsDone bytes =
    IsDone-if (ltb (length bytes) 12) _ _ (λ _. IsDone-done none)
      λ long.
        let room = ltb→le (length bytes) 12 long in
        IsDone->>= _ _ (index-IsDone bytes 0 (omega arith)) λ first_byte _.
          IsDone->>= _ _ (index-IsDone bytes 1 (omega arith)) λ second_byte _.
            IsDone-if (not (bit_and (first_byte / 64) 0x03 == 2)) _ _ (λ _. IsDone-done none)
              λ _. read_fields-IsDone bytes first_byte second_byte _ room

parse_stun-IsDone : (bytes : Bytes) → IsDone (parse_stun bytes)
unfolding parse_stun
parse_stun-IsDone bytes = IsDone->>= _ _ (parse-IsDone bytes) λ r _. IsDone-done _

parse_channel_data-IsDone : (bytes : Bytes) → IsDone (parse_channel_data bytes)
unfolding parse_channel_data
parse_channel_data-IsDone bytes =
    IsDone-if (ltb (length bytes) 4) _ _ (λ _. IsDone-done _)
      λ long.
        let room = ltb→le (length bytes) 4 long in
        IsDone->>= _ _ (read16-IsDone bytes 0 (omega arith)) λ channel _.
          IsDone->>= _ _ (read16-IsDone bytes 2 (omega arith)) λ len _.
            IsDone-if (ltb (length bytes) (4 + len)) _ _ (λ _. IsDone-done _)
              λ whole.
                IsDone->>= _ _
                  (slice-IsDone bytes 4 (4 + len) (omega arith)
                    (ltb→le (length bytes) (4 + len) whole))
                  λ body _. IsDone-done _

is_valid_rtcp-IsDone : (bytes : Bytes) → IsDone (is_valid_rtcp bytes)
unfolding is_valid_rtcp
is_valid_rtcp-IsDone bytes =
    IsDone-if (ltb (length bytes) 8) _ _ (λ _. IsDone-done false)
      λ long.
        let room = ltb→le (length bytes) 8 long in
        IsDone->>= _ _ (index-IsDone bytes 0 (omega arith)) λ first _.
          IsDone-if (not (bit_and (first / 64) 0x03 == 2)) _ _ (λ _. IsDone-done false)
            λ _. IsDone->>= _ _ (read16-IsDone bytes 2 (omega arith)) λ length_field _.
              IsDone-if (ltb (length bytes) ((length_field + 1) * 4)) _ _ (λ _. IsDone-done false)
                λ _. IsDone->>= _ _ (index-IsDone bytes 1 (omega arith)) λ pt _. IsDone-done _

as_rtp-IsDone : (bytes : Bytes) → IsDone (as_rtp bytes)
unfolding as_rtp
as_rtp-IsDone bytes =
    IsDone-if (ltb (length bytes) 12) _ _ (λ _. IsDone-done _)
      λ _. IsDone->>= _ _ (parse_rtp-IsDone bytes) λ r _. IsDone-done _

parse_rtp_rtcp-IsDone : (bytes : Bytes) → IsDone (parse_rtp_rtcp bytes)
unfolding parse_rtp_rtcp
parse_rtp_rtcp-IsDone bytes =
    IsDone-if (ltb (length bytes) 8) _ _ (λ _. IsDone-done _)
      λ long.
        let room = ltb→le (length bytes) 8 long in
        IsDone->>= _ _ (index-IsDone bytes 1 (omega arith)) λ raw_pt _.
          IsDone-if (leb 200 raw_pt && leb raw_pt 204) _ _
            (λ _.
              IsDone->>= _ _ (is_valid_rtcp-IsDone bytes)
                λ valid _. IsDone-if valid _ _ (λ _. IsDone-done _) (λ _. as_rtp-IsDone bytes))
            (λ _. as_rtp-IsDone bytes)

-- Classifying a datagram returns on every input, the empty one included.
pub classify-IsDone : (bytes : Bytes) → IsDone (classify bytes)
unfolding classify
classify-IsDone bytes =
    IsDone-if (length bytes == 0) _ _ (λ _. IsDone-done _)
      λ some_bytes. IsDone->>= _ _ (index-IsDone bytes 0 (positive some_bytes)) λ first _.
        IsDone-if (leb first 3) _ _ (λ _. parse_stun-IsDone bytes)
          λ _.
            IsDone-if (leb 20 first && leb first 63) _ _ (λ _. IsDone-done _)
              λ _.
                IsDone-if (leb 64 first && leb first 127) _ _ (λ _. parse_channel_data-IsDone bytes)
                  λ _.
                    IsDone-if (leb 128 first && leb first 191) _ _
                      (λ _. parse_rtp_rtcp-IsDone bytes) λ _. IsDone-done _
  where
    positive : (length bytes == 0) ≡ false → 0 < length bytes
    positive e = ground arith
