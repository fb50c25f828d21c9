-- ===== src/Demux/Protocol/Ranges.antt =====
-- Which packets a first byte can give (RFC 7983, with the channel range of RFC 5766), and that a
-- framed ChannelData message is read back.
use uturn.Common.{
  ℕ, ◌+◌, ◌/◌, ◌≤◌, ◌<◌, ◌≡◌, refl, ◌&&◌, Option, none, some, [], ◌∷◌, ◌++◌, arith, ltb, leb, ◌==◌,
  leb→le, le→ltb, ltb→le, subst, sym, ap, ◌∙◌, true, false, ◌⊎◌, inl, inr, Bool-cases, if_true,
  lt→ltb, ltb→lt, leb→lt, and_left, and_right, done, done-injective, Holds, Holds-if, Holds->>=,
  index, slice, length, length-append, length-slice, All,
}
use uturn.Common.Bytes.{Bytes, bytes16, read16, be16-bytes16, slice-append}
use uturn.Demux.Stun.{StunInfo}
use uturn.Demux.Stun.Parse.{parse}
use uturn.Demux.Rtp.{RtpHeader, parse_rtp}
use uturn.Demux.Protocol.{
  PacketType, stun, dtls, turn_channel_data, rtp, rtcp, unknown, stun_result, rtp_result,
  parse_stun, parse_channel_data, is_valid_rtcp, as_rtp, parse_rtp_rtcp, classify,
}

-- An RTCP packet type (RFC 5761), and a report as long as its type wants.
abbrev pub IsRtcp : Bytes → Type 0
IsRtcp bytes =
    (pt : ℕ) × ((index bytes 1 ≡ done pt)
      × ((200 ≤ pt) × ((pt ≤ 204) × (is_valid_rtcp bytes ≡ done true))))

-- Why a datagram with this first byte is none of the kinds.
pub data IsOther (first : ℕ) (bytes : Bytes) : Type 0 where
  reserved : 4 ≤ first → first ≤ 19 → IsOther first bytes
  out_of_range : 192 ≤ first → IsOther first bytes
  bad_stun : first ≤ 3 → parse bytes ≡ done none → IsOther first bytes
  no_header : 64 ≤ first → first ≤ 127 → length bytes < 4 → IsOther first bytes
  cut_short :
      (len : ℕ)
      → 64 ≤ first
      → first ≤ 127
      → read16 bytes 2 ≡ done len
      → length bytes < 4 + len
      → IsOther first bytes
  bad_media :
      128 ≤ first
      → first ≤ 191
      → ¬ IsRtcp bytes
      → (length bytes < 12) ⊎ (parse_rtp bytes ≡ done none)
      → IsOther first bytes

-- The packet that `classify` makes of a datagram `bytes` with this first byte.
abbrev pub Agrees : ℕ → Bytes → PacketType → Type 0
Agrees first bytes (stun info) = (first ≤ 3) × (parse bytes ≡ done (some info))
Agrees first bytes (dtls body) = (20 ≤ first) × (first ≤ 63) × (body ≡ bytes)
Agrees first bytes (turn_channel_data channel body) =
    (64 ≤ first)
    × (first ≤ 127)
    × (channel / 256 ≡ first)
    × (read16 bytes 0 ≡ done channel)
    × (read16 bytes 2 ≡ done (length body))
    × (slice bytes 4 (4 + length body) ≡ done body)
Agrees first bytes (rtp ssrc body) =
    (128 ≤ first)
    × (first ≤ 191)
    × (body ≡ bytes)
    × (12 ≤ length bytes)
    × ¬ IsRtcp bytes
    × ((header : RtpHeader) × ((parse_rtp bytes ≡ done (some header)) × (header.ssrc ≡ ssrc)))
Agrees first bytes (rtcp body) =
    (128 ≤ first) × (first ≤ 191) × (body ≡ bytes) × (8 ≤ length bytes) × IsRtcp bytes
Agrees first bytes unknown = IsOther first bytes

parse_channel_data-frame :
    (channel : ℕ) (body rest : Bytes)
    → channel < 65536
    → length body < 65536
    → parse_channel_data (bytes16 channel ++ (bytes16 (length body) ++ (body ++ rest)))
      ≡ done (turn_channel_data channel body)
unfolding parse_channel_data bytes16 read16
parse_channel_data-frame channel body rest hc hb = rw (
  le→ltb (length frame) 4 (omega arith),
  be16-bytes16 channel hc,
  be16-bytes16 (length body) hb,
  le→ltb (length frame) (4 + length body) (omega (arith, length-append body rest)),
  slice-append [] body rest 4 4 (bytes16 channel ++ bytes16 (length body)) refl refl,
)
  where
    frame : Bytes
    frame = bytes16 channel ++ (bytes16 (length body) ++ (body ++ rest))

-- A ChannelData message on a channel of the range 0x4000-0x7FFF, padded or not, is classified as
-- such, with its channel and exactly its application data.
pub classify-channel_data :
    (channel : ℕ) (body rest : Bytes)
    → 0x4000 ≤ channel
    → channel ≤ 0x7FFF
    → length body < 65536
    → classify (bytes16 channel ++ (bytes16 (length body) ++ (body ++ rest)))
      ≡ done (turn_channel_data channel body)
unfolding classify bytes16
classify-channel_data channel body rest lo hi hb =
    ground (arith, parse_channel_data-frame channel body rest)

high_byte :
    (b : ℕ) {channel : ℕ} (more : Bytes)
    → All (λ x. x < 256) (b ∷ more)
    → read16 (b ∷ more) 0 ≡ done channel
    → channel / 256 ≡ b
unfolding read16
high_byte b [] h e = cc
high_byte b (c ∷ more) h e = let same = done-injective e in omega arith

module _ (b : ℕ) (rest : Bytes) where
  abbrev bytes : Bytes
  bytes = b ∷ rest

  as_rtp-Agrees : 128 ≤ b → b ≤ 191 → ¬ IsRtcp bytes → Holds (Agrees b bytes) (as_rtp bytes)
  unfolding as_rtp
  as_rtp-Agrees lo hi not_rtcp =
      Holds-if (Agrees b bytes) (ltb (length bytes) 12) _ _
        (λ short. bad_media lo hi not_rtcp (inl (ltb→lt (length bytes) 12 short)))
        λ long.
          Holds->>= (Agrees b bytes) (parse_rtp bytes) _
            λ r e. by_header r e (ltb→le (length bytes) 12 long)
    where
      by_header :
          (r : Option RtpHeader)
          → parse_rtp bytes ≡ done r
          → 12 ≤ length bytes
          → Agrees b bytes (rtp_result bytes r)
      by_header none e room = bad_media lo hi not_rtcp (inr e)
      by_header (some header) e room = (lo, hi, refl, room, not_rtcp, (header, (e, refl)))

  short-IsRtcp : length bytes < 8 → ¬ IsRtcp bytes
  unfolding is_valid_rtcp
  short-IsRtcp short (pt, (e, (l, (h, valid)))) =
      let not_rtcp = sym (if_true _ _ _ (lt→ltb (length bytes) 8 short)) ∙ valid in
      ground (arith, not_rtcp)

  module _ (pt : ℕ) (e : index bytes 1 ≡ done pt) where
    invalid-IsRtcp : is_valid_rtcp bytes ≡ done false → ¬ IsRtcp bytes
    invalid-IsRtcp invalid (_, (_, (_, (_, valid)))) =
        let not_rtcp = done-injective (sym invalid ∙ valid) in ground (arith, not_rtcp)

    range-IsRtcp : (leb 200 pt && leb pt 204) ≡ false → ¬ IsRtcp bytes
    range-IsRtcp out (other, (e', (l, (h, _)))) =
        let same = done-injective (sym e ∙ e') in ground (arith, same, out, l, h)

  parse_rtp_rtcp-Agrees : 128 ≤ b → b ≤ 191 → Holds (Agrees b bytes) (parse_rtp_rtcp bytes)
  unfolding parse_rtp_rtcp
  parse_rtp_rtcp-Agrees lo hi =
      Holds-if (Agrees b bytes) (ltb (length bytes) 8) _ _
        (λ short.
          let few = ltb→lt (length bytes) 8 short in
          bad_media lo hi (short-IsRtcp few) (inl (omega (arith, few))))
        λ long. Holds->>= (Agrees b bytes) (index bytes 1) _ λ pt e.
          Holds-if (Agrees b bytes) (leb 200 pt && leb pt 204) _ _
            (λ range. Holds->>= (Agrees b bytes) (is_valid_rtcp bytes) _ λ valid ev.
              Holds-if (Agrees b bytes) valid _ _
                (λ yes. (
                  lo,
                  hi,
                  refl,
                  ltb→le (length bytes) 8 long,
                  (
                    pt,
                    (
                      e,
                      (
                        leb→le 200 pt (and_left _ _ range),
                        (leb→le pt 204 (and_right _ _ range), ev ∙ ap done yes),
                      ),
                    ),
                  ),
                ))
                (λ not_rtcp. as_rtp-Agrees lo hi (invalid-IsRtcp pt e (ev ∙ ap done not_rtcp))))
            (λ out. as_rtp-Agrees lo hi (range-IsRtcp pt e out))

  parse_stun-Agrees : b ≤ 3 → Holds (Agrees b bytes) (parse_stun bytes)
  unfolding parse_stun
  parse_stun-Agrees h = Holds->>= (Agrees b bytes) (parse bytes) _ λ r e. by_info r e
    where
      by_info : (r : Option StunInfo) → parse bytes ≡ done r → Agrees b bytes (stun_result r)
      by_info none e = bad_stun h e
      by_info (some info) e = (h, e)

  parse_channel_data-Agrees :
      All (λ x. x < 256) bytes
      → 64 ≤ b
      → b ≤ 127
      → Holds (Agrees b bytes) (parse_channel_data bytes)
  unfolding parse_channel_data
  parse_channel_data-Agrees are_bytes lo hi =
      Holds-if (Agrees b bytes) (ltb (length bytes) 4) _ _
        (λ short. no_header lo hi (ltb→lt (length bytes) 4 short))
        λ _. Holds->>= (Agrees b bytes) (read16 bytes 0) _ λ channel e.
          Holds->>= (Agrees b bytes) (read16 bytes 2) _ λ len el.
            Holds-if (Agrees b bytes) (ltb (length bytes) (4 + len)) _ _
              (λ short. cut_short len lo hi el (ltb→lt (length bytes) (4 + len) short))
              λ _. Holds->>= (Agrees b bytes) (slice bytes 4 (4 + len)) _ λ body cut.
                let same : len ≡ length body =
                  omega (arith, length-slice bytes body 4 (4 + len) cut) in
                (
                  lo,
                  hi,
                  high_byte b rest are_bytes e,
                  e,
                  el ∙ ap done same,
                  subst (λ n. slice bytes 4 (4 + n) ≡ done body) same cut,
                )

  classify-Agrees : All (λ x. x < 256) bytes → Holds (Agrees b bytes) (classify bytes)
  unfolding classify
  classify-Agrees are_bytes =
      Holds-if (Agrees b bytes) (length bytes == 0) _ _ (λ empty. ground (arith, empty))
        λ _.
          Holds-if (Agrees b bytes) (leb b 3) _ _ (λ h. parse_stun-Agrees (leb→le b 3 h))
            λ high.
              Holds-if (Agrees b bytes) (leb 20 b && leb b 63) _ _
                (λ h. (leb→le 20 b (and_left _ _ h), leb→le b 63 (and_right _ _ h), refl))
                λ not_dtls.
                  Holds-if (Agrees b bytes) (leb 64 b && leb b 127) _ _
                    (λ h.
                      parse_channel_data-Agrees are_bytes (leb→le 64 b (and_left _ _ h))
                        (leb→le b 127 (and_right _ _ h)))
                    λ not_channel.
                      Holds-if (Agrees b bytes) (leb 128 b && leb b 191) _ _
                        (λ h.
                          parse_rtp_rtcp-Agrees (leb→le 128 b (and_left _ _ h))
                            (leb→le b 191 (and_right _ _ h)))
                        (λ not_media. no_kind high not_dtls not_channel not_media)
    where
      no_kind :
          leb b 3 ≡ false
          → (leb 20 b && leb b 63) ≡ false
          → (leb 64 b && leb b 127) ≡ false
          → (leb 128 b && leb b 191) ≡ false
          → IsOther b bytes
      no_kind high not_dtls not_channel not_media = elim (Bool-cases (leb b 19)) [
        | inl low ↦ reserved (leb→lt b 3 high) (leb→le b 19 low)
        | inr above ↦ out_of_range (ground (arith, above, not_dtls, not_channel, not_media))
      ]

-- What a datagram of bytes that is not empty is classified as, by its first byte: STUN below 4, and then as
-- the parser reads it; DTLS from 20 to 63; ChannelData from 64 to 127, with the channel and the body
-- that its header gives; from 128 to 191 RTCP if its second byte is an RTCP type and the report is
-- valid, else RTP with the SSRC of its header. DTLS, RTP and RTCP carry the datagram whole. It is
-- unknown only for a reason: a first byte of none of these ranges, a STUN message or an RTP header
-- that does not parse, or a ChannelData or media packet that is too short.
pub classify_first_byte :
    (b : ℕ) (rest : Bytes) (p : PacketType)
    → All (λ x. x < 256) (b ∷ rest)
    → classify (b ∷ rest) ≡ done p
    → Agrees b (b ∷ rest) p
classify_first_byte b rest p are_bytes e =
    subst (Holds (Agrees b (b ∷ rest))) e (classify-Agrees b rest are_bytes)
