-- ===== src/Server/Frames/Agree.antt =====
-- The three places that build packets build the same ones.
use uturn.Common.{
  ℕ, zero, suc, ◌+◌, ◌-◌, ◌%◌, ◌≡◌, refl, sym, ap, ◌∙◌, [], ◌∷◌, ◌++◌, arith, length, length-append,
  replicate, append_assoc, ◌≤◌, ℕ_discrete, Run, done, panic, out_of_fuel, ◌>>=◌,
}
use uturn.Common.Bytes.{Bytes, bytes16}
use uturn.Addr.{SocketAddr}
use uturn.Turn.Encode as Encode
use uturn.Turn.Encode.{pad_four, set_length, build_channel_data, append_xor_peer_address}
use uturn.Demux.Stun.Attributes.{magic_bytes}
use uturn.Server.Frames as Frames
use uturn.Server.Frames.{resize_by, channel_packet, indication_packet}

pad_four_done : (fuel : ℕ) (w : Bytes) → (length w - 20) % 4 ≡ 0 → pad_four fuel w ≡ w
unfolding pad_four
pad_four_done zero w e = refl
pad_four_done (suc fuel) w e = ground (arith, e)

pad_four_step :
    (fuel k : ℕ) (w : Bytes)
    → 20 ≤ length w
    → (length w - 20) % 4 + suc k ≡ 4
    → suc k ≤ fuel
    → suc k ≤ 3
    → pad_four fuel w ≡ w ++ replicate (suc k) 0
unfolding pad_four
pad_four_step zero k w room e enough small = absurd (omega arith)
pad_four_step (suc fuel) zero w room e enough small =
    let aligned : (length (w ++ (0 ∷ [])) - 20) % 4 ≡ 0 =
      omega (arith, e, length-append w (0 ∷ [])) in
    ground (arith, e, pad_four_done fuel (w ++ (0 ∷ [])) aligned)
pad_four_step (suc fuel) (suc k) w room e enough small =
    let ih =
      pad_four_step fuel k (w ++ (0 ∷ [])) (omega (arith, length-append w (0 ∷ [])))
        (omega (arith, e, length-append w (0 ∷ []))) (omega arith) (omega arith) in
    ground (arith, e, ih, append_assoc w (0 ∷ []) (replicate (suc k) 0))

append_nil : (w : Bytes) → w ++ [] ≡ w
append_nil [] = refl
append_nil (b ∷ w) = ap (b ∷◌) (append_nil w)

pad_four-resize_by : (w : Bytes) → pad_four 3 w ≡ resize_by ((4 - (length w - 20) % 4) % 4) w
pad_four-resize_by w = elim (ℕ_discrete ((length w - 20) % 4) 0) [
  | yes e ↦ pad_four_done 3 w e ∙ sym (ap (λ n. resize_by ((4 - n) % 4) w) e ∙ append_nil w)
  | no ne ↦
      let padding : (4 - (length w - 20) % 4) % 4 ≡ suc (3 - (length w - 20) % 4) =
        omega (arith, ne) in
      pad_four_step 3 (3 - (length w - 20) % 4) w (omega (arith, ne)) (omega (arith, ne))
        (omega (arith, ne)) (omega (arith, ne))
      ∙ sym (ap (λ n. resize_by n w) padding)
]

>>=-cong :
    (m : Run Bytes) (f g : Bytes → Run Bytes)
    → ((packet : Bytes) → f packet ≡ g packet)
    → m >>= f ≡ m >>= g
>>=-cong (done packet) f g h = h packet
>>=-cong panic f g h = refl
>>=-cong out_of_fuel f g h = refl

-- The three builders of Data indications build the same packet, or panic alike, for every peer,
-- payload and transaction id: padding with a loop and with a computed number of zeros agree.
pub build_data_indication-indication_packet :
    (peer_addr : SocketAddr) (payload txn_id : Bytes)
    → (Encode.build_data_indication peer_addr payload txn_id
        ≡ indication_packet peer_addr payload txn_id)
      × (Frames.server_indication peer_addr payload txn_id
          ≡ indication_packet peer_addr payload txn_id)
unfolding Encode.build_data_indication Frames.server_indication indication_packet
build_data_indication-indication_packet peer_addr payload txn_id = (
  >>=-cong
      (append_xor_peer_address (0x00 ∷ 0x17 ∷ 0x00 ∷ 0x00 ∷ (magic_bytes ++ txn_id)) peer_addr
        txn_id)
      _ _
      λ packet.
        ap (λ b. done (set_length b (length b - 20)))
          (pad_four-resize_by (packet ++ (0x00 ∷ 0x13 ∷ (bytes16 (length payload) ++ payload)))),
  refl,
)

-- The engine's ChannelData is the handler's.
channel_packet-build_channel_data :
    (channel : ℕ) (payload : Bytes)
    → channel_packet channel payload ≡ build_channel_data channel payload
unfolding channel_packet build_channel_data bytes16
channel_packet-build_channel_data channel payload = refl
