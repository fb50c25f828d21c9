-- ===== src/Turn/Tests.antt =====
-- The theorems on what the handler writes, and on credentials, at concrete values.
use uturn.Common.{
  ℕ, ◌≡◌, ◌↔◌, ◌%◌, ◌≤◌, ◌++◌, length, replicate, refl, true, some, none, [], ◌∷◌, arith, done,
}
use uturn.Common.Bytes.{Bytes, bytes16}
use uturn.Addr.{v4}
use uturn.Demux.Stun.Attributes.{decode_xor_address}
use uturn.Demux.Protocol.{classify, turn_channel_data}
use uturn.Turn.Encode.{xor_address, build_channel_data}
use uturn.Turn.Addresses.{classify-build_channel_data, decode_xor_address-xor_address}
use uturn.Turn.Auth.{ephemeral_expiry, verify_message_integrity}
use uturn.Turn.Auth.Compare.{AreBytes, verify_message_integrity_iff}
use uturn.Turn.Nonce.{generate_nonce, validate_nonce}
use uturn.Turn.Nonce.RoundTrip.{validate_nonce-generate_nonce}

classify-build_channel_data_example :
    (classify (build_channel_data 0x4001 (5 ∷ 6 ∷ 7 ∷ []))
      ≡ done (turn_channel_data 0x4001 (5 ∷ 6 ∷ 7 ∷ [])))
    × ((length (build_channel_data 0x4001 (5 ∷ 6 ∷ 7 ∷ [])) % 4 ≡ 0)
        × ((gap : ℕ) × ((gap ≤ 3)
              × (build_channel_data 0x4001 (5 ∷ 6 ∷ 7 ∷ [])
                  ≡ bytes16 0x4001 ++ (bytes16 3 ++ (5 ∷ 6 ∷ 7 ∷ replicate gap 0))))))
classify-build_channel_data_example =
    classify-build_channel_data 0x4001 (5 ∷ 6 ∷ 7 ∷ []) (omega arith) (omega arith) (omega arith)

one_zero : build_channel_data 0x4001 (5 ∷ 6 ∷ 7 ∷ []) ≡ 0x40 ∷ 1 ∷ 0 ∷ 3 ∷ 5 ∷ 6 ∷ 7 ∷ 0 ∷ []
unfolding build_channel_data bytes16
one_zero = refl

decode_xor_address-xor_address_example :
    (written : Bytes) × ((xor_address (record { ip = v4 192 168 1 9; port = 50000 }) []
        ≡ done (0x00 ∷ 0x08 ∷ written))
      × (decode_xor_address written []
          ≡ done (some (record { ip = v4 192 168 1 9; port = 50000 }))))
decode_xor_address-xor_address_example =
    decode_xor_address-xor_address 192 168 1 9 50000 [] (omega arith) (omega arith) (omega arith)
      (omega arith) (omega arith)

-- A stand-in for the keyed hash, of the right length.
abbrev keyed : Bytes → Bytes → Bytes
keyed key message =
    1 ∷ 2 ∷ 3 ∷ 4 ∷ 5 ∷ 6 ∷ 7 ∷ 8 ∷ 9 ∷ 10 ∷ 11 ∷ 12 ∷ 13 ∷ 14 ∷ 15 ∷ 16 ∷ 17 ∷ 18 ∷ 19 ∷ 20 ∷ []

keyed_bytes : AreBytes (keyed [] [])
keyed_bytes = (
  omega arith,
  (
    omega arith,
    (
      omega arith,
      (
        omega arith,
        (
          omega arith,
          (
            omega arith,
            (
              omega arith,
              (
                omega arith,
                (
                  omega arith,
                  (
                    omega arith,
                    (
                      omega arith,
                      (
                        omega arith,
                        (
                          omega arith,
                          (
                            omega arith,
                            (
                              omega arith,
                              (
                                omega arith,
                                (omega arith, (omega arith, (omega arith, (omega arith, tt)))),
                              ),
                            ),
                          ),
                        ),
                      ),
                    ),
                  ),
                ),
              ),
            ),
          ),
        ),
      ),
    ),
  ),
)

verify_message_integrity_iff_example :
    (verify_message_integrity keyed (7 ∷ []) (1 ∷ 2 ∷ []) (9 ∷ []) ≡ true)
    ↔ ((1 ∷ 2 ∷ []) ≡ keyed (9 ∷ []) (7 ∷ []))
verify_message_integrity_iff_example =
    verify_message_integrity_iff keyed (7 ∷ []) (1 ∷ 2 ∷ []) (9 ∷ []) refl keyed_bytes
      (omega arith, (omega arith, tt))

-- `<expiry>:<id>`, its reverse, and neither.
expiry_first : ephemeral_expiry (b'1' ∷ b'2' ∷ b':' ∷ b'a' ∷ []) ≡ some 12
unfolding ephemeral_expiry uturn.Demux.Stun.Parse.split_colon
expiry_first = refl

expiry_last : ephemeral_expiry (b'a' ∷ b':' ∷ b'1' ∷ b'2' ∷ []) ≡ some 12
unfolding ephemeral_expiry uturn.Demux.Stun.Parse.split_colon
expiry_last = refl

expiry_missing : ephemeral_expiry (b'a' ∷ b':' ∷ b'b' ∷ []) ≡ none
unfolding ephemeral_expiry uturn.Demux.Stun.Parse.split_colon
expiry_missing = refl

validate_nonce-generate_nonce_example :
    validate_nonce keyed 1700000100 (generate_nonce keyed 1700000000 (1 ∷ 2 ∷ [])) 3600 (1 ∷ 2 ∷ [])
    ≡ true
validate_nonce-generate_nonce_example =
    validate_nonce-generate_nonce keyed (1 ∷ 2 ∷ []) (λ key message. (keyed_bytes, refl)) 1700000000
      1700000100 3600 (omega arith)
