-- ===== src/Server/Relay/Inspect/Totality.antt =====
-- Looking into a payload returns, whatever the bytes are.
use uturn.Common.{
  ℕ, zero, suc, ◌+◌, ◌*◌, ◌/◌, ◌≤◌, ◌<◌, not, ◌==◌, ◌&&◌, Option, none, some, arith, leb, ltb,
  length, slice-IsDone, index-IsDone, Run, done, IsDone, IsDone-done, IsDone->>=, IsDone-if,
}
use uturn.Common.Bytes.{Bytes, Str, padded, read16-IsDone}
use uturn.Server.Relay.Inspect.{
  is_dtls, is_rtp, is_stun, ufrags_in, find_ufrags, extract_stun_ufrags,
}

found_or-IsDone :
    (o : Option (Str × Str)) (rest : Run (Option (Str × Str)))
    → IsDone rest
    → IsDone (elim o [ some ufrags ↦ done (some ufrags) | none ↦ rest ])
found_or-IsDone none rest h = h
found_or-IsDone (some ufrags) rest h = IsDone-done _

-- One round returns where the rounds behind it do.
find_ufrags_round :
    (fuel : ℕ) (bytes : Bytes) (msg_len offset : ℕ)
    → 20 + msg_len ≤ length bytes
    → (offset + 4 ≤ 20 + msg_len
        → (attr_len : ℕ) → IsDone (find_ufrags fuel bytes msg_len (offset + (4 + padded attr_len))))
    → IsDone (find_ufrags (suc fuel) bytes msg_len offset)
unfolding find_ufrags
find_ufrags_round fuel bytes msg_len offset room later =
    IsDone-if (ltb (20 + msg_len) (offset + 4)) _ _ (λ _. IsDone-done _)
      λ within.
        let inside : offset + 4 ≤ 20 + msg_len = ground (arith, within) in
        IsDone->>= _ _ (read16-IsDone bytes offset (omega arith)) λ attr_type _.
          IsDone->>= _ _ (read16-IsDone bytes (offset + 2) (omega arith)) λ attr_len _.
            IsDone-if (ltb (length bytes) (offset + 4 + attr_len)) _ _ (λ _. IsDone-done _)
              λ fits.
                IsDone->>= _ _
                  (slice-IsDone bytes (offset + 4) (offset + 4 + attr_len) (omega arith)
                    (ground (arith, fits)))
                  λ value _. found_or-IsDone (ufrags_in attr_type value) _ (later inside attr_len)

find_ufrags-IsDone :
    (fuel : ℕ) (bytes : Bytes) (msg_len offset : ℕ)
    → 20 + msg_len ≤ length bytes
    → 20 + msg_len < offset + 4 * suc fuel
    → IsDone (find_ufrags (suc fuel) bytes msg_len offset)
find_ufrags-IsDone zero bytes msg_len offset room enough =
    find_ufrags_round zero bytes msg_len offset room
      λ inside attr_len. absurd (omega (arith, enough, inside))
find_ufrags-IsDone (suc fuel) bytes msg_len offset room enough =
    find_ufrags_round (suc fuel) bytes msg_len offset room λ inside attr_len.
      find_ufrags-IsDone fuel bytes msg_len (offset + (4 + padded attr_len)) room
        (omega (arith, enough))

is_dtls-IsDone : (bytes : Bytes) → IsDone (is_dtls bytes)
unfolding is_dtls
is_dtls-IsDone bytes =
    IsDone-if (ltb (length bytes) 3) _ _ (λ _. IsDone-done _)
      λ big. IsDone->>= _ _ (index-IsDone bytes 0 (ground (arith, big))) λ kind _.
        IsDone-if (not (leb 0x14 kind && leb kind 0x19)) _ _ (λ _. IsDone-done _)
          λ _. IsDone->>= _ _ (index-IsDone bytes 1 (ground (arith, big))) λ v _. IsDone-done _

is_rtp-IsDone : (bytes : Bytes) → IsDone (is_rtp bytes)
unfolding is_rtp
is_rtp-IsDone bytes =
    IsDone-if (ltb (length bytes) 2) _ _ (λ _. IsDone-done _)
      λ big. IsDone->>= _ _ (is_dtls-IsDone bytes) λ d _.
        IsDone-if d _ _ (λ _. IsDone-done _)
          λ _. IsDone->>= _ _ (index-IsDone bytes 1 (ground (arith, big))) λ second _. IsDone-done _

is_stun-IsDone : (bytes : Bytes) → IsDone (is_stun bytes)
unfolding is_stun
is_stun-IsDone bytes =
    IsDone-if (ltb (length bytes) 20) _ _ (λ _. IsDone-done _)
      λ big. IsDone->>= _ _ (index-IsDone bytes 0 (ground (arith, big))) λ first _.
        IsDone-if (not (first / 64 == 0)) _ _ (λ _. IsDone-done _)
          λ _.
            IsDone->>= _ _ (slice-IsDone bytes 4 8 (omega arith) (ground (arith, big)))
              λ cookie _. IsDone-done _

extract-IsDone : (bytes : Bytes) → IsDone (extract_stun_ufrags bytes)
unfolding extract_stun_ufrags
extract-IsDone bytes =
    IsDone-if (ltb (length bytes) 20) _ _ (λ _. IsDone-done _)
      λ big. IsDone->>= _ _ (read16-IsDone bytes 2 (ground (arith, big))) λ msg_len _.
        IsDone-if (ltb (length bytes) (20 + msg_len)) _ _ (λ _. IsDone-done _)
          λ room. find_ufrags-IsDone msg_len bytes msg_len 20 (ground (arith, room)) (omega arith)

-- The tests on a payload and the search for the fragments in it return on every input: nothing is
-- read out of range, and the search ends.
pub extract_stun_ufrags-IsDone :
    (bytes : Bytes)
    → IsDone (extract_stun_ufrags bytes) × (IsDone (is_stun bytes) × IsDone (is_rtp bytes))
extract_stun_ufrags-IsDone bytes =
    (extract-IsDone bytes, (is_stun-IsDone bytes, is_rtp-IsDone bytes))
