-- ===== src/Message/Integrity.antt =====
-- PP/Integrity.cpp. A hash has as many bytes as the hash function says: 20, or 64, which is
-- SHA256_DIGEST_BLOCKLEN.
use ppsp.Common.{
  ℕ, ◌+◌, ◌≡◌, refl, Option, none, some, List, [], ◌∷◌, ◌++◌, arith, append_assoc, length, ◌==◌,
  if◌then◌else◌,
}
use ppsp.Common.Int.{ℤ, pos}
use ppsp.Util.Endian.{Host}
use ppsp.Util.Endian.Laws.{IsInt}
use ppsp.Message.Buffer.{
  ◌>>=◌, ◌>>◌, pure, skip, get_int, put_int, run, get_int-put_int, get_bytes, get_bytes-append,
  Reader, Written, null, fault, buffer, copy_out, copy_out-all,
}

abbrev pub message_type_integrity : ℕ
message_type_integrity = 0x04

abbrev pub mhf_sha1 : ℕ
mhf_sha1 = 0

abbrev pub mhf_sha256 : ℕ
mhf_sha256 = 2

abbrev pub sha1_digest_blocklen : ℕ
sha1_digest_blocklen = 20

abbrev pub sha256_digest_blocklen : ℕ
sha256_digest_blocklen = 64

pub record Integrity : Type 0 where
  pub destination_channel_id : ℤ
  pub message_type : ℕ
  pub start_chunk : ℤ
  pub end_chunk : ℤ
  pub merkle_hash_tree_function : ℕ
  pub hash : Option (List ℕ)

unfoldable pub new : ℕ → Integrity
new mhf = record {
  destination_channel_id = pos 0;
  message_type = message_type_integrity;
  start_chunk = pos 0;
  end_chunk = pos 0;
  merkle_hash_tree_function = mhf;
  hash = none;
}

-- The size that the branches of SetHash, Create and GetBuffer use, `none` where neither is taken.
unfoldable pub digest_len : ℕ → Option ℕ
digest_len mhf =
    if mhf == mhf_sha1
    then some sha1_digest_blocklen
    else if mhf == mhf_sha256
    then some sha256_digest_blocklen
    else none

-- `none` as a result is a read past the end of the given array.
unfoldable pub set_hash : Integrity → List ℕ → Option Integrity
set_hash inte hash = elim (digest_len inte.merkle_hash_tree_function) [
  | none ↦ some inte
  | some n ↦ elim (copy_out (pos n) hash) [
    | none ↦ none
    | some copy ↦ some (record inte { hash = some copy })
  ]
]

read_hash : Integrity → Reader (Option (List ℕ))
read_hash inte = elim (digest_len inte.merkle_hash_tree_function) [
  | none ↦ pure inte.hash
  | some n ↦ do hash ← get_bytes n; pure (some hash)
]

unfoldable pub create : Host → Integrity → List ℕ → Option (Integrity × ℕ)
unfolding read_hash
create h inte bytes =
    run
      (do
        channel ← get_int h
        skip
        start ← get_int h
        end ← get_int h
        hash ← read_hash inte
        pure (record inte {
          destination_channel_id = channel;
          start_chunk = start;
          end_chunk = end;
          hash = hash;
        }))
      bytes

fields : Host → Integrity → List ℕ → List ℕ
fields h inte hash =
    put_int h inte.destination_channel_id
    ++ (inte.message_type ∷ (put_int h inte.start_chunk ++ (put_int h inte.end_chunk ++ hash)))

unfoldable pub get_buffer : Host → Integrity → Written
unfolding fields
get_buffer h inte = elim inte.hash [
  | none ↦ null
  | some hash ↦ elim (digest_len inte.merkle_hash_tree_function) [
    | none ↦ buffer (fields h inte [])
    | some n ↦ elim (copy_out (pos n) hash) [
      | none ↦ fault
      | some copy ↦ buffer (fields h inte copy)
    ]
  ]
]

pub record IsSendable (inte : Integrity) (hash : List ℕ) : Type 0 where
  pub channel : IsInt inte.destination_channel_id
  pub start : IsInt inte.start_chunk
  pub end : IsInt inte.end_chunk
  pub held : inte.hash ≡ some hash
  pub sized : digest_len inte.merkle_hash_tree_function ≡ some (length hash)

create-fields :
    (g h : Host) (o inte : Integrity) (hash rest : List ℕ)
    → IsSendable inte hash
    → o.message_type ≡ inte.message_type
    → o.merkle_hash_tree_function ≡ inte.merkle_hash_tree_function
    → create g o (fields h inte hash ++ rest) ≡ some (inte, 13 + length hash)
unfolding create fields run
create-fields g h o inte hash rest v e f =
    let last = hash ++ rest in
    let later = put_int h inte.end_chunk ++ last in
    simp append_assoc (
      ground (
        arith,
        get_int-put_int g h inte.destination_channel_id
            (inte.message_type ∷ (put_int h inte.start_chunk ++ later)) 0 v.channel,
        get_int-put_int g h inte.start_chunk later 5 v.start,
        get_int-put_int g h inte.end_chunk last 9 v.end,
        get_bytes-append (length hash) hash rest 13 refl,
      ))

-- A hash of the size that the function in use has goes over unchanged between any two hosts that
-- use that function, with the chunk range that it covers.
pub integrity_round_trip :
    (g h : Host) (o inte : Integrity) (hash rest : List ℕ)
    → IsSendable inte hash
    → o.message_type ≡ inte.message_type
    → o.merkle_hash_tree_function ≡ inte.merkle_hash_tree_function
    → (bytes : List ℕ) × (get_buffer h inte ≡ buffer bytes)
      × (create g o (bytes ++ rest) ≡ some (inte, 13 + length hash))
unfolding get_buffer
integrity_round_trip g h o inte hash rest v e f = (
  fields h inte hash,
  ground (arith, copy_out-all hash),
  create-fields g h o inte hash rest v e f,
)
