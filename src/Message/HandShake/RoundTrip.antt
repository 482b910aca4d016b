-- ===== src/Message/HandShake/RoundTrip.antt =====
-- What a handshake that was sent says to the peer that reads it.
use ppsp.Common.{
  ℕ, zero, suc, ◌+◌, ◌-◌, ◌≤◌, ◌≡◌, ◌∙◌, refl, Option, none, some, List, [], ◌∷◌, ◌++◌, length,
  length-append, arith, append_assoc, take, replicate,
}
use ppsp.Common.Int.{pos}
use ppsp.Util.Endian.{Host}
use ppsp.Util.Endian.Laws.{IsInt, IsShort}
use ppsp.Util.Hex.{buffer, get_string_from_hash}
use ppsp.Util.Hex.RoundTrip.{get_hash_from_string-get_string_from_hash, length-get_string_from_hash}
use ppsp.Message.Buffer.{
  at, put_int, put_short, run, get_int-put_int, length-put_int, length-put_short, copy_out-whole,
}
use ppsp.Message.HandShake.{
  HandShake, code_endoption, code_version, code_minimumversion,
  code_contentintegrityprotectionmethod, code_merklehashtreefunction, code_chunkaddressingmethod,
  all_options, create, put_swarm, put_supported, put_chunk_size, put_port, layout, get_buffer,
}
use ppsp.Message.HandShake.Options.{all_options-end}
use ppsp.Message.HandShake.Received.{
  got_head, got_versions, got_methods, got_swarm, got_supported, got_chunk_size, got_port, received,
  text_of, IsSwarm, IsBitmap, IsSendable,
}
use ppsp.Message.HandShake.Steps.{
  swarm_bytes, supported_bytes, version_step, minimum_step, method_step, merkle_step,
  addressing_step, swarm_step, supported_step, chunk_size_step, port_step,
}

take_all : (n : ℕ) (bs : List ℕ) → length bs ≡ n → take n bs ++ replicate (length bs - n) 0 ≡ bs
take_all zero [] e = refl
take_all zero (b ∷ bs) e = absurd (omega (arith, e))
take_all (suc n) [] e = absurd (omega (arith, e))
take_all (suc n) (b ∷ bs) e = ground (arith, take_all n bs (omega (arith, e)))

put_swarm-bytes :
    (h : Host) (hs : HandShake) (swarm : Option (List ℕ))
    → hs.swarm_identifier_string ≡ text_of swarm
    → IsSwarm swarm
    → put_swarm h hs ≡ some (swarm_bytes h swarm)
unfolding put_swarm get_string_from_hash
put_swarm-bytes h hs none t k = rw t refl
put_swarm-bytes h hs (some []) t k = absurd (omega (arith, k.1))
put_swarm-bytes h hs (some (b ∷ bs)) t k = rw t (
    ground (
      arith,
      get_hash_from_string-get_string_from_hash (b ∷ bs) k.0 (omega (arith, k.1)),
      take_all 20 (b ∷ bs) k.1,
      length-get_string_from_hash (b ∷ bs),
      k.1,
      copy_out-whole 20 (b ∷ bs) k.1,
    ))

put_supported-bytes :
    (hs : HandShake)
    → IsBitmap hs.supported_messages_bitmap_length hs.supported_messages_bitmap
    → put_supported hs ≡ some (supported_bytes hs.supported_messages_bitmap)
unfolding put_supported
put_supported-bytes hs k = go hs.supported_messages_bitmap refl k
  where
    go :
        (m : Option (List ℕ))
        → hs.supported_messages_bitmap ≡ m
        → IsBitmap hs.supported_messages_bitmap_length m
        → put_supported hs ≡ some (supported_bytes m)
    go none e k = rw (e, put_supported) refl
    go (some bitmap) e k =
        rw (e, put_supported)
          (rw (copy_out-whole hs.supported_messages_bitmap_length bitmap k.0) (rw k.0 refl))

abbrev end_bytes : List ℕ → List ℕ
end_bytes rest = code_endoption ∷ rest

abbrev later_bytes : Host → HandShake → List ℕ → List ℕ
later_bytes h hs rest =
    supported_bytes hs.supported_messages_bitmap
    ++ (put_chunk_size h hs ++ (put_port h hs ++ end_bytes rest))

abbrev method_bytes : Host → HandShake → List ℕ → List ℕ
method_bytes h hs rest =
    code_contentintegrityprotectionmethod
    ∷ hs.content_integrity_protection_method
    ∷ code_merklehashtreefunction
    ∷ hs.merkle_hash_tree_function
    ∷ code_chunkaddressingmethod
    ∷ hs.chunk_addressing_method
    ∷ later_bytes h hs rest

abbrev option_bytes : Host → HandShake → Option (List ℕ) → List ℕ → List ℕ
option_bytes h hs swarm rest =
    code_version
    ∷ hs.version
    ∷ code_minimumversion
    ∷ hs.min_version
    ∷ (swarm_bytes h swarm ++ method_bytes h hs rest)

later-received :
    (g h : Host) (o hs : HandShake) (rest : List ℕ) (i : ℕ)
    → IsBitmap hs.supported_messages_bitmap_length hs.supported_messages_bitmap
    → IsInt hs.chunk_size
    → IsShort hs.peer_listening_port
    → all_options g o (at (later_bytes h hs rest) i)
      ≡ some (
        got_port hs.peer_listening_port
            (got_chunk_size hs.chunk_size (got_supported hs.supported_messages_bitmap o)),
        at (end_bytes rest) (
            i
            + length (supported_bytes hs.supported_messages_bitmap)
            + length (put_chunk_size h hs)
            + length (put_port h hs)),
      )
later-received g h o hs rest i kb kc kp =
    supported_step g o hs.supported_messages_bitmap_length hs.supported_messages_bitmap
      (put_chunk_size h hs ++ (put_port h hs ++ end_bytes rest)) i kb
    ∙ chunk_size_step g h (got_supported hs.supported_messages_bitmap o) hs
        (put_port h hs ++ end_bytes rest) _ kc
    ∙ port_step g h (got_chunk_size hs.chunk_size (got_supported hs.supported_messages_bitmap o)) hs
        (end_bytes rest) _ kp
    ∙ all_options-end g _ rest _

methods-received :
    (g h : Host) (o hs : HandShake) (rest : List ℕ) (i : ℕ)
    → all_options g o (at (method_bytes h hs rest) i)
      ≡ all_options g (got_methods hs o) (at (later_bytes h hs rest) (i + 2 + 2 + 2))
methods-received g h o hs rest i =
    method_step g o hs.content_integrity_protection_method _ i
    ∙ merkle_step g _ hs.merkle_hash_tree_function _ (i + 2)
    ∙ addressing_step g _ hs.chunk_addressing_method (later_bytes h hs rest) (i + 2 + 2)

options-received :
    (g h : Host) (o hs : HandShake) (swarm : Option (List ℕ)) (rest : List ℕ) (i : ℕ)
    → IsSendable swarm hs
    → all_options g (got_head hs o) (at (option_bytes h hs swarm rest) i)
      ≡ some (
        received swarm hs o,
        at (end_bytes rest) (
            i
            + 2
            + 2
            + length (swarm_bytes h swarm)
            + 2
            + 2
            + 2
            + length (supported_bytes hs.supported_messages_bitmap)
            + length (put_chunk_size h hs)
            + length (put_port h hs)),
      )
options-received g h o hs swarm rest i k =
    version_step g (got_head hs o) hs.version _ i
    ∙ minimum_step g _ hs.min_version _ (i + 2)
    ∙ swarm_step g h (got_versions hs (got_head hs o)) swarm (method_bytes h hs rest) (i + 2 + 2)
        k.sized
    ∙ methods-received g h (got_swarm swarm (got_versions hs (got_head hs o))) hs rest _
    ∙ later-received g h _ hs rest _ k.bitmap k.chunk k.port

length-swarm_bytes :
    (h : Host) (swarm : Option (List ℕ)) → IsSwarm swarm → length (swarm_bytes h swarm) ≤ 23
length-swarm_bytes h none k = omega arith
length-swarm_bytes h (some id) k =
    omega (arith, length-append (put_short h (pos 20)) id, length-put_short h (pos 20), k.1)

length-supported_bytes :
    (n : ℕ) (m : Option (List ℕ)) → IsBitmap n m → length (supported_bytes m) ≤ 129
length-supported_bytes n none k = omega arith
length-supported_bytes n (some bitmap) k = omega (arith, k.0, k.2)

length-put_chunk_size : (h : Host) (hs : HandShake) → length (put_chunk_size h hs) ≤ 5
unfolding put_chunk_size
length-put_chunk_size h hs = ground (arith, length-put_int h hs.chunk_size)

length-put_port : (h : Host) (hs : HandShake) → length (put_port h hs) ≤ 3
unfolding put_port
length-put_port h hs = ground (arith, length-put_short h hs.peer_listening_port)

length-layout :
    (h : Host) (hs : HandShake) (s t : List ℕ)
    → length (layout h hs s t)
      ≡ 20 + length s + length t + length (put_chunk_size h hs) + length (put_port h hs)
unfolding layout
length-layout h hs s t = simp length-append (
    omega
      (arith, length-put_int h hs.destination_channel_id, length-put_int h hs.source_channel_id))

layout-append :
    (h : Host) (hs : HandShake) (swarm : Option (List ℕ)) (rest : List ℕ)
    → layout h hs (swarm_bytes h swarm) (supported_bytes hs.supported_messages_bitmap) ++ rest
      ≡ put_int h hs.destination_channel_id
        ++ (hs.message_type ∷ (put_int h hs.source_channel_id ++ option_bytes h hs swarm rest))
unfolding layout
layout-append h hs swarm rest = simp append_assoc refl

create-layout :
    (g h : Host) (o hs : HandShake) (swarm : Option (List ℕ)) (rest : List ℕ)
    → IsSendable swarm hs
    → create g o
        (layout h hs (swarm_bytes h swarm) (supported_bytes hs.supported_messages_bitmap) ++ rest)
      ≡ some (
        received swarm hs o,
        length (layout h hs (swarm_bytes h swarm) (supported_bytes hs.supported_messages_bitmap)),
      )
unfolding create run
create-layout g h o hs swarm rest k = rw (layout-append h hs swarm rest) (
    ground (
      arith,
      get_int-put_int g h hs.destination_channel_id
          (hs.message_type ∷ (put_int h hs.source_channel_id ++ option_bytes h hs swarm rest)) 0
          k.destination,
      get_int-put_int g h hs.source_channel_id (option_bytes h hs swarm rest) 5 k.source,
      options-received g h o hs swarm rest 9 k,
      length-layout h hs (swarm_bytes h swarm) (supported_bytes hs.supported_messages_bitmap),
    ))

-- A handshake in range, whose swarm identifier is a SHA-1 hash or empty, is sent, and on a host of
-- either byte order it is read to its last byte: the receiver has the channels, the versions, the
-- identifier in text and bytes, the three methods, and, where the sender has them, the bitmap of
-- supported messages, the chunk size and the listening port; each flag says whether its option
-- came, and the other fields are as they were.
pub handshake_round_trip :
    (g h : Host) (o hs : HandShake) (swarm : Option (List ℕ)) (rest : List ℕ)
    → IsSendable swarm hs
    → (bytes : List ℕ) × (get_buffer h hs ≡ buffer bytes)
      × (create g o (bytes ++ rest) ≡ some (received swarm hs o, length bytes))
unfolding get_buffer
handshake_round_trip g h o hs swarm rest k = (
  layout h hs (swarm_bytes h swarm) (supported_bytes hs.supported_messages_bitmap),
  ground (
    arith,
    put_swarm-bytes h hs swarm k.text k.sized,
    put_supported-bytes hs k.bitmap,
    length-layout h hs (swarm_bytes h swarm) (supported_bytes hs.supported_messages_bitmap),
    length-swarm_bytes h swarm k.sized,
    length-supported_bytes hs.supported_messages_bitmap_length hs.supported_messages_bitmap
        k.bitmap,
    length-put_chunk_size h hs,
    length-put_port h hs,
  ),
  create-layout g h o hs swarm rest k,
)
