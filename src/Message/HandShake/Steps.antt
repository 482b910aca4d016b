-- ===== src/Message/HandShake/Steps.antt =====
-- The options of a handshake, read one after the other.
use ppsp.Common.{
  ℕ, ◌+◌, ◌<◌, ◌≡◌, ◌∙◌, refl, ap, true, Option, none, some, List, [], ◌∷◌, ◌++◌, length,
  length-append, arith, Bool-cases, inl, inr, append_assoc,
}
use ppsp.Common.Int.{pos, ltb_ℤ}
use ppsp.Util.Endian.{Host, signed8}
use ppsp.Util.Endian.Laws.{IsInt, IsShort}
use ppsp.Message.Buffer.{
  at, ◌>>=◌, get_byte, get_short, put_int, put_short, get_int-put_int, get_short-put_short,
  get_bytes-append, length-put_int, length-put_short,
}
use ppsp.Message.HandShake.{
  HandShake, code_version, code_minimumversion, code_swarmidentifier,
  code_contentintegrityprotectionmethod, code_merklehashtreefunction, code_chunkaddressingmethod,
  code_supportedmessages, code_chunksize, code_peer_listening_port, swarm_option, supported_option,
  read_option, all_options, put_chunk_size, put_port,
}
use ppsp.Message.HandShake.Options.{all_options-option}
use ppsp.Message.HandShake.Received.{
  got_swarm, got_supported, got_chunk_size, got_port, IsSwarm, IsBitmap,
}

-- One option after the other.
pub version_step :
    (g : Host) (o : HandShake) (v : ℕ) (r : List ℕ) (i : ℕ)
    → all_options g o (at (code_version ∷ v ∷ r) i)
      ≡ all_options g (record o { have_version = true; version = v }) (at r (i + 2))
unfolding read_option get_byte
version_step g o v r i =
    all_options-option g o _ code_version (v ∷ r) i _ (at r (i + 2)) refl refl (ground arith)

pub minimum_step :
    (g : Host) (o : HandShake) (v : ℕ) (r : List ℕ) (i : ℕ)
    → all_options g o (at (code_minimumversion ∷ v ∷ r) i)
      ≡ all_options g (record o { have_min_version = true; min_version = v }) (at r (i + 2))
unfolding read_option get_byte
minimum_step g o v r i =
    all_options-option g o _ code_minimumversion (v ∷ r) i _ (at r (i + 2)) refl refl (ground arith)

pub method_step :
    (g : Host) (o : HandShake) (v : ℕ) (r : List ℕ) (i : ℕ)
    → all_options g o (at (code_contentintegrityprotectionmethod ∷ v ∷ r) i)
      ≡ all_options g
          (record o {
            have_content_integrity_protection_method = true;
            content_integrity_protection_method = v;
          })
          (at r (i + 2))
unfolding read_option get_byte
method_step g o v r i =
    all_options-option g o _ code_contentintegrityprotectionmethod (v ∷ r) i _ (at r (i + 2)) refl
      refl (ground arith)

pub merkle_step :
    (g : Host) (o : HandShake) (v : ℕ) (r : List ℕ) (i : ℕ)
    → all_options g o (at (code_merklehashtreefunction ∷ v ∷ r) i)
      ≡ all_options g
          (record o { have_merkle_hash_tree_function = true; merkle_hash_tree_function = v })
          (at r (i + 2))
unfolding read_option get_byte
merkle_step g o v r i =
    all_options-option g o _ code_merklehashtreefunction (v ∷ r) i _ (at r (i + 2)) refl refl
      (ground arith)

pub addressing_step :
    (g : Host) (o : HandShake) (v : ℕ) (r : List ℕ) (i : ℕ)
    → all_options g o (at (code_chunkaddressingmethod ∷ v ∷ r) i)
      ≡ all_options g
          (record o { have_chunk_addressing_method = true; chunk_addressing_method = v })
          (at r (i + 2))
unfolding read_option get_byte
addressing_step g o v r i =
    all_options-option g o _ code_chunkaddressingmethod (v ∷ r) i _ (at r (i + 2)) refl refl
      (ground arith)

abbrev pub swarm_bytes : Host → Option (List ℕ) → List ℕ
swarm_bytes h none = []
swarm_bytes h (some id) = code_swarmidentifier ∷ (put_short h (pos 20) ++ id)

swarm_read :
    (g h : Host) (o : HandShake) (id r : List ℕ) (i : ℕ)
    → length id ≡ 20
    → (do len ← get_short g; swarm_option o len) (at (put_short h (pos 20) ++ (id ++ r)) i)
      ≡ some (got_swarm (some id) o, at r (i + 22))
unfolding swarm_option
swarm_read g h o id r i e = ground (
  arith,
  get_short-put_short g h (pos 20) (id ++ r) i (omega arith),
  get_bytes-append 20 id r (i + 2) e,
)

pub swarm_step :
    (g h : Host) (o : HandShake) (swarm : Option (List ℕ)) (r : List ℕ) (i : ℕ)
    → IsSwarm swarm
    → all_options g o (at (swarm_bytes h swarm ++ r) i)
      ≡ all_options g (got_swarm swarm o) (at r (i + length (swarm_bytes h swarm)))
unfolding read_option
swarm_step g h o none r i k = ground arith
swarm_step g h o (some id) r i k = simp append_assoc (
    all_options-option g o _ code_swarmidentifier (put_short h (pos 20) ++ (id ++ r)) i _
      (at r (i + 1 + 22)) refl refl (swarm_read g h o id r (i + 1) k.1)
    ∙ ap (λ j. all_options g (got_swarm (some id) o) (at r j))
        (omega (arith, length-append (put_short h (pos 20)) id, length-put_short h (pos 20), k.1)))

abbrev pub supported_bytes : Option (List ℕ) → List ℕ
supported_bytes none = []
supported_bytes (some bitmap) = code_supportedmessages ∷ length bitmap ∷ bitmap

supported_read :
    (o : HandShake) (b : ℕ) (bs r : List ℕ) (i : ℕ)
    → length (b ∷ bs) < 128
    → (do len ← get_byte; supported_option o (signed8 len)) (at (length (b ∷ bs) ∷ b ∷ (bs ++ r)) i)
      ≡ some (got_supported (some (b ∷ bs)) o, at r (i + 1 + length (b ∷ bs)))
unfolding supported_option get_byte
supported_read o b bs r i e =
    ground (arith, get_bytes-append (length (b ∷ bs)) (b ∷ bs) r (i + 1) refl)

pub supported_step :
    (g : Host) (o : HandShake) (n : ℕ) (bitmap : Option (List ℕ)) (r : List ℕ) (i : ℕ)
    → IsBitmap n bitmap
    → all_options g o (at (supported_bytes bitmap ++ r) i)
      ≡ all_options g (got_supported bitmap o) (at r (i + length (supported_bytes bitmap)))
unfolding read_option
supported_step g o n none r i k = ground arith
supported_step g o n (some []) r i k = absurd (omega (arith, k.0, k.1))
supported_step g o n (some (b ∷ bs)) r i k =
    all_options-option g o _ code_supportedmessages (length (b ∷ bs) ∷ b ∷ (bs ++ r)) i _
      (at r (i + 1 + 1 + length (b ∷ bs))) refl refl
      (supported_read o b bs r (i + 1) (omega (arith, k.0, k.2)))
    ∙ ap (λ j. all_options g (got_supported (some (b ∷ bs)) o) (at r j)) (omega arith)

pub chunk_size_step :
    (g h : Host) (o hs : HandShake) (r : List ℕ) (i : ℕ)
    → IsInt hs.chunk_size
    → all_options g o (at (put_chunk_size h hs ++ r) i)
      ≡ all_options g (got_chunk_size hs.chunk_size o) (at r (i + length (put_chunk_size h hs)))
unfolding read_option put_chunk_size
chunk_size_step g h o hs r i k = elim (Bool-cases (ltb_ℤ (pos 0) hs.chunk_size)) [
  | inl e ↦ rw e (
      all_options-option g o _ code_chunksize (put_int h hs.chunk_size ++ r) i _ (at r (i + 1 + 4))
        refl refl (ground (arith, get_int-put_int g h hs.chunk_size r (i + 1) k))
      ∙ ap
          (λ j.
            all_options g (record o { have_chunk_size = true; chunk_size = hs.chunk_size })
              (at r j))
          (omega (arith, length-put_int h hs.chunk_size)))
  | inr e ↦ rw e (ground arith)
]

pub port_step :
    (g h : Host) (o hs : HandShake) (r : List ℕ) (i : ℕ)
    → IsShort hs.peer_listening_port
    → all_options g o (at (put_port h hs ++ r) i)
      ≡ all_options g (got_port hs.peer_listening_port o) (at r (i + length (put_port h hs)))
unfolding read_option put_port
port_step g h o hs r i k = elim (Bool-cases (ltb_ℤ (pos 0) hs.peer_listening_port)) [
  | inl e ↦ rw e (
      all_options-option g o _ code_peer_listening_port (put_short h hs.peer_listening_port ++ r) i
        _ (at r (i + 1 + 2)) refl refl
        (ground (arith, get_short-put_short g h hs.peer_listening_port r (i + 1) k))
      ∙ ap (λ j. all_options g (record o { peer_listening_port = hs.peer_listening_port }) (at r j))
          (omega (arith, length-put_short h hs.peer_listening_port)))
  | inr e ↦ rw e (ground arith)
]
