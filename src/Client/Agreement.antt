-- ===== src/Client/Agreement.antt =====
-- When the two ends of a connection agree: what the tests of ReceiveHandShake in PPClient.cpp stand
-- for, in terms of the handshake and MyInfo.
use ppsp.Common.{
  Gives, Gives-some, Gives-then, ◌≡◌, refl, ◌⊎◌, inl, inr, Bool, true, false, some, ℕ, arith,
  Bool-cases, sym, ◌∙◌, ◌==◌, ==_iff, ◌&&◌, not, ◌||◌,
}
use ppsp.Common.Int.{ℤ, eqb_ℤ, eqb_ℤ_iff}
use ppsp.Message.HandShake.{HandShake}
use ppsp.Message.Integrity.{mhf_sha1, mhf_sha256}
use ppsp.Message.Buffer.{copy_out}
use ppsp.Tree.Check.{equal_bytes}
use ppsp.Tree.Check.Digests.{equal_bytes_sound}
use ppsp.Peer.Info.{PpInfo, set_info, array}
use ppsp.Client.{PpClient}
use ppsp.Client.Receive.{wrong_swarm, refused, cipm_merkle_hash_tree, cam_32bit_chunk_ranges}

-- The identifiers are compared for a seeder, and where one came; then they are the same.
abbrev pub IsSameSwarm : PpClient → PpInfo → HandShake → Type 0
IsSameSwarm client info hs =
    ((info.is_seeder ≡ false) × (hs.have_swarm_identifier ≡ false))
    ⊎ (client.swarm_id ≡ hs.swarm_identifier_string)

-- Each method that came and the chunk size, if it came, are those of MyInfo, and the methods are
-- ones that the program has.
pub record HasSameOptions (info : PpInfo) (hs : HandShake) : Type 0 where
  pub addressing :
      (hs.have_chunk_addressing_method ≡ false)
      ⊎ ((hs.chunk_addressing_method ≡ info.chunk_addressing_method)
          × (hs.chunk_addressing_method ≡ cam_32bit_chunk_ranges))
  pub protection :
      (hs.have_content_integrity_protection_method ≡ false)
      ⊎ ((hs.content_integrity_protection_method ≡ info.content_integrity_protection_method)
          × (hs.content_integrity_protection_method ≡ cipm_merkle_hash_tree))
  pub size : (hs.have_chunk_size ≡ false) ⊎ (hs.chunk_size ≡ info.chunk_size)
  pub hashing :
      (hs.have_merkle_hash_tree_function ≡ false)
      ⊎ ((hs.merkle_hash_tree_function ≡ info.merkle_hash_tree_function)
          × ((hs.merkle_hash_tree_function ≡ mhf_sha1)
              ⊎ (hs.merkle_hash_tree_function ≡ mhf_sha256)))

pub swarm_agrees :
    (client : PpClient) (info : PpInfo) (hs : HandShake)
    → wrong_swarm client info hs ≡ false
    → IsSameSwarm client info hs
unfolding wrong_swarm
swarm_agrees client info hs h =
    elim (Bool-cases (equal_bytes client.swarm_id hs.swarm_identifier_string)) [
      | inl e ↦ inr (equal_bytes_sound client.swarm_id hs.swarm_identifier_string e)
      | inr e ↦ inl (ground (arith, e, h), ground (arith, e, h))
    ]

-- PeerInfo has the options of the handshake.
record IsTaken (peer : PpInfo) (hs : HandShake) : Type 0 where
  pub addressing : peer.chunk_addressing_method ≡ hs.chunk_addressing_method
  pub protection : peer.content_integrity_protection_method ≡ hs.content_integrity_protection_method
  pub size : peer.chunk_size ≡ hs.chunk_size
  pub hashing : peer.merkle_hash_tree_function ≡ hs.merkle_hash_tree_function

set_info-IsTaken :
    (info : PpInfo) (hs : HandShake) → Gives (λ peer. IsTaken peer hs) (set_info info hs)
unfolding set_info
set_info-IsTaken info hs =
    Gives-then (λ (peer : PpInfo). IsTaken peer hs)
      (copy_out _ (array hs.supported_messages_bitmap)) _
      (λ bitmap.
        Gives-some (λ (peer : PpInfo). IsTaken peer hs) _
          (record { addressing = refl; protection = refl; size = refl; hashing = refl }))

-- The tests `have && mine != theirs`, where they are false; `theirs` is what came.
same_method :
    (have : Bool) (mine theirs came : ℕ)
    → theirs ≡ came
    → (have && not (mine == theirs)) ≡ false
    → (have ≡ false) ⊎ (came ≡ mine)
same_method false mine theirs came t h = inl refl
same_method true mine theirs came t h = inr (sym ((==_iff mine theirs).0 (ground arith) ∙ t))

same_size :
    (have : Bool) (mine theirs came : ℤ)
    → theirs ≡ came
    → (have && not (eqb_ℤ mine theirs)) ≡ false
    → (have ≡ false) ⊎ (came ≡ mine)
same_size false mine theirs came t h = inl refl
same_size true mine theirs came t h = inr (sym ((eqb_ℤ_iff mine theirs).0 (ground arith) ∙ t))

-- The tests that a method is one that the program has.
known_method :
    (have : Bool) (theirs came own : ℕ)
    → theirs ≡ came
    → (have && not (theirs == own)) ≡ false
    → (have ≡ false) ⊎ (came ≡ own)
known_method false theirs came own t h = inl refl
known_method true theirs came own t h = inr (sym t ∙ (==_iff theirs own).0 (ground arith))

one_of_two :
    (have : Bool) (theirs came a b : ℕ)
    → theirs ≡ came
    → (have && not (theirs == a) && not (theirs == b)) ≡ false
    → (have ≡ false) ⊎ ((came ≡ a) ⊎ (came ≡ b))
one_of_two false theirs came a b t h = inl refl
one_of_two true theirs came a b t h = elim (Bool-cases (theirs == a)) [
  | inl e ↦ inr (inl (sym t ∙ (==_iff theirs a).0 e))
  | inr e ↦ inr (inr (sym t ∙ (==_iff theirs b).0 (ground (arith, e, h))))
]

both : {P Q R : Type 0} → P ⊎ Q → P ⊎ R → P ⊎ (Q × R)
both (inl p) r = inl p
both (inr q) (inl p) = inl p
both (inr q) (inr r) = inr (q, r)

or_left : (a b : Bool) → (a || b) ≡ false → a ≡ false
or_left a b h = ground (arith, h)

or_right : (a b : Bool) → (a || b) ≡ false → b ≡ false
or_right a b h = ground (arith, h)

taken_agree :
    (info peer : PpInfo) (hs : HandShake)
    → IsTaken peer hs
    → refused info peer hs ≡ false
    → HasSameOptions info hs
unfolding refused
taken_agree info peer hs t h =
    let h1 = or_left _ _ h in
    let h2 = or_left _ _ h1 in
    let h3 = or_left _ _ h2 in
    let h4 = or_left _ _ h3 in
    let h5 = or_left _ _ h4 in
    record {
      addressing =
          both (same_method hs.have_chunk_addressing_method _ _ _ t.addressing (or_left _ _ h5))
            (known_method hs.have_chunk_addressing_method _ _ _ t.addressing (or_right _ _ h));
      protection =
          both
            (same_method hs.have_content_integrity_protection_method _ _ _ t.protection
              (or_right _ _ h5))
            (known_method hs.have_content_integrity_protection_method _ _ _ t.protection
              (or_right _ _ h1));
      size = same_size hs.have_chunk_size _ _ _ t.size (or_right _ _ h4);
      hashing =
          both (same_method hs.have_merkle_hash_tree_function _ _ _ t.hashing (or_right _ _ h3))
            (one_of_two hs.have_merkle_hash_tree_function _ _ _ _ t.hashing (or_right _ _ h2));
    }

pub options_agree :
    (info before peer : PpInfo) (hs : HandShake)
    → set_info before hs ≡ some peer
    → refused info peer hs ≡ false
    → HasSameOptions info hs
unfolding Gives
options_agree info before peer hs e h =
    taken_agree info peer hs (set_info-IsTaken before hs peer e) h
