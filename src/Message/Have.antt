-- ===== src/Message/Have.antt =====
-- PP/Have.cpp. A Have message that follows a HandShake in one datagram has no channel id.
use ppsp.Common.{
  ℕ, ◌≡◌, Bool, true, false, Option, some, List, [], ◌∷◌, ◌++◌, arith, if◌then◌else◌, append_assoc,
}
use ppsp.Common.Int.{ℤ, pos}
use ppsp.Util.Endian.{Host}
use ppsp.Util.Endian.Laws.{IsInt}
use ppsp.Message.Buffer.{◌>>=◌, ◌>>◌, pure, skip, get_int, put_int, run, get_int-put_int}

abbrev pub message_type_have : ℕ
message_type_have = 0x03

pub record Have : Type 0 where
  pub destination_channel_id : ℤ
  pub message_type : ℕ
  pub start_chunk : ℤ
  pub end_chunk : ℤ

-- The constructor leaves the two chunk numbers as they are in memory.
unfoldable pub new : ℤ → ℤ → Have
new start_chunk end_chunk = record {
  destination_channel_id = pos 0;
  message_type = message_type_have;
  start_chunk = start_chunk;
  end_chunk = end_chunk;
}

unfoldable pub create : Host → Have → List ℕ → Bool → Option (Have × ℕ)
create h have bytes is_handshake_have =
    run
      (do
        channel ← if is_handshake_have then pure have.destination_channel_id else get_int h
        skip
        start ← get_int h
        end ← get_int h
        pure (record have {
          destination_channel_id = channel;
          start_chunk = start;
          end_chunk = end;
        }))
      bytes

unfoldable pub get_buffer : Host → Have → Bool → List ℕ
get_buffer h have is_handshake_have =
    (if is_handshake_have then [] else put_int h have.destination_channel_id)
    ++ (have.message_type ∷ (put_int h have.start_chunk ++ put_int h have.end_chunk))

pub record IsSendable (have : Have) : Type 0 where
  pub channel : IsInt have.destination_channel_id
  pub start : IsInt have.start_chunk
  pub end : IsInt have.end_chunk

-- A Have message whose fields are in range is read back from what one host writes by another,
-- whatever follows in the datagram. Behind a HandShake the channel id is not sent, and the reader
-- keeps the one that it has.
pub have_round_trip :
    (g h : Host) (o have : Have) (rest : List ℕ)
    → IsSendable have
    → o.message_type ≡ have.message_type
    → (create g o (get_buffer h have false ++ rest) false ≡ some (have, 13))
      × (create g o (get_buffer h have true ++ rest) true
          ≡ some (record have { destination_channel_id = o.destination_channel_id }, 9))
unfolding create get_buffer run
have_round_trip g h o have rest v e =
    let later = put_int h have.end_chunk ++ rest in
    (
      simp append_assoc (
          ground (
            arith,
            get_int-put_int g h have.destination_channel_id
                (have.message_type ∷ (put_int h have.start_chunk ++ later)) 0 v.channel,
            get_int-put_int g h have.start_chunk later 5 v.start,
            get_int-put_int g h have.end_chunk rest 9 v.end,
          )),
      simp append_assoc (
          ground (
            arith,
            get_int-put_int g h have.start_chunk later 1 v.start,
            get_int-put_int g h have.end_chunk rest 5 v.end,
          )),
    )
