-- ===== src/Message/Choke.antt =====
-- PP/Choke.cpp.
use ppsp.Common.{ℕ, ◌≡◌, Option, some, List, [], ◌∷◌, ◌++◌, arith, append_assoc}
use ppsp.Common.Int.{ℤ, pos}
use ppsp.Util.Endian.{Host}
use ppsp.Util.Endian.Laws.{IsInt}
use ppsp.Message.Buffer.{◌>>=◌, ◌>>◌, pure, skip, get_int, put_int, run, get_int-put_int}

abbrev pub message_type_choke : ℕ
message_type_choke = 0x0a

pub record Choke : Type 0 where
  pub destination_channel_id : ℤ
  pub message_type : ℕ

unfoldable pub new : Choke
new = record { destination_channel_id = pos 0; message_type = message_type_choke }

unfoldable pub create : Host → Choke → List ℕ → Option (Choke × ℕ)
create h choke bytes =
    run (do channel ← get_int h; skip; pure (record choke { destination_channel_id = channel }))
      bytes

unfoldable pub get_buffer : Host → Choke → List ℕ
get_buffer h choke = put_int h choke.destination_channel_id ++ (choke.message_type ∷ [])

-- A Choke whose channel is in range is read back from what one host writes by another, whatever
-- follows in the datagram, and 5 bytes are consumed.
pub choke_round_trip :
    (g h : Host) (o choke : Choke) (rest : List ℕ)
    → IsInt choke.destination_channel_id
    → o.message_type ≡ choke.message_type
    → create g o (get_buffer h choke ++ rest) ≡ some (choke, 5)
unfolding create get_buffer run
choke_round_trip g h o choke rest v e = simp append_assoc (
    ground
      (arith, get_int-put_int g h choke.destination_channel_id (choke.message_type ∷ rest) 0 v))
