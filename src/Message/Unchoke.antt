-- ===== src/Message/Unchoke.antt =====
-- PP/Unchoke.cpp.
use ppsp.Common.{ℕ, ◌≡◌, Option, some, List, [], ◌∷◌, ◌++◌, arith, append_assoc}
use ppsp.Common.Int.{ℤ, pos}
use ppsp.Util.Endian.{Host}
use ppsp.Util.Endian.Laws.{IsInt}
use ppsp.Message.Buffer.{◌>>=◌, ◌>>◌, pure, skip, get_int, put_int, run, get_int-put_int}

abbrev pub message_type_unchoke : ℕ
message_type_unchoke = 0x0b

pub record Unchoke : Type 0 where
  pub destination_channel_id : ℤ
  pub message_type : ℕ

unfoldable pub new : Unchoke
new = record { destination_channel_id = pos 0; message_type = message_type_unchoke }

unfoldable pub create : Host → Unchoke → List ℕ → Option (Unchoke × ℕ)
create h unchoke bytes =
    run (do channel ← get_int h; skip; pure (record unchoke { destination_channel_id = channel }))
      bytes

unfoldable pub get_buffer : Host → Unchoke → List ℕ
get_buffer h unchoke = put_int h unchoke.destination_channel_id ++ (unchoke.message_type ∷ [])

-- An Unchoke whose channel is in range is read back from what one host writes by another, whatever
-- follows in the datagram, and 5 bytes are consumed.
pub unchoke_round_trip :
    (g h : Host) (o unchoke : Unchoke) (rest : List ℕ)
    → IsInt unchoke.destination_channel_id
    → o.message_type ≡ unchoke.message_type
    → create g o (get_buffer h unchoke ++ rest) ≡ some (unchoke, 5)
unfolding create get_buffer run
unchoke_round_trip g h o unchoke rest v e = simp append_assoc (
    ground
      (arith, get_int-put_int g h unchoke.destination_channel_id (unchoke.message_type ∷ rest) 0 v))
