-- ===== src/Message/PexReq.antt =====
-- PP/PEXReq.cpp.
use ppsp.Common.{ℕ, ◌≡◌, Option, some, List, [], ◌∷◌, ◌++◌, arith, append_assoc}
use ppsp.Common.Int.{ℤ, pos}
use ppsp.Util.Endian.{Host}
use ppsp.Util.Endian.Laws.{IsInt}
use ppsp.Message.Buffer.{◌>>=◌, ◌>>◌, pure, skip, get_int, put_int, run, get_int-put_int}

abbrev pub message_type_pex_req : ℕ
message_type_pex_req = 0x06

pub record PexReq : Type 0 where
  pub destination_channel_id : ℤ
  pub message_type : ℕ

unfoldable pub new : PexReq
new = record { destination_channel_id = pos 0; message_type = message_type_pex_req }

unfoldable pub create : Host → PexReq → List ℕ → Option (PexReq × ℕ)
create h pex_req bytes =
    run (do channel ← get_int h; skip; pure (record pex_req { destination_channel_id = channel }))
      bytes

unfoldable pub get_buffer : Host → PexReq → List ℕ
get_buffer h pex_req = put_int h pex_req.destination_channel_id ++ (pex_req.message_type ∷ [])

-- A PEXReq whose channel is in range is read back from what one host writes by another, whatever
-- follows in the datagram, and 5 bytes are consumed.
pub pex_req_round_trip :
    (g h : Host) (o pex_req : PexReq) (rest : List ℕ)
    → IsInt pex_req.destination_channel_id
    → o.message_type ≡ pex_req.message_type
    → create g o (get_buffer h pex_req ++ rest) ≡ some (pex_req, 5)
unfolding create get_buffer run
pex_req_round_trip g h o pex_req rest v e = simp append_assoc (
    ground
      (arith, get_int-put_int g h pex_req.destination_channel_id (pex_req.message_type ∷ rest) 0 v))
