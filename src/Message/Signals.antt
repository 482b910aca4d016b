-- ===== src/Message/Signals.antt =====
-- The messages of PP/ that carry nothing but the channel.
use ppsp.Common.{ℕ, ◌≡◌, refl, some, List, ◌++◌}
use ppsp.Common.Int.{ℤ}
use ppsp.Util.Endian.{Host}
use ppsp.Util.Endian.Laws.{IsInt}
use ppsp.Message.Choke.{
  Choke, choke_round_trip, new as new_choke, create as read_choke, get_buffer as choke_buffer,
}
use ppsp.Message.Unchoke.{
  Unchoke, unchoke_round_trip, new as new_unchoke, create as read_unchoke,
  get_buffer as unchoke_buffer,
}
use ppsp.Message.PexReq.{
  PexReq, pex_req_round_trip, new as new_pex_req, create as read_pex_req,
  get_buffer as pex_req_buffer,
}

abbrev pub choke_to : ℤ → Choke
choke_to channel = record new_choke { destination_channel_id = channel }

abbrev pub unchoke_to : ℤ → Unchoke
unchoke_to channel = record new_unchoke { destination_channel_id = channel }

abbrev pub pex_req_to : ℤ → PexReq
pex_req_to channel = record new_pex_req { destination_channel_id = channel }

-- A Choke, an Unchoke and a PEXReq for a channel in range are each read back from what one host
-- writes by another, whatever follows in the datagram, and 5 bytes are consumed.
pub signals_round_trip :
    (g h : Host) (channel : ℤ) (rest : List ℕ)
    → IsInt channel
    → (read_choke g new_choke (choke_buffer h (choke_to channel) ++ rest)
        ≡ some (choke_to channel, 5))
      × (read_unchoke g new_unchoke (unchoke_buffer h (unchoke_to channel) ++ rest)
          ≡ some (unchoke_to channel, 5))
      × (read_pex_req g new_pex_req (pex_req_buffer h (pex_req_to channel) ++ rest)
          ≡ some (pex_req_to channel, 5))
signals_round_trip g h channel rest k = (
  choke_round_trip g h new_choke (choke_to channel) rest k refl,
  unchoke_round_trip g h new_unchoke (unchoke_to channel) rest k refl,
  pex_req_round_trip g h new_pex_req (pex_req_to channel) rest k refl,
)
