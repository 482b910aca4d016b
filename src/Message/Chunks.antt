-- ===== src/Message/Chunks.antt =====
-- The messages of PP/ that carry a chunk range.
use ppsp.Common.{ℕ, ◌^◌, ◌<◌, ◌≡◌, refl, true, false, some, List, ◌++◌}
use ppsp.Common.Int.{ℤ, pos}
use ppsp.Util.Endian.{Host}
use ppsp.Util.Endian.Laws.{IsInt}
use ppsp.Message.Have.{
  Have, have_round_trip, new as new_have, create as read_have, get_buffer as have_buffer,
}
use ppsp.Message.Request.{
  Request, request_round_trip, new as new_request, create as read_request,
  get_buffer as request_buffer,
}
use ppsp.Message.Cancel.{
  Cancel, cancel_round_trip, new as new_cancel, create as read_cancel, get_buffer as cancel_buffer,
}
use ppsp.Message.Ack.{
  Ack, ack_round_trip, new as new_ack, create as read_ack, get_buffer as ack_buffer,
}

abbrev pub have_to : ℤ → ℤ → ℤ → Have
have_to channel start end = record (new_have start end) { destination_channel_id = channel }

abbrev pub request_to : ℤ → ℤ → ℤ → Request
request_to channel start end = record (new_request start end) { destination_channel_id = channel }

abbrev pub cancel_to : ℤ → ℤ → ℤ → Cancel
cancel_to channel start end = record (new_cancel start end) { destination_channel_id = channel }

abbrev pub ack_to : ℤ → ℤ → ℤ → ℕ → Ack
ack_to channel start end sample = record new_ack {
  destination_channel_id = channel;
  start_chunk = start;
  end_chunk = end;
  oneway_delay_sample = sample;
}

-- A Have, a Request, a Cancel and an Ack for a channel, a chunk range and a delay sample in range
-- are each read back from what one host writes by another, whatever follows in the datagram, and 13
-- bytes, for the Ack 21, are consumed; a Have behind a HandShake goes without the channel, is read
-- back with the reader's, and takes 9 bytes.
pub chunks_round_trip :
    (g h : Host) (channel start end : ℤ) (sample : ℕ) (rest : List ℕ)
    → IsInt channel
    → IsInt start
    → IsInt end
    → sample < 2 ^ 64
    → (read_have g
          (new_have (pos 0) (pos 0))
          (have_buffer h (have_to channel start end) false ++ rest)
          false
        ≡ some (have_to channel start end, 13))
      × (read_have g
            (new_have (pos 0) (pos 0))
            (have_buffer h (have_to channel start end) true ++ rest)
            true
          ≡ some (have_to (pos 0) start end, 9))
      × (read_request g
            (new_request (pos 0) (pos 0))
            (request_buffer h (request_to channel start end) ++ rest)
          ≡ some (request_to channel start end, 13))
      × (read_cancel g
            (new_cancel (pos 0) (pos 0))
            (cancel_buffer h (cancel_to channel start end) ++ rest)
          ≡ some (cancel_to channel start end, 13))
      × (read_ack g new_ack (ack_buffer h (ack_to channel start end sample) ++ rest)
          ≡ some (ack_to channel start end sample, 21))
unfolding new_have new_request new_cancel new_ack
chunks_round_trip g h channel start end sample rest c s e d =
    let have =
      have_round_trip g h (new_have (pos 0) (pos 0)) (have_to channel start end) rest
        (record { channel = c; start = s; end = e }) refl in
    (
      have.0,
      have.1,
      request_round_trip g h (new_request (pos 0) (pos 0)) (request_to channel start end) rest
          (record { channel = c; start = s; end = e }) refl,
      cancel_round_trip g h (new_cancel (pos 0) (pos 0)) (cancel_to channel start end) rest
          (record { channel = c; start = s; end = e }) refl,
      ack_round_trip g h new_ack (ack_to channel start end sample) rest
          (record { channel = c; start = s; end = e; sample = d }) refl,
    )
