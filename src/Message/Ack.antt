-- ===== src/Message/Ack.antt =====
-- PP/Ack.cpp.
use ppsp.Common.{ℕ, ◌^◌, ◌<◌, ◌≡◌, Option, some, List, ◌∷◌, ◌++◌, arith, append_assoc}
use ppsp.Common.Int.{ℤ, pos}
use ppsp.Util.Endian.{Host}
use ppsp.Util.Endian.Laws.{IsInt}
use ppsp.Message.Buffer.{
  ◌>>=◌, ◌>>◌, pure, skip, get_int, put_int, run, get_int-put_int, get_u64, put_u64,
  get_u64-put_u64,
}

abbrev pub message_type_ack : ℕ
message_type_ack = 0x02

pub record Ack : Type 0 where
  pub destination_channel_id : ℤ
  pub message_type : ℕ
  pub start_chunk : ℤ
  pub end_chunk : ℤ
  pub oneway_delay_sample : ℕ

unfoldable pub new : Ack
new = record {
  destination_channel_id = pos 0;
  message_type = message_type_ack;
  start_chunk = pos 0;
  end_chunk = pos 0;
  oneway_delay_sample = 0;
}

unfoldable pub create : Host → Ack → List ℕ → Option (Ack × ℕ)
create h ack bytes =
    run
      (do
        channel ← get_int h
        skip
        start ← get_int h
        end ← get_int h
        sample ← get_u64 h
        pure (record ack {
          destination_channel_id = channel;
          start_chunk = start;
          end_chunk = end;
          oneway_delay_sample = sample;
        }))
      bytes

unfoldable pub get_buffer : Host → Ack → List ℕ
get_buffer h ack =
    put_int h ack.destination_channel_id
    ++ (ack.message_type
        ∷ (put_int h ack.start_chunk
            ++ (put_int h ack.end_chunk ++ put_u64 h ack.oneway_delay_sample)))

pub record IsSendable (ack : Ack) : Type 0 where
  pub channel : IsInt ack.destination_channel_id
  pub start : IsInt ack.start_chunk
  pub end : IsInt ack.end_chunk
  pub sample : ack.oneway_delay_sample < 2 ^ 64

-- An Ack whose fields are in range is read back from what one host writes by another, with its
-- 64-bit delay sample, whatever follows in the datagram, and 21 bytes are consumed.
pub ack_round_trip :
    (g h : Host) (o ack : Ack) (rest : List ℕ)
    → IsSendable ack
    → o.message_type ≡ ack.message_type
    → create g o (get_buffer h ack ++ rest) ≡ some (ack, 21)
unfolding create get_buffer run
ack_round_trip g h o ack rest v e =
    let last = put_u64 h ack.oneway_delay_sample ++ rest in
    let later = put_int h ack.end_chunk ++ last in
    simp append_assoc (
      ground (
        arith,
        get_int-put_int g h ack.destination_channel_id
            (ack.message_type ∷ (put_int h ack.start_chunk ++ later)) 0 v.channel,
        get_int-put_int g h ack.start_chunk later 5 v.start,
        get_int-put_int g h ack.end_chunk last 9 v.end,
        get_u64-put_u64 g h ack.oneway_delay_sample rest 13 v.sample,
      ))
