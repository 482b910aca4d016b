-- ===== src/Message/Cancel.antt =====
-- PP/Cancel.cpp.
use ppsp.Common.{ℕ, ◌≡◌, Option, some, List, ◌∷◌, ◌++◌, arith, append_assoc}
use ppsp.Common.Int.{ℤ, pos}
use ppsp.Util.Endian.{Host}
use ppsp.Util.Endian.Laws.{IsInt}
use ppsp.Message.Buffer.{◌>>=◌, ◌>>◌, pure, skip, get_int, put_int, run, get_int-put_int}

abbrev pub message_type_cancel : ℕ
message_type_cancel = 0x09

pub record Cancel : Type 0 where
  pub destination_channel_id : ℤ
  pub message_type : ℕ
  pub start_chunk : ℤ
  pub end_chunk : ℤ

-- The constructor leaves the two chunk numbers as they are in memory.
unfoldable pub new : ℤ → ℤ → Cancel
new start_chunk end_chunk = record {
  destination_channel_id = pos 0;
  message_type = message_type_cancel;
  start_chunk = start_chunk;
  end_chunk = end_chunk;
}

unfoldable pub create : Host → Cancel → List ℕ → Option (Cancel × ℕ)
create h cancel bytes =
    run
      (do
        channel ← get_int h
        skip
        start ← get_int h
        end ← get_int h
        pure (record cancel {
          destination_channel_id = channel;
          start_chunk = start;
          end_chunk = end;
        }))
      bytes

unfoldable pub get_buffer : Host → Cancel → List ℕ
get_buffer h cancel =
    put_int h cancel.destination_channel_id
    ++ (cancel.message_type ∷ (put_int h cancel.start_chunk ++ put_int h cancel.end_chunk))

pub record IsSendable (cancel : Cancel) : Type 0 where
  pub channel : IsInt cancel.destination_channel_id
  pub start : IsInt cancel.start_chunk
  pub end : IsInt cancel.end_chunk

-- A Cancel whose fields are in range is read back from what one host writes by another, whatever
-- follows in the datagram, and 13 bytes are consumed.
pub cancel_round_trip :
    (g h : Host) (o cancel : Cancel) (rest : List ℕ)
    → IsSendable cancel
    → o.message_type ≡ cancel.message_type
    → create g o (get_buffer h cancel ++ rest) ≡ some (cancel, 13)
unfolding create get_buffer run
cancel_round_trip g h o cancel rest v e =
    let later = put_int h cancel.end_chunk ++ rest in
    simp append_assoc (
      ground (
        arith,
        get_int-put_int g h cancel.destination_channel_id
            (cancel.message_type ∷ (put_int h cancel.start_chunk ++ later)) 0 v.channel,
        get_int-put_int g h cancel.start_chunk later 5 v.start,
        get_int-put_int g h cancel.end_chunk rest 9 v.end,
      ))
