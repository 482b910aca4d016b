-- ===== src/Message/Request.antt =====
-- PP/Request.cpp.
use ppsp.Common.{ℕ, ◌≡◌, Option, some, List, ◌∷◌, ◌++◌, arith, append_assoc}
use ppsp.Common.Int.{ℤ, pos}
use ppsp.Util.Endian.{Host}
use ppsp.Util.Endian.Laws.{IsInt}
use ppsp.Message.Buffer.{◌>>=◌, ◌>>◌, pure, skip, get_int, put_int, run, get_int-put_int}

abbrev pub message_type_request : ℕ
message_type_request = 0x08

pub record Request : Type 0 where
  pub destination_channel_id : ℤ
  pub message_type : ℕ
  pub start_chunk : ℤ
  pub end_chunk : ℤ

-- The constructor leaves the two chunk numbers as they are in memory.
unfoldable pub new : ℤ → ℤ → Request
new start_chunk end_chunk = record {
  destination_channel_id = pos 0;
  message_type = message_type_request;
  start_chunk = start_chunk;
  end_chunk = end_chunk;
}

unfoldable pub create : Host → Request → List ℕ → Option (Request × ℕ)
create h request bytes =
    run
      (do
        channel ← get_int h
        skip
        start ← get_int h
        end ← get_int h
        pure (record request {
          destination_channel_id = channel;
          start_chunk = start;
          end_chunk = end;
        }))
      bytes

unfoldable pub get_buffer : Host → Request → List ℕ
get_buffer h request =
    put_int h request.destination_channel_id
    ++ (request.message_type ∷ (put_int h request.start_chunk ++ put_int h request.end_chunk))

pub record IsSendable (request : Request) : Type 0 where
  pub channel : IsInt request.destination_channel_id
  pub start : IsInt request.start_chunk
  pub end : IsInt request.end_chunk

-- A Request whose fields are in range is read back from what one host writes by another, whatever
-- follows in the datagram, and 13 bytes are consumed.
pub request_round_trip :
    (g h : Host) (o request : Request) (rest : List ℕ)
    → IsSendable request
    → o.message_type ≡ request.message_type
    → create g o (get_buffer h request ++ rest) ≡ some (request, 13)
unfolding create get_buffer run
request_round_trip g h o request rest v e =
    let later = put_int h request.end_chunk ++ rest in
    simp append_assoc (
      ground (
        arith,
        get_int-put_int g h request.destination_channel_id
            (request.message_type ∷ (put_int h request.start_chunk ++ later)) 0 v.channel,
        get_int-put_int g h request.start_chunk later 5 v.start,
        get_int-put_int g h request.end_chunk rest 9 v.end,
      ))
