-- ===== src/Message/Data.antt =====
-- PP/Data.cpp. The clock that GetBuffer reads is an argument.
use ppsp.Common.{
  ℕ, ◌+◌, ◌^◌, ◌<◌, ◌≡◌, Option, none, some, List, ◌∷◌, ◌++◌, arith, length, length-append, ◌==◌,
  if◌then◌else◌,
}
use ppsp.Common.Int.{ℤ, pos, ◌+ℤ◌, ◌-ℤ◌, ◌*ℤ◌, ltb_ℤ}
use ppsp.Util.Endian.{Host}
use ppsp.Util.Endian.Laws.{IsInt}
use ppsp.Message.Buffer.{
  ◌>>=◌, ◌>>◌, pure, skip, get_int, put_int, run, get_int-put_int, get_u64, put_u64,
  get_u64-put_u64, get_sized, get_sized-all, length-put_int, length-put_u64, Written, null, fault,
  buffer, copy_out, copy_out-all,
}

abbrev pub message_type_data : ℕ
message_type_data = 0x01

pub record Data : Type 0 where
  pub destination_channel_id : ℤ
  pub message_type : ℕ
  pub start_chunk : ℤ
  pub end_chunk : ℤ
  pub chunk_size : ℤ
  pub buffer_size : ℤ
  pub timestamp : ℕ
  pub data_buffer : Option (List ℕ)

unfoldable pub new : Data
new = record {
  destination_channel_id = pos 0;
  message_type = message_type_data;
  start_chunk = pos 0;
  end_chunk = pos 0;
  chunk_size = pos 0;
  buffer_size = pos 0;
  timestamp = 0;
  data_buffer = none;
}

-- `ChunkSize * (EndChunk - StartChunk + 1)`
range_size : ℤ → ℤ → ℤ → ℤ
range_size chunk_size start end = chunk_size *ℤ (end -ℤ start +ℤ pos 1)

-- The header is 21 bytes long. With a length given, the rest of the datagram is the payload.
unfoldable pub create : Host → Data → List ℕ → ℤ → Option (Data × ℕ)
unfolding range_size
create h d bytes len =
    run
      (do
        channel ← get_int h
        skip
        start ← get_int h
        end ← get_int h
        timestamp ← get_u64 h
        let size = if ltb_ℤ (pos 0) len then len -ℤ pos 21 else d.buffer_size
        let payload_size = if ltb_ℤ (pos 0) len then size else range_size d.chunk_size start end
        payload ← get_sized payload_size
        pure (record d {
          destination_channel_id = channel;
          start_chunk = start;
          end_chunk = end;
          timestamp = timestamp;
          buffer_size = size;
          data_buffer = some payload;
        }))
      bytes

unfoldable pub payload_bytes : Data → ℤ
unfolding range_size
payload_bytes d =
    if ltb_ℤ (pos 0) d.buffer_size
    then d.buffer_size
    else range_size d.chunk_size d.start_chunk d.end_chunk

-- A timestamp of 0 stands for the time of sending, and is replaced.
abbrev pub stamped : ℕ → Data → Data
stamped now d = record d { timestamp = if d.timestamp == 0 then now else d.timestamp }

fields : Host → Data → List ℕ → List ℕ
fields h d payload =
    put_int h d.destination_channel_id
    ++ (d.message_type
        ∷ (put_int h d.start_chunk
            ++ (put_int h d.end_chunk ++ (put_u64 h d.timestamp ++ payload))))

unfoldable pub get_buffer : Host → ℕ → Data → Data × Written
unfolding fields
get_buffer h now d = elim d.data_buffer [
  | none ↦ (d, null)
  | some source ↦ elim (copy_out (payload_bytes d) source) [
    | none ↦ (stamped now d, fault)
    | some payload ↦ (stamped now d, buffer (fields h (stamped now d) payload))
  ]
]

pub record IsSendable (now : ℕ) (d : Data) (payload : List ℕ) : Type 0 where
  pub channel : IsInt d.destination_channel_id
  pub start : IsInt d.start_chunk
  pub end : IsInt d.end_chunk
  pub time : d.timestamp < 2 ^ 64
  pub clock : now < 2 ^ 64
  pub held : d.data_buffer ≡ some payload
  pub sized : d.buffer_size ≡ pos (length payload)
  pub some_data : 0 < length payload

payload_bytes_lem :
    (now : ℕ) (d : Data) (payload : List ℕ)
    → IsSendable now d payload
    → payload_bytes d ≡ pos (length payload)
unfolding payload_bytes
payload_bytes_lem now d payload v = ground arith

length-fields :
    (h : Host) (d : Data) (payload : List ℕ) → length (fields h d payload) ≡ 21 + length payload
unfolding fields
length-fields h d payload = ground (
  arith,
  length-append (put_int h d.destination_channel_id) (
      d.message_type
      ∷ (put_int h d.start_chunk ++ (put_int h d.end_chunk ++ (put_u64 h d.timestamp ++ payload)))),
  length-append (put_int h d.start_chunk)
      (put_int h d.end_chunk ++ (put_u64 h d.timestamp ++ payload)),
  length-append (put_int h d.end_chunk) (put_u64 h d.timestamp ++ payload),
  length-append (put_u64 h d.timestamp) payload,
  length-put_int h d.destination_channel_id,
  length-put_int h d.start_chunk,
  length-put_int h d.end_chunk,
  length-put_u64 h d.timestamp,
)

header_off : (n : ℕ) → pos (21 + n) -ℤ pos 21 ≡ pos n
unfolding ◌-ℤ◌
header_off n = ground arith

create-fields :
    (g h : Host) (o d : Data) (payload : List ℕ)
    → IsInt d.destination_channel_id
    → IsInt d.start_chunk
    → IsInt d.end_chunk
    → d.timestamp < 2 ^ 64
    → create g o (fields h d payload) (pos (21 + length payload))
      ≡ some (
        record o {
          destination_channel_id = d.destination_channel_id;
          start_chunk = d.start_chunk;
          end_chunk = d.end_chunk;
          timestamp = d.timestamp;
          buffer_size = pos (length payload);
          data_buffer = some payload;
        },
        21 + length payload,
      )
unfolding create fields run
create-fields g h o d payload kc ks ke kt =
    let last = put_u64 h d.timestamp ++ payload in
    let later = put_int h d.end_chunk ++ last in
    (ground (
      arith,
      get_int-put_int g h d.destination_channel_id
          (d.message_type ∷ (put_int h d.start_chunk ++ later)) 0 kc,
      get_int-put_int g h d.start_chunk later 5 ks,
      get_int-put_int g h d.end_chunk last 9 ke,
      get_u64-put_u64 g h d.timestamp payload 13 kt,
      get_sized-all payload 21,
      header_off (length payload),
    ))

-- A Data message with a payload that is not empty, whose BufferSize is the size of the payload,
-- goes over unchanged between any two hosts, with its range and its timestamp, which is the
-- sender's clock where none was set. The reader takes the size of the payload from the length of
-- the datagram.
pub data_round_trip :
    (g h : Host) (now : ℕ) (o d : Data) (payload : List ℕ)
    → IsSendable now d payload
    → (bytes : List ℕ) × (get_buffer h now d ≡ (stamped now d, buffer bytes))
      × (length bytes ≡ 21 + length payload)
      × (create g o bytes (pos (length bytes))
          ≡ some (
            record o {
              destination_channel_id = d.destination_channel_id;
              start_chunk = d.start_chunk;
              end_chunk = d.end_chunk;
              timestamp = (stamped now d).timestamp;
              buffer_size = pos (length payload);
              data_buffer = some payload;
            },
            21 + length payload,
          ))
unfolding get_buffer
data_round_trip g h now o d payload v = (
  fields h (stamped now d) payload,
  ground (arith, payload_bytes_lem now d payload v, copy_out-all payload),
  length-fields h (stamped now d) payload,
  rw (length-fields h (stamped now d) payload)
      (create-fields g h o (stamped now d) payload v.channel v.start v.end (ground arith)),
)
