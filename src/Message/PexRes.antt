-- ===== src/Message/PexRes.antt =====
-- PP/PEXRes.cpp. `inet_addr` and `inet_ntoa` are those of the system; in memory an `in_addr` has
-- the four octets in the order in which they are written, on any host.
use ppsp.Common.{
  ℕ, ◌<◌, ◌≡◌, refl, Option, some, List, [], ◌∷◌, ◌++◌, arith, append_assoc, length, ltb,
  if◌then◌else◌, ◌&&◌,
}
use ppsp.Common.Int.{ℤ, pos, leb_ℤ}
use ppsp.Util.Endian.{Host, little, big, load32, signed32}
use ppsp.Util.Endian.Laws.{IsInt, IsShort, IsByte}
use ppsp.Message.Buffer.{
  ◌>>=◌, ◌>>◌, pure, skip, get_int, put_int, run, get_int-put_int, get_short, put_short,
  get_short-put_short,
}

abbrev pub message_type_pexresv4 : ℕ
message_type_pexresv4 = 0x05

pub record Inet : Type 0 where
  pub inet_addr : List ℕ → ℤ
  pub inet_ntoa : ℤ → List ℕ

-- On host `h`, `text` is the dotted form of the address with octets `a b c d`.
pub record IsDotted (h : Host) (inet : Inet) (text : List ℕ) (a b c d : ℕ) : Type 0 where
  pub octets : IsByte a × IsByte b × IsByte c × IsByte d
  pub written : 0 < length text
  pub address : inet.inet_addr text ≡ signed32 (load32 h a b c d)
  pub shown : inet.inet_ntoa (signed32 (load32 h a b c d)) ≡ text

pub record PexRes : Type 0 where
  pub destination_channel_id : ℤ
  pub message_type : ℕ
  pub ipv4_address : ℤ
  pub ipv4_address_string : List ℕ
  pub port : ℤ

unfoldable pub new : PexRes
new = record {
  destination_channel_id = pos 0;
  message_type = message_type_pexresv4;
  ipv4_address = pos 0;
  ipv4_address_string = [];
  port = pos 0;
}

unfoldable pub create : Host → Inet → PexRes → List ℕ → Option (PexRes × ℕ)
create h inet pex bytes =
    run
      (do
        channel ← get_int h
        skip
        address ← get_int h
        port ← get_short h
        pure (record pex {
          destination_channel_id = channel;
          ipv4_address = address;
          ipv4_address_string = inet.inet_ntoa address;
          port = port;
        }))
      bytes

-- The address is looked up from its text where none is set yet.
unfoldable pub with_address : Inet → PexRes → PexRes
with_address inet pex =
    if ltb 0 (length pex.ipv4_address_string) && leb_ℤ pex.ipv4_address (pos 0)
    then record pex { ipv4_address = inet.inet_addr pex.ipv4_address_string }
    else pex

unfoldable pub get_buffer : Host → Inet → PexRes → PexRes × List ℕ
unfolding with_address
get_buffer h inet pex =
    let sent = with_address inet pex in
    (
      sent,
      put_int h sent.destination_channel_id
          ++ (sent.message_type ∷ (put_int h sent.ipv4_address ++ put_short h sent.port)),
    )

pub record IsSendable (pex : PexRes) : Type 0 where
  pub channel : IsInt pex.destination_channel_id
  pub unset : pex.ipv4_address ≡ pos 0
  pub in_range : IsShort pex.port

load32-IsInt :
    (h : Host) (a b c d : ℕ)
    → IsByte a × IsByte b × IsByte c × IsByte d
    → IsInt (signed32 (load32 h a b c d))
unfolding load32
load32-IsInt little a b c d k = ground arith
load32-IsInt big a b c d k = ground arith

-- The host of the other byte order.
abbrev pub other : Host → Host
other little = big
other big = little

load32-other : (h : Host) (a b c d : ℕ) → load32 (other h) d c b a ≡ load32 h a b c d
unfolding load32
load32-other little a b c d = refl
load32-other big a b c d = refl

-- Between hosts of the same byte order, an address that is given as text and not yet set as a
-- number arrives as the same text, with the same port, where the resolver takes the text and the
-- number for each other.
pub pex_res_round_trip :
    (h : Host) (inet : Inet) (o pex : PexRes) (rest : List ℕ) (a b c d : ℕ)
    → IsSendable pex
    → IsDotted h inet pex.ipv4_address_string a b c d
    → create h inet o ((get_buffer h inet pex).1 ++ rest)
      ≡ some (
        record o {
          destination_channel_id = pex.destination_channel_id;
          ipv4_address = signed32 (load32 h a b c d);
          ipv4_address_string = pex.ipv4_address_string;
          port = pex.port;
        },
        11,
      )
unfolding create get_buffer run
pex_res_round_trip h inet o pex rest a b c d v k =
    let address = signed32 (load32 h a b c d) in
    let later = put_short h pex.port ++ rest in
    simp append_assoc (
      ground (
        arith,
        get_int-put_int h h pex.destination_channel_id
            (pex.message_type ∷ (put_int h address ++ later)) 0 v.channel,
        get_int-put_int h h address later 5 (load32-IsInt h a b c d k.octets),
        get_short-put_short h h pex.port rest 9 v.in_range,
      ))

-- Between hosts of different byte orders, the four octets of an address that is given as text
-- arrive in the reverse order.
pub pex_res_reversed :
    (h : Host) (inet inet' : Inet) (o pex : PexRes) (rest : List ℕ) (a b c d : ℕ)
    → IsSendable pex
    → IsDotted h inet pex.ipv4_address_string a b c d
    → create (other h) inet' o ((get_buffer h inet pex).1 ++ rest)
      ≡ some (
        record o {
          destination_channel_id = pex.destination_channel_id;
          ipv4_address = signed32 (load32 (other h) d c b a);
          ipv4_address_string = inet'.inet_ntoa (signed32 (load32 (other h) d c b a));
          port = pex.port;
        },
        11,
      )
unfolding create get_buffer run
pex_res_reversed h inet inet' o pex rest a b c d v k =
    let address = signed32 (load32 h a b c d) in
    let later = put_short h pex.port ++ rest in
    simp append_assoc (
      ground (
        arith,
        get_int-put_int (other h) h pex.destination_channel_id
            (pex.message_type ∷ (put_int h address ++ later)) 0 v.channel,
        get_int-put_int (other h) h address later 5 (load32-IsInt h a b c d k.octets),
        get_short-put_short (other h) h pex.port rest 9 v.in_range,
        load32-other h a b c d,
      ))
