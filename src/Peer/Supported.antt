-- ===== src/Peer/Supported.antt =====
-- The bitmap of supported messages: `_setBit` and SetSupportedMessages of PPServer.cpp, and
-- IsSupported of PPCommon.h.
pub mod Laws
use ppsp.Common.{
  ℕ, ◌+◌, ◌-◌, ◌*◌, ◌/◌, ◌%◌, ◌^◌, Bool, true, false, Option, none, some, List, [], ◌∷◌, get_elem?,
  ltb, ◌==◌, if◌then◌else◌,
}

-- Bit `n` of a byte.
unfoldable pub bit : ℕ → ℕ → Bool
bit x n = x / 2 ^ n % 2 == 1

-- `x | (1 << n)` and `x & ~(1 << n)`, for `n` below 8.
pub set_bit : ℕ → ℕ → Bool → ℕ
set_bit x n true = if bit x n then x else x + 2 ^ n
set_bit x n false = if bit x n then x - 2 ^ n else x

-- The arguments of SetSupportedMessages, in their order.
pub record Supported : Type 0 where
  pub handshake : Bool
  pub data_messages : Bool
  pub ack : Bool
  pub have : Bool
  pub integrity : Bool
  pub pex_resv4 : Bool
  pub pex_req : Bool
  pub signed_integrity : Bool
  pub request : Bool
  pub cancel : Bool
  pub choke : Bool
  pub unchoke : Bool
  pub pex_resv6 : Bool
  pub pex_rescert : Bool

first_byte : Supported → ℕ
unfolding set_bit
first_byte s =
    let x =
      set_bit (set_bit (set_bit (set_bit 0 7 s.handshake) 6 s.data_messages) 5 s.ack) 4 s.have in
    set_bit (set_bit (set_bit (set_bit x 3 s.integrity) 2 s.pex_resv4) 1 s.pex_req) 0
      s.signed_integrity

second_byte : Supported → ℕ
unfolding set_bit
second_byte s =
    let x = set_bit (set_bit (set_bit (set_bit 0 7 s.request) 6 s.cancel) 5 s.choke) 4 s.unchoke in
    set_bit (set_bit x 3 s.pex_resv6) 2 s.pex_rescert

pub set_supported_messages : Supported → List ℕ
unfolding first_byte second_byte
set_supported_messages s = first_byte s ∷ second_byte s ∷ []

-- Bit `n` of a byte of the array; `none` where the index is behind its end.
tested : Option ℕ → ℕ → Option Bool
tested none n = none
tested (some x) n = some (bit x n)

-- A code is a message type, 0 to 127. `none` is undefined in the source: a read behind the end of the
-- array, or a shift by a negative number.
pub is_supported : List ℕ → ℕ → ℕ → Option Bool
unfolding tested
is_supported bitmap length code =
    if ltb (length * 8 + 1) code
    then some false
    else if ltb code 8
    then tested (get_elem? bitmap 0) (7 - code)
    else if ltb 15 code
    then none
    else tested (get_elem? bitmap 1) (15 - code)
