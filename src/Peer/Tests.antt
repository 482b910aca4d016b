-- ===== src/Peer/Tests.antt =====
-- The theorems on peers at concrete inputs.
use ppsp.Common.{◌≡◌, true, false, some, arith}
use ppsp.Peer.Supported.{Supported, set_supported_messages, is_supported}
use ppsp.Peer.Supported.Laws.{is_supported-set_supported_messages}

-- What the program switches on: all messages but those on signed hashes and on other addresses.
abbrev supported : Supported
supported = record {
  handshake = true;
  data_messages = true;
  ack = true;
  have = true;
  integrity = true;
  pex_resv4 = true;
  pex_req = true;
  signed_integrity = false;
  request = true;
  cancel = true;
  choke = true;
  unchoke = true;
  pex_resv6 = false;
  pex_rescert = false;
}

is_supported-set_supported_messages_example :
    is_supported (set_supported_messages supported) 2 6 ≡ some true
is_supported-set_supported_messages_example =
    is_supported-set_supported_messages supported 6 (omega arith)
