-- ===== src/Peer/Info.antt =====
-- PPInfo of PPCommon.h: what a process knows of the content and of its own settings, and of a peer.
use ppsp.Common.{
  ℕ, zero, suc, Bool, true, false, Option, none, some, List, [], length, ◌==◌, if◌then◌else◌,
}
use ppsp.Common.Int.{ℤ, pos}
use ppsp.Message.Buffer.{copy_out}
use ppsp.Message.HandShake.{HandShake}
use ppsp.Message.Integrity.{Integrity}
use ppsp.Message.Data.{Data}
use ppsp.Binmap.{Binmap, set_have}
use ppsp.Binmap.Finish.{check_finish}
use ppsp.Binmap.Storage.{Read, get_data, set_data, set_file_name}
use ppsp.Peer.Supported.{is_supported}
use ppsp.Tree.Sha.{Hasher}
use ppsp.Tree.State.{
  HashTree, MerkleHashmap, set_root_hash_string, add_integrity, default_chunk_size,
}
use ppsp.Tree.Check.{check_data_integrity}
use ppsp.Tree.Make.{make}
use ppsp.Tree.Send.{get_peak_hashes, get_data_integrity}

pub record PpInfo : Type 0 where
  pub file_name : List ℕ
  pub ip_address : List ℕ
  pub port : ℤ
  pub is_seeder : Bool
  pub chunk_size : ℤ
  pub file_hash_tree : HashTree
  pub file_binmap : Binmap
  pub swarm_id : List ℕ
  pub version : ℕ
  pub min_version : ℕ
  pub content_integrity_protection_method : ℕ
  pub merkle_hash_tree_function : ℕ
  pub live_signature_algorithm : ℕ
  pub chunk_addressing_method : ℕ
  pub live_discard_window : Option (List ℕ)
  pub supported_messages_bitmap : Option (List ℕ)
  pub supported_messages_bitmap_length : ℕ
  pub retry_count : ℤ
  pub keep_alive_interval : ℤ
  pub pex_req_interval : ℤ
  pub listen_port_option : ℤ
  pub is_first_data : Bool

-- The constructor leaves the other fields as they are in memory, or as their own constructors do.
unfoldable pub new : PpInfo → PpInfo
new memory = record memory {
  port = pos 0;
  is_seeder = false;
  chunk_size = default_chunk_size;
  live_discard_window = none;
  supported_messages_bitmap = none;
  retry_count = pos 3;
  keep_alive_interval = pos 10;
  pex_req_interval = pos 5;
  listen_port_option = pos 0;
  is_first_data = true;
}

unfoldable pub set_name : PpInfo → List ℕ → PpInfo
set_name info name = record info {
  file_name = name;
  file_binmap = set_file_name info.file_binmap name;
}

unfoldable pub set_swarm_id : PpInfo → List ℕ → Option PpInfo
set_swarm_id info id = elim (set_root_hash_string info.file_hash_tree id) [
  | none ↦ none
  | some tree ↦ some (record info { swarm_id = id; file_hash_tree = tree })
]

abbrev pub array : Option (List ℕ) → List ℕ
array none = []
array (some bytes) = bytes

-- A null pointer is an array of no bytes.
unfoldable pub supports : PpInfo → ℕ → Option Bool
supports info code =
    is_supported (array info.supported_messages_bitmap) info.supported_messages_bitmap_length code

unfoldable pub set_info : PpInfo → HandShake → Option PpInfo
set_info info hs =
    elim (copy_out (pos hs.supported_messages_bitmap_length) (array hs.supported_messages_bitmap)) [
      | none ↦ none
      | some bitmap ↦ some (record info {
        version = hs.version;
        min_version = hs.min_version;
        swarm_id = hs.swarm_identifier_string;
        content_integrity_protection_method = hs.content_integrity_protection_method;
        merkle_hash_tree_function = hs.merkle_hash_tree_function;
        live_signature_algorithm = hs.live_signature_algorithm;
        chunk_addressing_method = hs.chunk_addressing_method;
        supported_messages_bitmap = some bitmap;
        supported_messages_bitmap_length = hs.supported_messages_bitmap_length;
        chunk_size = hs.chunk_size;
      })
    ]

unfoldable pub get_data_from_file : PpInfo → ℤ → PpInfo × Read
get_data_from_file info index =
    let (b, read) = get_data info.file_binmap info.chunk_size index in
    (record info { file_binmap = b }, read)

unfoldable pub store_data : Bool → PpInfo → Data → Option PpInfo
store_data can_create info d =
    elim (set_data can_create info.file_binmap d.start_chunk d.end_chunk info.chunk_size
      d.data_buffer) [ none ↦ none | some (b, written) ↦ some (record info { file_binmap = b }) ]

unfoldable pub finished : PpInfo → Option (PpInfo × Bool)
finished info = elim (check_finish info.file_binmap) [
  | none ↦ none
  | some (b, done) ↦ some (record info { file_binmap = b }, done)
]

unfoldable pub peak_hashes : PpInfo → Option (MerkleHashmap × PpInfo)
peak_hashes info = elim (get_peak_hashes info.file_hash_tree) [
  | none ↦ none
  | some (peaks, tree) ↦ some (peaks, record info { file_hash_tree = tree })
]

unfoldable pub data_integrity : PpInfo → ℤ → ℤ → Option (MerkleHashmap × PpInfo)
data_integrity info channelid index =
    elim (get_data_integrity info.file_hash_tree channelid index) [
      | none ↦ none
      | some (nodes, tree) ↦ some (nodes, record info { file_hash_tree = tree })
    ]

unfoldable pub keep_integrity : PpInfo → ℤ → Integrity → Option PpInfo
keep_integrity info channelid inte = elim (add_integrity info.file_hash_tree channelid inte) [
  | none ↦ none
  | some tree ↦ some (record info { file_hash_tree = tree })
]

unfoldable pub with_tree : PpInfo → Option (ℕ × HashTree) → Option (ℕ × PpInfo)
with_tree info none = none
with_tree info (some (result, tree)) = some (result, record info { file_hash_tree = tree })

unfoldable pub check_data : Hasher → PpInfo → ℤ → Data → Option (ℕ × PpInfo)
check_data sha info channelid d =
    with_tree info (check_data_integrity sha info.file_hash_tree channelid d)

-- What MakeHashTree does with the result of Make.
unfoldable pub with_made : PpInfo → Option (ℕ × HashTree) → Option (ℕ × PpInfo)
with_made info none = none
with_made info (some (zero, tree)) = some (0, record info { file_hash_tree = tree })
with_made info (some (suc result, tree)) = some (
  suc result,
  record info {
    file_hash_tree = tree;
    swarm_id = tree.root_hash_string;
    file_binmap = set_have info.file_binmap (pos 0) tree.chunk_range;
  },
)

-- The file with FileName is the one of FileBinmap, which has the same name.
unfoldable pub make_hash_tree : Hasher → PpInfo → Option (ℕ × PpInfo)
make_hash_tree sha info =
    let tree = record info.file_hash_tree {
      merkle_hash_tree_function = info.merkle_hash_tree_function;
      chunk_size = info.chunk_size;
    } in
    if length info.file_name == 0
    then some (0, record info { file_hash_tree = tree })
    else with_made info (make sha tree info.file_binmap.disk)
