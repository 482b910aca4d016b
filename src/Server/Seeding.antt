-- ===== src/Server/Seeding.antt =====
-- Start of a peer that has the file.
use ppsp.Common.{
  ℕ, ◌*◌, ◌^◌, ◌≤◌, ◌<◌, ◌≡◌, refl, true, false, Option, some, List, [], arith, ap, ◌∙◌, length,
  ◌==◌, branch_false,
}
use ppsp.Common.Int.{pos}
use ppsp.Binmap.{set_have}
use ppsp.Tree.Sha.{HasDigests}
use ppsp.Tree.State.{HashTree}
use ppsp.Tree.Make.{make}
use ppsp.Tree.Make.Built.{IsMade, make-IsMade}
use ppsp.Peer.Info.{PpInfo, make_hash_tree, with_made}
use ppsp.Client.{Env, ◌>>=◌}
use ppsp.Server.{PpServer, Memory}
use ppsp.Server.Setup.{start_each, run, has_tracker, has_file, with_file, seed, start}

-- The server has the tree of the file and its root as the content's identifier, and all chunks.
pub record IsSeeding (env : Env) (c : ℕ) (bytes : List ℕ) (s s' : PpServer) : Type 0 where
  pub depth : ℕ
  pub last : ℕ
  pub seeder : s'.info.is_seeder ≡ true
  pub tree :
      IsMade env.sha s.info.merkle_hash_tree_function c bytes s.info.file_hash_tree.integrity_map
        s'.info.file_hash_tree depth last
  pub identified : s'.info.swarm_id ≡ s'.info.file_hash_tree.root_hash_string
  pub marked : s'.info.file_binmap ≡ set_have s.info.file_binmap (pos 0) (pos last)
  pub silent : s'.sent ≡ s.sent

module _ (env : Env) (memory : Memory) (s : PpServer) (c : ℕ) (bytes : List ℕ)
    (digests : HasDigests env.sha) (tracker : has_tracker s ≡ false) (file : has_file s ≡ true)
    (alone : s.clients ≡ []) (stored : s.info.file_binmap.disk ≡ some bytes)
    (size : s.info.chunk_size ≡ pos c) (positive : 0 < c) (longer : c < length bytes)
    (short : length bytes ≤ c * 2 ^ 29) where
  seeder_info : PpInfo
  seeder_info = record s.info { is_seeder = true }

  before : HashTree
  before = record s.info.file_hash_tree {
    merkle_hash_tree_function = s.info.merkle_hash_tree_function;
    chunk_size = s.info.chunk_size;
  }

  made_info : HashTree → PpInfo
  made_info t = record seeder_info {
    file_hash_tree = t;
    swarm_id = t.root_hash_string;
    file_binmap = set_have s.info.file_binmap (pos 0) t.chunk_range;
  }

  tree_made :
      (t : HashTree)
      → make env.sha before (some bytes) ≡ some (1, t)
      → make_hash_tree env.sha seeder_info ≡ some (1, made_info t)
  unfolding make_hash_tree with_made seeder_info before made_info
  tree_made t q =
      let named : (length s.info.file_name == 0) ≡ false = ground (arith, file) in
      branch_false _ _ named
      ∙ ap (λ x. with_made seeder_info (make env.sha before x)) stored
      ∙ ap (with_made seeder_info) q

  alone_runs :
      (info : PpInfo)
      → run env (record s { info = info }) ≡ some (1, record s { info = info; clients = [] })
  unfolding run start_each
  alone_runs info =
      ap (λ x. start_each env x (record s { info = info; clients = [] }) >>= (λ t. some (1, t)))
        alone

  IsStarted : Option (ℕ × PpServer) → Type 0
  IsStarted o = (s' : PpServer) × (o ≡ some (1, s')) × IsSeeding env c bytes s s'

  seeded : IsStarted (start env memory s)
  unfolding start seed with_file IsStarted before made_info seeder_info
  seeded =
      let (t, d, last, q, made) =
        make-IsMade env.sha before c bytes digests size positive longer short in
      let info = made_info t in
      (
        record s { info = info; clients = [] },
        rw (start, tracker, file) (ap (with_file env s) (tree_made t q) ∙ alone_runs info),
        record {
          depth = d;
          last = last;
          seeder = refl;
          tree = made;
          identified = refl;
          marked = ap (set_have s.info.file_binmap (pos 0)) made.ranged;
          silent = refl;
        },
      )

-- Start of a server that has no clients and no tracker, but a port and the name of a file with more
-- bytes than ChunkSize, which is 1 or more, and of 2 ^ 29 chunks at most, returns 1: the server is a
-- seeder with the Merkle tree of the file, the content's identifier is RootHashString, SetHave has
-- put in chunk 0 to the last one, and no datagram is sent.
pub start-IsSeeding :
    (env : Env) (memory : Memory) (s : PpServer) (c : ℕ) (bytes : List ℕ)
    → HasDigests env.sha
    → has_tracker s ≡ false
    → has_file s ≡ true
    → s.clients ≡ []
    → s.info.file_binmap.disk ≡ some bytes
    → s.info.chunk_size ≡ pos c
    → 0 < c
    → c < length bytes
    → length bytes ≤ c * 2 ^ 29
    → (s' : PpServer) × (start env memory s ≡ some (1, s')) × IsSeeding env c bytes s s'
unfolding IsStarted
start-IsSeeding env memory s c bytes digests tracker file alone stored size positive longer short =
    seeded env memory s c bytes digests tracker file alone stored size positive longer short
