-- ===== src/Program/Launch.antt =====
-- From usable arguments to Start.
use ppsp.Common.{
  Gives, Gives-some, Gives-none, ℕ, ◌*◌, ◌^◌, ◌≤◌, ◌<◌, ◌≡◌, refl, ◌⊎◌, inl, inr, true, false,
  Option, none, some, List, [], ◌∷◌, arith, ap, ◌∙◌, length, Bool-cases, ltb,
}
use ppsp.Common.Int.{pos, ◌<ℤ◌}
use ppsp.Util.Hex.{get_hash_from_string, scan_rounds}
use ppsp.Binmap.Storage.{set_file_name as set_binmap_name}
use ppsp.Tree.Sha.{HasDigests}
use ppsp.Tree.State.{set_root_hash_string}
use ppsp.Peer.Info.{PpInfo, set_name, set_swarm_id, new as new_info}
use ppsp.Client.{Env, ◌>>=◌}
use ppsp.Server.{PpServer, Memory}
use ppsp.Server.Setup.{
  new, set_port, set_ip_address, set_file_name, set_swarm, set_tracker, set_versions, set_methods,
  set_live_signature_algorithm, set_chunk_size, set_retry_count, set_intervals,
  set_listen_port_option, set_supported, start, has_tracker, has_file,
}
use ppsp.Server.Seeding.{IsSeeding, start-IsSeeding}
use ppsp.Program.Config.{MetaData, new as new_meta_data, atoi, read_config_file}
use ppsp.Program.Arguments.{
  Arguments, no_arguments, parsed, split_colon, parse, set_value, set_listen, is_usable,
}
use ppsp.Program.Main.{serving, configured, of_start, run, main}

-- What the setters leave in the server.
record IsConfigured (a : Arguments) (m : MetaData) (s : PpServer) : Type 0 where
  port : s.info.port ≡ a.port
  file_name : s.info.file_name ≡ a.filename
  swarm_id : s.info.swarm_id ≡ a.hash
  chunk_size : s.info.chunk_size ≡ m.chunk_size
  tracker_ip_address : s.tracker_ip_address ≡ a.trackerip
  tracker_port : s.tracker_port ≡ a.trackerport
  alone : s.clients ≡ []

-- A chain of results of which only the first one can be missing.
Gives-chain :
    {A B C D : Type 0} (P : D → Type 0) (f : A → B) (g : B → C) (k : C → D) (o : Option A)
    → ((a : A) → P (k (g (f a))))
    → Gives P
        ((elim o [ none ↦ none | some a ↦ some (f a) ]) >>= (λ b. some (g b)) >>= (λ c. some (k c)))
Gives-chain P f g k none h = Gives-none P
Gives-chain P f g k (some a) h = Gives-some P _ (h a)

configured-IsConfigured :
    (memory : PpInfo) (a : Arguments) (m : MetaData)
    → Gives (IsConfigured a m) (configured memory a m)
unfolding configured set_swarm set_swarm_id set_port set_ip_address set_file_name set_tracker
    set_versions set_methods set_live_signature_algorithm set_chunk_size set_retry_count
    set_intervals set_listen_port_option set_name new set_supported
configured-IsConfigured memory a m =
    Gives-chain (IsConfigured a m) _ _ _ (set_root_hash_string _ a.hash) (λ tree. record {
      port = refl;
      file_name = refl;
      swarm_id = refl;
      chunk_size = refl;
      tracker_ip_address = refl;
      tracker_port = refl;
      alone = refl;
    })

-- The checks of `main` are as strong as those of Start.
tracker_checked :
    (a : Arguments) (m : MetaData) (s : PpServer)
    → IsConfigured a m s
    → is_usable a ≡ true
    → ltb 0 (length a.trackerip) ≡ true
    → has_tracker s ≡ true
unfolding is_usable
tracker_checked a m s k u t =
    rw (k.tracker_ip_address, k.swarm_id, k.tracker_port, k.port) (ground (arith, u, t))

file_checked :
    (a : Arguments) (m : MetaData) (s : PpServer)
    → IsConfigured a m s
    → is_usable a ≡ true
    → ltb 0 (length a.trackerip) ≡ false
    → (has_tracker s ≡ false) × (has_file s ≡ true)
unfolding is_usable
file_checked a m s k u t =
    (rw (k.tracker_ip_address, t) refl, rw (k.file_name, k.port) (ground (arith, u, t)))

-- For arguments that `main` does not answer with its usage, Start finds a tracker or a file in what
-- `main` gives to the server, and so does not refuse by a check of its own.
pub configured_accepted :
    (memory : PpInfo) (a : Arguments) (m : MetaData) (s : PpServer)
    → is_usable a ≡ true
    → configured memory a m ≡ some s
    → (has_tracker s ≡ true) ⊎ (has_tracker s ≡ false) × (has_file s ≡ true)
unfolding Gives
configured_accepted memory a m s u e =
    let k = configured-IsConfigured memory a m s e in
    elim (Bool-cases (ltb 0 (length a.trackerip))) [
      | inl t ↦ inl (tracker_checked a m s k u t)
      | inr t ↦ inr (file_checked a m s k u t)
    ]

-- With usable arguments and no tracker the program comes to serve the file.
run-IsSeeding :
    (env : Env) (memory : Memory) (info : PpInfo) (config : Option (List ℕ)) (a : Arguments)
    (s : PpServer) (c : ℕ) (bytes : List ℕ)
    → HasDigests env.sha
    → is_usable a ≡ true
    → ltb 0 (length a.trackerip) ≡ false
    → configured info a (read_config_file config new_meta_data) ≡ some s
    → s.info.file_binmap.disk ≡ some bytes
    → (read_config_file config new_meta_data).chunk_size ≡ pos c
    → 0 < c
    → c < length bytes
    → length bytes ≤ c * 2 ^ 29
    → (s' : PpServer) × (run env memory info config a ≡ serving s') × IsSeeding env c bytes s s'
unfolding run of_start Gives
run-IsSeeding env memory info config a s c bytes digests u t e disk size positive longer short =
    let k = configured-IsConfigured info a (read_config_file config new_meta_data) s e in
    let (no_tracker, file) = file_checked a (read_config_file config new_meta_data) s k u t in
    let (s', q, seeding) =
      start-IsSeeding env memory s c bytes digests no_tracker file k.alone disk
        (k.chunk_size ∙ size) positive longer short in
    (s', rw (run, u) (ap (λ o. of_start (o >>= start env memory)) e ∙ ap of_start q), seeding)

-- What `-f name -l port` sets.
abbrev pub file_arguments : List ℕ → List ℕ → Arguments
file_arguments name port = record no_arguments { filename = name; port = atoi port }

abbrev pub file_command : List ℕ → List ℕ → List (List ℕ)
file_command name port = (45 ∷ 102 ∷ []) ∷ name ∷ (45 ∷ 108 ∷ []) ∷ port ∷ []

listen_plain :
    (port : List ℕ) (a : Arguments)
    → split_colon port ≡ none
    → set_listen port a ≡ record a { port = atoi port }
unfolding set_listen
listen_plain port a e = rw (set_listen, e) refl

file_parsed :
    (name port : List ℕ)
    → split_colon port ≡ none
    → parse (file_command name port) no_arguments ≡ parsed (file_arguments name port)
unfolding parse set_value
file_parsed name port e = ap parsed (listen_plain port (record no_arguments { filename = name }) e)

file_usable :
    (name port : List ℕ)
    → 0 < length name
    → pos 0 <ℤ atoi port
    → is_usable (file_arguments name port) ≡ true
unfolding is_usable
file_usable name port n p = ground (arith, n, p)

-- Without a swarm identifier the setters give a server with the same file.
file_configured :
    (memory : PpInfo) (name port : List ℕ) (m : MetaData)
    → (s : PpServer) × (configured memory (file_arguments name port) m ≡ some s)
      × (s.info.file_binmap.disk ≡ memory.file_binmap.disk)
unfolding configured set_swarm set_swarm_id set_port set_ip_address set_file_name set_tracker
    set_versions set_methods set_live_signature_algorithm set_chunk_size set_retry_count
    set_intervals set_listen_port_option set_name set_supported new set_root_hash_string
    get_hash_from_string set_binmap_name new_info scan_rounds
file_configured memory name port m = (_, refl, refl)

command_run :
    (env : Env) (memory : Memory) (info : PpInfo) (config : Option (List ℕ)) (name port : List ℕ)
    → split_colon port ≡ none
    → main env memory info config (file_command name port)
      ≡ run env memory info config (file_arguments name port)
unfolding main
command_run env memory info config name port p = rw (main, file_parsed name port p) refl

-- The command `-f name -l port`, where `name` is not empty and `port` has no colon and begins with
-- a number above 0, and a file with more bytes than the configuration's chunk size, which is 1 or
-- more, and of 2 ^ 29 chunks at most: the program comes to serve from the server that the setters
-- made of the arguments and the configuration, as a seeder with the Merkle tree of the file,
-- RootHashString for the content's identifier, and chunk 0 to the last one put in by SetHave.
pub main-IsSeeding :
    (env : Env) (memory : Memory) (info : PpInfo) (config : Option (List ℕ)) (name port : List ℕ)
    (c : ℕ) (bytes : List ℕ)
    → HasDigests env.sha
    → 0 < length name
    → split_colon port ≡ none
    → pos 0 <ℤ atoi port
    → info.file_binmap.disk ≡ some bytes
    → (read_config_file config new_meta_data).chunk_size ≡ pos c
    → 0 < c
    → c < length bytes
    → length bytes ≤ c * 2 ^ 29
    → (s : PpServer) × (s' : PpServer) × (configured info
          (file_arguments name port)
          (read_config_file config new_meta_data)
        ≡ some s)
      × (main env memory info config (file_command name port) ≡ serving s')
      × IsSeeding env c bytes s s'
unfolding main
main-IsSeeding env memory info config name port c bytes digests n p g disk size positive longer
      short =
    let (s, e, kept) = file_configured info name port (read_config_file config new_meta_data) in
    let (s', q, seeding) =
      run-IsSeeding env memory info config (file_arguments name port) s c bytes digests
        (file_usable name port n g) refl e (kept ∙ disk) size positive longer short in
    (s, s', e, command_run env memory info config name port p ∙ q, seeding)
