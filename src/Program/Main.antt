-- ===== src/Program/Main.antt =====
-- main.cpp: `main`, from the arguments to Start. The Windows sockets and the wait for the thread are
-- not modelled.
use ppsp.Common.{ℕ, zero, suc, true, false, Option, none, some, List, [], ◌∷◌}
use ppsp.Peer.Info.{PpInfo}
use ppsp.Client.{Env, ◌>>=◌}
use ppsp.Server.{PpServer, Memory}
use ppsp.Server.Setup.{
  new, set_port, set_ip_address, set_file_name, set_swarm, set_tracker, set_versions, set_methods,
  set_live_signature_algorithm, set_chunk_size, set_retry_count, set_intervals,
  set_listen_port_option, start,
}
use ppsp.Program.Config.{MetaData, new as new_meta_data, read_config_file}
use ppsp.Program.Arguments.{Arguments, endless, fault, parsed, no_arguments, parse, is_usable}

-- The setters with the arguments and the configuration. `memory` is as in the constructor.
unfoldable pub configured : PpInfo → Arguments → MetaData → Option PpServer
configured memory a m = do
  s ←
      set_swarm a.hash
        (set_file_name a.filename (set_ip_address a.ipaddress (set_port a.port (new memory))))
  some (
      set_listen_port_option a.listen_opt (
        set_intervals m.keep_alive_interval m.pex_req_interval (
          set_retry_count m.retry_count (
            set_chunk_size m.chunk_size (
              set_live_signature_algorithm m.live_signature_algorithm (
                set_methods m.content_integrity_protection_method m.merkle_hash_tree_function
                  m.chunk_addressing_method
                  (set_versions m.version m.min_version
                    (set_tracker a.trackerip a.trackerport s))))))))

-- How the program ends, or what the server is when it has started. `undefined` is undefined behaviour.
pub data Outcome : Type 0 where
  usage hangs undefined failed : Outcome
  serving : PpServer → Outcome

unfoldable pub of_start : Option (ℕ × PpServer) → Outcome
of_start none = undefined
of_start (some (result, s)) = elim result [ zero ↦ failed | suc n ↦ serving s ]

unfoldable pub run : Env → Memory → PpInfo → Option (List ℕ) → Arguments → Outcome
run env memory info config a = elim (is_usable a) [
  | false ↦ usage
  | true ↦ of_start (configured info a (read_config_file config new_meta_data) >>= start env memory)
]

-- `arguments` are those behind the program's name; `config` is the file ppsp.conf.
unfoldable pub main : Env → Memory → PpInfo → Option (List ℕ) → List (List ℕ) → Outcome
main env memory info config [] = usage
main env memory info config (arg ∷ arguments) = elim (parse (arg ∷ arguments) no_arguments) [
  | endless ↦ hangs
  | fault ↦ undefined
  | parsed a ↦ run env memory info config a
]
