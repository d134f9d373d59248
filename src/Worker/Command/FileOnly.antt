-- ===== src/Worker/Command/FileOnly.antt =====
-- A configuration from a file, which neither the environment nor a default completes.
use Prim.Native.String.{◌++◌ as append}
use terra_worker.Prelude.{String, false, List, ◌∷◌, ◌≡◌, refl, map, str_eq, All, if◌then◌else◌}
use terra_worker.Go.Outcome.{ok}
use terra_worker.Go.Text.Parts.{Lacks, join, split-join}
use terra_worker.Worker.Command.{
  Config, no_config, Sources, from_file, init_config, Settings, unless_empty, settings, start_up,
}

-- With a configuration file that gives an address of the node, whatever else it gives, and
-- whatever the environment holds: where its text of managers is made of one or more names without
-- a comma, joined with commas, the worker has the manager "/client_ping" behind each of these
-- names, in order; it gives them its hostname, or its address where there is none, with its port,
-- and listens on that port for gRPC and on the HTTP port for HTTP.
pub start_up-join :
    (sources : Sources) (path bytes : String) (cfg : Config) (manager : String)
    (managers : List String)
    → str_eq path "" ≡ false
    → sources.read_file path ≡ ok bytes
    → sources.unmarshal bytes no_config ≡ ok cfg
    → str_eq cfg.terra_rpc_addr "" ≡ false
    → cfg.managers ≡ join "," (manager ∷ managers)
    → All (Lacks b',') (manager ∷ managers)
    → (s : Settings) × (start_up sources path ≡ ok s)
      × (s.managers ≡ map (λ m. append m "/client_ping") (manager ∷ managers))
      × (s.worker_address
          ≡ append
              (append (if str_eq cfg.hostname "" then cfg.address else cfg.hostname) ":")
              cfg.port)
      × (s.grpc_listens ≡ append "0.0.0.0:" cfg.port)
      × (s.http_listens ≡ append "0.0.0.0:" cfg.http_port)
unfolding start_up init_config from_file settings unless_empty
start_up-join sources path bytes cfg manager managers named found read given joined apart = (
  settings cfg,
  rw (named, found, read, given) refl,
  rw (joined, split-join "," manager managers apart) refl,
  refl,
  refl,
  refl,
)
