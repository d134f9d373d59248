-- ===== src/Worker/Command/Examples.antt =====
-- The worker's start-up with a concrete file, and the theorem applied to it.
use terra_worker.Prelude.{[], ◌∷◌, ◌≡◌, refl, arith}
use terra_worker.Go.Outcome.{ok, err, message}
use terra_worker.Go.Text.Parts.{join}
use terra_worker.Worker.Command.{Config, no_config, Sources, Settings, start_up}
use terra_worker.Worker.Command.FileOnly.{start_up-join}

abbrev cfg : Config
cfg = record no_config {
  address = "10.0.0.7";
  port = "3000";
  http_port = "8087";
  managers = "m1,m2";
  terra_rpc_addr = "http://localhost:26657";
}

-- a file with that configuration, and an environment without the variables that are needed
abbrev sources : Sources
sources = record {
  read_file = λ path. ok "{\"terra_rpc_addr\":\"http://localhost:26657\"}";
  unmarshal = λ bytes config. ok cfg;
  process = λ config. err (message "required key TERRA_RPC_ADDR missing value");
}

start_up-join_example :
    (s : Settings) × (start_up sources "config.json" ≡ ok s)
    × (s.managers ≡ "m1/client_ping" ∷ "m2/client_ping" ∷ [])
    × (s.worker_address ≡ "10.0.0.7:3000")
    × (s.grpc_listens ≡ "0.0.0.0:3000")
    × (s.http_listens ≡ "0.0.0.0:8087")
unfolding join
start_up-join_example =
    start_up-join sources "config.json" _ cfg "m1" ("m2" ∷ []) refl refl refl refl refl
      ((omega arith, (omega arith, tt)), ((omega arith, (omega arith, tt)), tt))
