-- ===== src/Tests/Services.antt =====
-- The node with crates that always succeed: the things that they make are numbers, or nothing.
use substrate_aggregator.Prelude.{
  ℕ, ◌≡◌, refl, none, some, true, false, List, [], ◌∷◌, map, inl, inr, codes, returns,
}
use substrate_aggregator.Node.Service.Substrate.{Kinds, Crates, Configuration, Started}
use substrate_aggregator.Node.Service.{done, new_full}
use substrate_aggregator.Node.Service.Starts.{Succeeds, new_full-wanted}
use substrate_aggregator.Node.Service.Wanted.{named, the_rpc_tasks, the_network, outline}
use substrate_aggregator.Node.Command.{CommandKinds, check_block, Cli, Commands, run}
use substrate_aggregator.Node.Command.Refused.{unsupported, run-remote_keystore}

abbrev kinds : Kinds
kinds = record {
  ServiceError = List ℕ;
  Others = Unit {0};
  ChainSpec = Unit {0};
  Endpoint = ℕ;
  Protocol = ℕ;
  TelemetryWorker = ℕ;
  Telemetry = ℕ;
  Client = Unit {0};
  Backend = Unit {0};
  KeystoreContainer = Unit {0};
  Keystore = Unit {0};
  SelectChain = Unit {0};
  TransactionPool = Unit {0};
  BlockImport = Unit {0};
  LinkHalf = Unit {0};
  SlotDuration = ℕ;
  ImportQueue = Unit {0};
  Hash = ℕ;
  WarpSync = Unit {0};
  Network = Unit {0};
  SystemRpcTx = Unit {0};
  NetworkStarter = Unit {0};
  RpcHandlers = Unit {0};
  Work = ℕ;
}

abbrev crates : Crates kinds
crates = record {
  other = λ message. message;
  new_worker = λ n. inr n;
  new_telemetry = λ worker endpoints. worker;
  run_worker = λ worker. worker;
  new_full_parts =
      λ config telemetry. inr (record { client = tt; backend = tt; keystore_container = tt });
  longest_chain = λ backend. tt;
  new_pool = λ config authority client. tt;
  block_import = λ client chain telemetry. inr (tt, tt);
  slot_duration = λ client. inr 6000;
  import_queue = λ import client d telemetry. inr tt;
  set_remote_keystore = λ container keystore. container;
  sync_keystore = λ container. tt;
  genesis_hash = λ client. some 0;
  protocol_standard_name = λ hash spec. hash;
  warp_sync = λ backend link. tt;
  build_network = λ params. inr (record { network = tt; system_rpc_tx = tt; network_starter = tt });
  spawn_tasks = λ params. inr tt;
  start_aura = λ d params. inr 1;
  run_grandpa_voter = λ params. inr 2;
}

crates-Succeeds : Succeeds kinds crates
crates-Succeeds = record {
  new_worker = λ n. (_, refl);
  new_full_parts = λ config telemetry. (_, refl);
  block_import = λ client chain telemetry. (_, refl);
  slot_duration = λ client. (_, refl);
  import_queue = λ import client d telemetry. (_, refl);
  genesis_hash = λ client. (_, refl);
  build_network = λ params. (_, refl);
  spawn_tasks = λ params. (_, refl);
  start_aura = λ d params. (_, refl);
  run_grandpa_voter = λ params. (_, refl);
}

-- An authority that reports to one endpoint, does not run off-chain workers, and votes.
abbrev validator : Configuration kinds
validator = record {
  keystore_remote = none;
  telemetry_endpoints = some (7 ∷ []);
  role_is_authority = true;
  offchain_worker_enabled = false;
  force_authoring = false;
  disable_grandpa = false;
  node_name = codes "validator";
  extra_sets = [];
  chain_spec = tt;
  others = tt;
}

new_full-wanted_example :
    (started : List (Started kinds)) × (new_full kinds crates validator ≡ done started)
    × (map outline started
        ≡ named (codes "telemetry") false
          ∷ the_rpc_tasks
          ∷ named (codes "aura") true
          ∷ named (codes "grandpa-voter") true
          ∷ the_network
          ∷ [])
new_full-wanted_example = new_full-wanted kinds crates validator crates-Succeeds refl

abbrev command_kinds : CommandKinds
command_kinds = record {
  Error = List ℕ;
  Future = ℕ;
  RunCmd = ℕ;
  KeySubcommand = ℕ;
  BuildSpecCmd = ℕ;
  CheckBlockCmd = ℕ;
  ExportBlocksCmd = ℕ;
  ExportStateCmd = ℕ;
  ImportBlocksCmd = ℕ;
  PurgeChainCmd = ℕ;
  RevertCmd = ℕ;
  BenchmarkCmd = ℕ;
}

abbrev remote : Configuration kinds
remote = record validator { keystore_remote = some (codes "http://keys") }

abbrev commands : Commands command_kinds kinds
commands = record {
  from_service = λ e. e;
  input = λ message. message;
  create_runner = λ cli. inr remote;
  run_key = λ cmd cli. inr tt;
  run_build_spec = λ cmd config. inr tt;
  run_check_block = λ cmd client queue. cmd;
  run_export_blocks = λ cmd client config. cmd;
  run_export_state = λ cmd client spec. cmd;
  run_import_blocks = λ cmd client queue. cmd;
  run_purge_chain = λ cmd config. inr tt;
  run_revert = λ cmd client backend. cmd;
  run_benchmark = λ cmd config. inr tt;
  run_future = λ future started. inr tt;
  run_node = λ started. inr tt;
}

abbrev check : Cli command_kinds
check = record { subcommand = some (check_block 5); run = 0 }

run-remote_keystore_example :
    run command_kinds kinds crates commands false check ≡ returns (inl unsupported)
run-remote_keystore_example =
    run-remote_keystore command_kinds kinds crates commands false check remote (codes "http://keys")
      refl refl refl
