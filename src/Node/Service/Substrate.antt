-- ===== src/Node/Service/Substrate.antt =====
-- node/src/service.rs: what it takes from Substrate's crates, the configuration that it is given, and
-- what it hands to them.
use substrate_aggregator.Prelude.{ℕ, Option, Bool, List, ◌⊎◌}

-- The crates' types. `Others` is what only the crates read of a configuration, and `Work` is a future
-- that a task runs.
pub record Kinds : Type 1 where
  pub ServiceError : Type 0
  pub Others : Type 0
  pub ChainSpec : Type 0
  pub Endpoint : Type 0
  pub Protocol : Type 0
  pub TelemetryWorker : Type 0
  pub Telemetry : Type 0
  pub Client : Type 0
  pub Backend : Type 0
  pub KeystoreContainer : Type 0
  pub Keystore : Type 0
  pub SelectChain : Type 0
  pub TransactionPool : Type 0
  pub BlockImport : Type 0
  pub LinkHalf : Type 0
  pub SlotDuration : Type 0
  pub ImportQueue : Type 0
  pub Hash : Type 0
  pub WarpSync : Type 0
  pub Network : Type 0
  pub SystemRpcTx : Type 0
  pub NetworkStarter : Type 0
  pub RpcHandlers : Type 0
  pub Work : Type 0

module _ (t : Kinds) where
  -- The fields of `Configuration` that the service reads.
  pub record Configuration : Type 0 where
    pub keystore_remote : Option (List ℕ)
    pub telemetry_endpoints : Option (List t.Endpoint)
    pub role_is_authority : Bool
    pub offchain_worker_enabled : Bool
    pub force_authoring : Bool
    pub disable_grandpa : Bool
    pub node_name : List ℕ
    pub extra_sets : List t.Protocol
    pub chain_spec : t.ChainSpec
    pub others : t.Others

  -- What `new_full_parts` gives.
  pub record Parts : Type 0 where
    pub client : t.Client
    pub backend : t.Backend
    pub keystore_container : t.KeystoreContainer

  pub record NetworkParams : Type 0 where
    pub config : Configuration
    pub client : t.Client
    pub transaction_pool : t.TransactionPool
    pub import_queue : t.ImportQueue
    pub warp_sync : t.WarpSync

  -- What `build_network` gives.
  pub record NetworkParts : Type 0 where
    pub network : t.Network
    pub system_rpc_tx : t.SystemRpcTx
    pub network_starter : t.NetworkStarter

  pub record SpawnTasksParams : Type 0 where
    pub config : Configuration
    pub network : t.Network
    pub client : t.Client
    pub keystore : t.Keystore
    pub transaction_pool : t.TransactionPool
    pub backend : t.Backend
    pub system_rpc_tx : t.SystemRpcTx
    pub telemetry : Option t.Telemetry

  -- The portion of a slot is a numerator and a denominator.
  pub record StartAuraParams : Type 0 where
    pub client : t.Client
    pub select_chain : t.SelectChain
    pub block_import : t.BlockImport
    pub transaction_pool : t.TransactionPool
    pub force_authoring : Bool
    pub block_proposal_slot_portion : ℕ × ℕ
    pub keystore : t.Keystore
    pub network : t.Network
    pub telemetry : Option t.Telemetry

  pub record GrandpaParams : Type 0 where
    pub gossip_duration_millis : ℕ
    pub justification_period : ℕ
    pub name : Option (List ℕ)
    pub observer_enabled : Bool
    pub keystore : Option t.Keystore
    pub local_role_is_authority : Bool
    pub telemetry : Option t.Telemetry
    pub protocol_name : t.Protocol
    pub link : t.LinkHalf
    pub network : t.Network

  -- A task that the service spawns.
  pub record Task : Type 0 where
    pub name : List ℕ
    pub group : Option (List ℕ)
    pub essential : Bool
    pub blocking : Bool
    pub work : t.Work

  -- What is started, by the service or for it.
  pub data Started : Type 0 where
    task : Task → Started
    offchain_workers : t.Client → t.Network → Started
    rpc_tasks : t.RpcHandlers → Started
    network_started : t.NetworkStarter → Started

  -- The crates' functions. Those that may fail give an error or a result.
  pub record Crates : Type 0 where
    pub other : List ℕ → t.ServiceError
    pub new_worker : ℕ → t.ServiceError ⊎ t.TelemetryWorker
    pub new_telemetry : t.TelemetryWorker → List t.Endpoint → t.Telemetry
    pub run_worker : t.TelemetryWorker → t.Work
    pub new_full_parts : Configuration → Option t.Telemetry → t.ServiceError ⊎ Parts
    pub longest_chain : t.Backend → t.SelectChain
    pub new_pool : Configuration → Bool → t.Client → t.TransactionPool
    pub block_import :
        t.Client
        → t.SelectChain
        → Option t.Telemetry
        → t.ServiceError ⊎ (t.BlockImport × t.LinkHalf)
    pub slot_duration : t.Client → t.ServiceError ⊎ t.SlotDuration
    pub import_queue :
        t.BlockImport
        → t.Client
        → t.SlotDuration
        → Option t.Telemetry
        → t.ServiceError ⊎ t.ImportQueue
    pub set_remote_keystore : t.KeystoreContainer → t.Keystore → t.KeystoreContainer
    pub sync_keystore : t.KeystoreContainer → t.Keystore
    pub genesis_hash : t.Client → Option t.Hash
    pub protocol_standard_name : t.Hash → t.ChainSpec → t.Protocol
    pub warp_sync : t.Backend → t.LinkHalf → t.WarpSync
    pub build_network : NetworkParams → t.ServiceError ⊎ NetworkParts
    pub spawn_tasks : SpawnTasksParams → t.ServiceError ⊎ t.RpcHandlers
    pub start_aura : t.SlotDuration → StartAuraParams → t.ServiceError ⊎ t.Work
    pub run_grandpa_voter : GrandpaParams → t.ServiceError ⊎ t.Work
