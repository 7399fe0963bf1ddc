-- ===== src/Node/Service.antt =====
-- node/src/service.rs: how the node is put together and started, and in which order. What Substrate's
-- own crates do is a parameter; the closures that they are given are told apart by what they capture.
pub mod Substrate
pub mod Wanted
pub mod Starts
use substrate_aggregator.Prelude.{
  ℕ, Option, none, some, Bool, true, false, not, List, [], ◌∷◌, ◌++◌, if◌then◌else◌, ◌⊎◌, inl, inr,
  codes,
}
use substrate_aggregator.Node.Service.Substrate.{
  Kinds, Crates, Configuration, Started, task, offchain_workers, rpc_tasks, network_started,
  StartAuraParams, GrandpaParams,
}

-- A step of the start: a value, an error, or a panic.
pub data Launch (t : Kinds) (R : Type 0) : Type 0 where
  done : R → Launch t R
  failed : t.ServiceError → Launch t R
  panicked : Launch t R

infixl 5 ◌>>=◌
abbrev pub ◌>>=◌ : {t : Kinds} {R S : Type 0} → Launch t R → (R → Launch t S) → Launch t S
done r >>= f = f r
failed e >>= f = failed e
panicked >>= f = panicked

-- `?`
abbrev pub ask : {t : Kinds} {R : Type 0} → t.ServiceError ⊎ R → Launch t R
ask (inl e) = failed e
ask (inr r) = done r

-- `expect` and `unwrap`
abbrev pub expect : {t : Kinds} {R : Type 0} → Option R → Launch t R
expect none = panicked
expect (some r) = done r

pub record PartialComponents (t : Kinds) : Type 0 where
  pub client : t.Client
  pub backend : t.Backend
  pub task_manager : List (Started t)
  pub import_queue : t.ImportQueue
  pub keystore_container : t.KeystoreContainer
  pub select_chain : t.SelectChain
  pub transaction_pool : t.TransactionPool
  pub block_import : t.BlockImport
  pub grandpa_link : t.LinkHalf
  pub telemetry : Option t.Telemetry

module _ (t : Kinds) (k : Crates t) where
  -- The telemetry, if endpoints are given and there are any.
  unfoldable pub new_telemetry :
      Option (List t.Endpoint) → Launch t (Option (t.TelemetryWorker × t.Telemetry))
  new_telemetry none = done none
  new_telemetry (some []) = done none
  new_telemetry (some (endpoint ∷ endpoints)) = ask (k.new_worker 16) >>= λ worker.
      done (some (worker, k.new_telemetry worker (endpoint ∷ endpoints)))

  -- The worker of the telemetry is spawned, and the telemetry is kept.
  abbrev pub telemetry_tasks : Option (t.TelemetryWorker × t.Telemetry) → List (Started t)
  telemetry_tasks none = []
  telemetry_tasks (some (worker, telemetry)) =
      task (record {
        name = codes "telemetry";
        group = none;
        essential = false;
        blocking = false;
        work = k.run_worker worker;
      })
      ∷ []

  abbrev pub kept_telemetry : Option (t.TelemetryWorker × t.Telemetry) → Option t.Telemetry
  kept_telemetry none = none
  kept_telemetry (some (worker, telemetry)) = some telemetry

  -- The components after the check of the keystore.
  unfoldable pub assemble : Configuration t → Launch t (PartialComponents t)
  assemble config = new_telemetry config.telemetry_endpoints >>= λ started.
      let telemetry = kept_telemetry started in
      ask (k.new_full_parts config telemetry) >>= λ parts.
      let select_chain = k.longest_chain parts.backend in
      let transaction_pool = k.new_pool config config.role_is_authority parts.client in
      ask (k.block_import parts.client select_chain telemetry)
      >>= λ (grandpa_block_import, grandpa_link).
          ask (k.slot_duration parts.client) >>= λ slot_duration.
          ask (k.import_queue grandpa_block_import parts.client slot_duration telemetry)
          >>= λ import_queue. done (record {
            client = parts.client;
            backend = parts.backend;
            task_manager = telemetry_tasks started;
            import_queue = import_queue;
            keystore_container = parts.keystore_container;
            select_chain = select_chain;
            transaction_pool = transaction_pool;
            block_import = grandpa_block_import;
            grandpa_link = grandpa_link;
            telemetry = telemetry;
          })

  -- The early return for a remote keystore, and the rest otherwise.
  abbrev pub without_remote : {R : Type 0} → Option (List ℕ) → Launch t R → Launch t R
  without_remote (some url) rest = failed (k.other (codes "Remote Keystores are not supported."))
  without_remote none rest = rest

  unfoldable pub new_partial : Configuration t → Launch t (PartialComponents t)
  new_partial config = without_remote config.keystore_remote (assemble config)

  -- It is not there yet.
  unfoldable pub remote_keystore : List ℕ → List ℕ ⊎ t.Keystore
  remote_keystore url = inl (codes "Remote Keystore not supported.")

  unfoldable pub hook_up_keystore :
      Option (List ℕ) → t.KeystoreContainer → Launch t t.KeystoreContainer
  hook_up_keystore none container = done container
  hook_up_keystore (some url) container = elim (remote_keystore url) [
    | inr keystore ↦ done (k.set_remote_keystore container keystore)
    | inl e ↦
        failed (k.other (codes "Error hooking up remote keystore for " ++ url ++ codes ": " ++ e))
  ]

  -- The block authoring of an authority. A failure of it takes down the service.
  unfoldable pub author : Bool → StartAuraParams t → Launch t (List (Started t))
  author false params = done []
  author true params = ask (k.slot_duration params.client) >>= λ slot_duration.
      ask (k.start_aura slot_duration params) >>= λ aura. done (
        task (record {
          name = codes "aura";
          group = some (codes "block-authoring");
          essential = true;
          blocking = true;
          work = aura;
        })
        ∷ [])

  -- The voter of GRANDPA, unless it is disabled.
  unfoldable pub vote : (enable_grandpa : Bool) → GrandpaParams t → Launch t (List (Started t))
  vote false params = done []
  vote true params = ask (k.run_grandpa_voter params) >>= λ voter. done (
      task (record {
        name = codes "grandpa-voter";
        group = none;
        essential = true;
        blocking = true;
        work = voter;
      })
      ∷ [])

  abbrev pub workers : Configuration t → t.Client → t.Network → List (Started t)
  workers config client network =
      if config.offchain_worker_enabled then offchain_workers client network ∷ [] else []

  -- `new_full` from the partial components on. The result is the task manager, with all that was started.
  unfoldable pub start : Configuration t → PartialComponents t → Launch t (List (Started t))
  start config parts =
      hook_up_keystore config.keystore_remote parts.keystore_container >>= λ keystore_container.
      expect (k.genesis_hash parts.client) >>= λ genesis.
      let grandpa_protocol_name = k.protocol_standard_name genesis config.chain_spec in
      let networked = record config {
        extra_sets = config.extra_sets ++ grandpa_protocol_name ∷ [];
      } in
      ask (
        k.build_network (record {
          config = networked;
          client = parts.client;
          transaction_pool = parts.transaction_pool;
          import_queue = parts.import_queue;
          warp_sync = k.warp_sync parts.backend parts.grandpa_link;
        }))
      >>= λ network.
          let keystore = k.sync_keystore keystore_container in
          ask (
            k.spawn_tasks (record {
              config = networked;
              network = network.network;
              client = parts.client;
              keystore = keystore;
              transaction_pool = parts.transaction_pool;
              backend = parts.backend;
              system_rpc_tx = network.system_rpc_tx;
              telemetry = parts.telemetry;
            }))
          >>= λ rpc.
              author config.role_is_authority (record {
                client = parts.client;
                select_chain = parts.select_chain;
                block_import = parts.block_import;
                transaction_pool = parts.transaction_pool;
                force_authoring = config.force_authoring;
                block_proposal_slot_portion = (2, 3);
                keystore = keystore;
                network = network.network;
                telemetry = parts.telemetry;
              })
              >>= λ authoring.
                  vote (not config.disable_grandpa) (record {
                    gossip_duration_millis = 333;
                    justification_period = 512;
                    name = some config.node_name;
                    observer_enabled = false;
                    keystore = if config.role_is_authority then some keystore else none;
                    local_role_is_authority = config.role_is_authority;
                    telemetry = parts.telemetry;
                    protocol_name = grandpa_protocol_name;
                    link = parts.grandpa_link;
                    network = network.network;
                  })
                  >>= λ voting. done (
                      parts.task_manager
                      ++ (workers config parts.client network.network
                          ++ (rpc_tasks rpc
                              ∷ (authoring
                                  ++ (voting ++ (network_started network.network_starter ∷ []))))))

  unfoldable pub new_full : Configuration t → Launch t (List (Started t))
  new_full config = new_partial config >>= start config
