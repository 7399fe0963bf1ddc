-- ===== src/Node/Service/Starts.antt =====
-- node/src/service.rs: what `new_full` starts.
use substrate_aggregator.Prelude.{
  ℕ, ◌≡◌, refl, ap, ◌∙◌, Option, none, some, Bool, true, false, not, List, [], ◌∷◌, ◌++◌, map, ◌⊎◌,
  inr, codes,
}
use substrate_aggregator.Node.Service.Substrate.{
  Kinds, Crates, Configuration, Parts, NetworkParams, NetworkParts, SpawnTasksParams,
  StartAuraParams, GrandpaParams, Started, rpc_tasks, network_started,
}
use substrate_aggregator.Node.Service.{
  Launch, done, ◌>>=◌, ask, expect, PartialComponents, new_telemetry, telemetry_tasks, assemble,
  new_partial, without_remote, hook_up_keystore, author, vote, workers, start, new_full,
}
use substrate_aggregator.Node.Service.Wanted.{
  named, the_rpc_tasks, outline, when, has_any, wanted, joined, workers-wanted,
}

-- A step that ends with a result that satisfies `P`.
abbrev pub Ends : {t : Kinds} {R : Type 0} → (R → Type 0) → Launch t R → Type 0
Ends {t} {R} P m = (r : R) × (m ≡ done r) × P r

then_Ends :
    {t : Kinds} {R S : Type 0} {P : R → Type 0} {Q : S → Type 0} {m : Launch t R}
    {f : R → Launch t S}
    → Ends P m
    → ((r : R) → P r → Ends Q (f r))
    → Ends Q (m >>= f)
then_Ends {Q = Q} {f = f} (r, e, p) g = let (s, e', q) = g r p in (s, ap (λ x. x >>= f) e ∙ e', q)

ask-Ends :
    {t : Kinds} {R : Type 0} {x : t.ServiceError ⊎ R}
    → (r : R) × (x ≡ inr r)
    → Ends {t = t} (λ r. Unit) (ask x)
ask-Ends (r, e) = (r, ap ask e, tt)

module _ (t : Kinds) (k : Crates t) where
  -- No call of the crates fails, and there is a genesis block.
  pub record Succeeds : Type 0 where
    pub new_worker : (n : ℕ) → (w : t.TelemetryWorker) × (k.new_worker n ≡ inr w)
    pub new_full_parts :
        (c : Configuration t) (telemetry : Option t.Telemetry)
        → (parts : Parts t) × (k.new_full_parts c telemetry ≡ inr parts)
    pub block_import :
        (client : t.Client) (chain : t.SelectChain) (telemetry : Option t.Telemetry)
        → (imported : t.BlockImport × t.LinkHalf) × (k.block_import client chain telemetry
            ≡ inr imported)
    pub slot_duration :
        (client : t.Client) → (d : t.SlotDuration) × (k.slot_duration client ≡ inr d)
    pub import_queue :
        (import : t.BlockImport) (client : t.Client) (d : t.SlotDuration)
        (telemetry : Option t.Telemetry)
        → (queue : t.ImportQueue) × (k.import_queue import client d telemetry ≡ inr queue)
    pub genesis_hash : (client : t.Client) → (hash : t.Hash) × (k.genesis_hash client ≡ some hash)
    pub build_network :
        (params : NetworkParams t)
        → (network : NetworkParts t) × (k.build_network params ≡ inr network)
    pub spawn_tasks :
        (params : SpawnTasksParams t) → (rpc : t.RpcHandlers) × (k.spawn_tasks params ≡ inr rpc)
    pub start_aura :
        (d : t.SlotDuration) (params : StartAuraParams t)
        → (work : t.Work) × (k.start_aura d params ≡ inr work)
    pub run_grandpa_voter :
        (params : GrandpaParams t) → (work : t.Work) × (k.run_grandpa_voter params ≡ inr work)

  module _ (succeeds : Succeeds) where
    new_telemetry-wanted :
        (endpoints : Option (List t.Endpoint))
        → Ends
            (λ r.
              map outline (telemetry_tasks t k r)
              ≡ when (has_any endpoints) (named (codes "telemetry") false))
            (new_telemetry t k endpoints)
    unfolding new_telemetry
    new_telemetry-wanted none = (none, refl, refl)
    new_telemetry-wanted (some []) = (none, refl, refl)
    new_telemetry-wanted (some (e ∷ es)) =
        let (worker, made) = succeeds.new_worker 16 in
        (some (worker, k.new_telemetry worker (e ∷ es)), rw made refl, refl)

    assemble-wanted :
        (config : Configuration t)
        → Ends
            (λ parts.
              map outline parts.task_manager
              ≡ when (has_any config.telemetry_endpoints) (named (codes "telemetry") false))
            (assemble t k config)
    unfolding assemble
    assemble-wanted config =
        then_Ends (new_telemetry-wanted config.telemetry_endpoints) λ started same.
          then_Ends (ask-Ends (succeeds.new_full_parts config _)) λ parts _.
            then_Ends (ask-Ends (succeeds.block_import parts.client _ _)) λ (import, link) _.
              then_Ends (ask-Ends (succeeds.slot_duration parts.client)) λ d _.
                then_Ends (ask-Ends (succeeds.import_queue import parts.client d _))
                  λ queue _. (_, refl, same)

    author-wanted :
        (authority : Bool) (params : StartAuraParams t)
        → Ends
            (λ started. map outline started ≡ when authority (named (codes "aura") true))
            (author t k authority params)
    unfolding author
    author-wanted false params = ([], refl, refl)
    author-wanted true params =
        then_Ends (ask-Ends (succeeds.slot_duration params.client))
          λ d _. then_Ends (ask-Ends (succeeds.start_aura d params)) λ aura _. (_, refl, refl)

    vote-wanted :
        (enable_grandpa : Bool) (params : GrandpaParams t)
        → Ends
            (λ started.
              map outline started ≡ when enable_grandpa (named (codes "grandpa-voter") true))
            (vote t k enable_grandpa params)
    unfolding vote
    vote-wanted false params = ([], refl, refl)
    vote-wanted true params =
        then_Ends (ask-Ends (succeeds.run_grandpa_voter params)) λ voter _. (_, refl, refl)

    start-wanted :
        (config : Configuration t) (parts : PartialComponents t)
        → config.keystore_remote ≡ none
        → map outline parts.task_manager
          ≡ when (has_any config.telemetry_endpoints) (named (codes "telemetry") false)
        → Ends (λ started. map outline started ≡ wanted config) (start t k config parts)
    unfolding start hook_up_keystore
    start-wanted config parts local same =
        then_Ends {P = λ container. Unit}
          (hook_Ends config.keystore_remote parts.keystore_container local)
          λ container _. then_Ends {P = λ hash. Unit} (hash_Ends parts.client) λ genesis _.
            then_Ends (ask-Ends (succeeds.build_network _)) λ network _.
              then_Ends (ask-Ends (succeeds.spawn_tasks _)) λ rpc _.
                then_Ends (author-wanted config.role_is_authority _) λ authoring authored.
                  then_Ends (vote-wanted (not config.disable_grandpa) _) λ voting voted.
                    let ends : List (Started t) = network_started network.network_starter ∷ [] in
                    let offchain = workers t k config parts.client network.network in
                    (
                      parts.task_manager
                          ++ (offchain ++ (rpc_tasks rpc ∷ (authoring ++ (voting ++ ends)))),
                      refl,
                      joined parts.task_manager
                          (offchain ++ (rpc_tasks rpc ∷ (authoring ++ (voting ++ ends)))) same
                          (joined offchain (rpc_tasks rpc ∷ (authoring ++ (voting ++ ends)))
                            (workers-wanted t config.offchain_worker_enabled parts.client
                              network.network)
                            (ap (λ xs. the_rpc_tasks ∷ xs)
                              (joined authoring (voting ++ ends) authored
                                (joined voting ends voted refl)))),
                    )
      where
        hook_Ends :
            (remote : Option (List ℕ)) (container : t.KeystoreContainer)
            → remote ≡ none
            → Ends (λ c. Unit) (hook_up_keystore t k remote container)
        hook_Ends remote container e = (container, ap (λ r. hook_up_keystore t k r container) e, tt)

        hash_Ends :
            (client : t.Client) → Ends {t = t} (λ hash. Unit) (expect (k.genesis_hash client))
        hash_Ends client = let (hash, e) = succeeds.genesis_hash client in (hash, ap expect e, tt)

  -- Let no remote keystore be configured and no call of the crates fail. Then the service comes up, and
  -- what it starts is what the configuration asks for, in this order: the telemetry if there are
  -- endpoints; the off-chain workers if they are enabled; the RPC; the block authoring, which is
  -- essential, for an authority and nobody else; the voter, which is essential, unless it is disabled;
  -- and the network last.
  pub new_full-wanted :
      (config : Configuration t)
      → Succeeds
      → config.keystore_remote ≡ none
      → (started : List (Started t)) × (new_full t k config ≡ done started)
        × (map outline started ≡ wanted config)
  unfolding new_full new_partial
  new_full-wanted config succeeds local =
      then_Ends (partial_Ends (assemble-wanted succeeds config))
        λ parts same. start-wanted succeeds config parts local same
    where
      partial_Ends :
          {P : PartialComponents t → Type 0}
          → Ends P (assemble t k config)
          → Ends P (new_partial t k config)
      partial_Ends (parts, e, p) =
          (parts, ap (λ r. without_remote t k r (assemble t k config)) local ∙ e, p)
