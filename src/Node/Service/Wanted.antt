-- ===== src/Node/Service/Wanted.antt =====
-- node/src/service.rs: what a configuration asks to be started.
use mathlib.Core.List.{map-append}
use mathlib.Core.Path.{ap₂}
use substrate_aggregator.Prelude.{
  ℕ, ◌≡◌, refl, ◌∙◌, Option, none, some, Bool, true, false, not, List, [], ◌∷◌, ◌++◌, map,
  if◌then◌else◌, codes,
}
use substrate_aggregator.Node.Service.Substrate.{
  Kinds, Configuration, Started, task, offchain_workers, rpc_tasks, network_started,
}

-- A started task by its name, with whether its end takes down the service; or what the crates start.
pub data Outline : Type 0 where
  named : (name : List ℕ) (essential : Bool) → Outline
  the_offchain_workers : Outline
  the_rpc_tasks : Outline
  the_network : Outline

abbrev pub outline : {t : Kinds} → Started t → Outline
outline (task x) = named x.name x.essential
outline (offchain_workers client network) = the_offchain_workers
outline (rpc_tasks handlers) = the_rpc_tasks
outline (network_started starter) = the_network

abbrev pub when : Bool → Outline → List Outline
when true x = x ∷ []
when false x = []

abbrev pub has_any : {E : Type 0} → Option (List E) → Bool
has_any none = false
has_any (some []) = false
has_any (some (x ∷ xs)) = true

-- What a configuration asks for.
abbrev pub wanted : {t : Kinds} → Configuration t → List Outline
wanted config =
    when (has_any config.telemetry_endpoints) (named (codes "telemetry") false)
    ++ (when config.offchain_worker_enabled the_offchain_workers
        ++ (the_rpc_tasks
            ∷ (when config.role_is_authority (named (codes "aura") true)
                ++ (when (not config.disable_grandpa) (named (codes "grandpa-voter") true)
                    ++ (the_network ∷ [])))))

pub joined :
    {t : Kinds} (xs ys : List (Started t)) {a b : List Outline}
    → map outline xs ≡ a
    → map outline ys ≡ b
    → map outline (xs ++ ys) ≡ a ++ b
joined xs ys e f = map-append outline xs ys ∙ ap₂ (λ u v. u ++ v) e f

pub workers-wanted :
    (t : Kinds) (enabled : Bool) (client : t.Client) (network : t.Network)
    → map {A = Started t} outline (if enabled then offchain_workers client network ∷ [] else [])
      ≡ when enabled the_offchain_workers
workers-wanted t true client network = refl
workers-wanted t false client network = refl
