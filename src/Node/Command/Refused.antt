-- ===== src/Node/Command/Refused.antt =====
-- node/src/command.rs: a remote keystore is refused by whatever needs the client.
use substrate_aggregator.Prelude.{
  ℕ, ◌≡◌, ap, ◌∙◌, Option, none, some, Bool, true, false, List, inl, inr, codes, Outcome, returns,
}
use substrate_aggregator.Node.Service.Substrate.{Kinds, Crates, Configuration}
use substrate_aggregator.Node.Service.{
  Launch, failed, PartialComponents, ◌>>=◌, assemble, start, without_remote, new_partial, new_full,
}
use substrate_aggregator.Node.Command.{
  CommandKinds, Subcommand, key, build_spec, check_block, export_blocks, export_state,
  import_blocks, purge_chain, revert, benchmark, Cli, Commands, Exit, with_runner, launched,
  run_subcommand, run,
}

-- Whether the client is built: to run the node, and for the subcommands that read or write the chain.
abbrev pub needs_client : {c : CommandKinds} → Option (Subcommand c) → Bool
needs_client none = true
needs_client (some (check_block cmd)) = true
needs_client (some (export_blocks cmd)) = true
needs_client (some (export_state cmd)) = true
needs_client (some (import_blocks cmd)) = true
needs_client (some (revert cmd)) = true
needs_client (some (key cmd)) = false
needs_client (some (build_spec cmd)) = false
needs_client (some (purge_chain cmd)) = false
needs_client (some (benchmark cmd)) = false

abbrev pub unsupported : List ℕ
unsupported = codes "Remote Keystores are not supported."

module _ (t : Kinds) (k : Crates t) (config : Configuration t) (url : List ℕ)
    (remote : config.keystore_remote ≡ some url) where
  new_partial-refuses : new_partial t k config ≡ failed (k.other unsupported)
  unfolding new_partial
  new_partial-refuses = ap (λ r. without_remote t k r (assemble t k config)) remote

  new_full-refuses : new_full t k config ≡ failed (k.other unsupported)
  unfolding new_full
  new_full-refuses = ap (λ m. m >>= start t k config) new_partial-refuses

-- With a remote keystore in its configuration, the node does not start, and no subcommand that reads or
-- writes the chain runs: the program ends with the error that remote keystores are not supported,
-- whatever the crates do and with whatever features it is built.
pub run-remote_keystore :
    (c : CommandKinds) (t : Kinds) (k : Crates t) (commands : Commands c t) (benchmarks : Bool)
    (cli : Cli c) (config : Configuration t) (url : List ℕ)
    → needs_client cli.subcommand ≡ true
    → commands.create_runner cli ≡ inr config
    → config.keystore_remote ≡ some url
    → run c t k commands benchmarks cli
      ≡ returns (inl (commands.from_service (k.other unsupported)))
unfolding run
run-remote_keystore c t k commands benchmarks cli config url needs runner remote =
    by_subcommand cli.subcommand needs
  where
    refused :
        {R : Type 0} (launch : Configuration t → Launch t R)
        (act : Configuration t → R → Outcome (Exit c))
        → launch config ≡ failed (k.other unsupported)
        → with_runner c t k commands
            (commands.create_runner cli)
            (λ x. launched c t k commands (launch x) (act x))
          ≡ returns (inl (commands.from_service (k.other unsupported)))
    refused launch act e =
        ap (λ r. with_runner c t k commands r (λ x. launched c t k commands (launch x) (act x)))
          runner
        ∙ ap (λ m. launched c t k commands m (act config)) e

    partial_refused :
        (act : Configuration t → PartialComponents t → Outcome (Exit c))
        → with_runner c t k commands
            (commands.create_runner cli)
            (λ x. launched c t k commands (new_partial t k x) (act x))
          ≡ returns (inl (commands.from_service (k.other unsupported)))
    partial_refused act = refused (new_partial t k) act (new_partial-refuses t k config url remote)

    by_subcommand :
        (subcommand : Option (Subcommand c))
        → needs_client subcommand ≡ true
        → run_subcommand c t k commands benchmarks cli subcommand
          ≡ returns (inl (commands.from_service (k.other unsupported)))
    by_subcommand none h = refused (new_full t k) _ (new_full-refuses t k config url remote)
    by_subcommand (some (check_block cmd)) h = partial_refused _
    by_subcommand (some (export_blocks cmd)) h = partial_refused _
    by_subcommand (some (export_state cmd)) h = partial_refused _
    by_subcommand (some (import_blocks cmd)) h = partial_refused _
    by_subcommand (some (revert cmd)) h = partial_refused _
    by_subcommand (some (key cmd)) h = absurd (cc)
    by_subcommand (some (build_spec cmd)) h = absurd (cc)
    by_subcommand (some (purge_chain cmd)) h = absurd (cc)
    by_subcommand (some (benchmark cmd)) h = absurd (cc)
