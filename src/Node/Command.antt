-- ===== src/Node/Command.antt =====
-- node/src/command.rs and node/src/cli.rs: what the node does for each subcommand. What `sc_cli` and the
-- commands themselves do is a parameter.
pub mod Refused
use substrate_aggregator.Prelude.{
  ℕ, Option, none, some, Bool, true, false, List, ◌⊎◌, inl, inr, codes, Outcome, returns, panics,
}
use substrate_aggregator.Node.Service.Substrate.{Kinds, Crates, Configuration, Started}
use substrate_aggregator.Node.Service.{Launch, done, failed, panicked, new_partial, new_full}

-- The types of the commands, with the futures that they run.
pub record CommandKinds : Type 1 where
  pub Error : Type 0
  pub Future : Type 0
  pub RunCmd : Type 0
  pub KeySubcommand : Type 0
  pub BuildSpecCmd : Type 0
  pub CheckBlockCmd : Type 0
  pub ExportBlocksCmd : Type 0
  pub ExportStateCmd : Type 0
  pub ImportBlocksCmd : Type 0
  pub PurgeChainCmd : Type 0
  pub RevertCmd : Type 0
  pub BenchmarkCmd : Type 0

module _ (c : CommandKinds) where
  pub data Subcommand : Type 0 where
    key : c.KeySubcommand → Subcommand
    build_spec : c.BuildSpecCmd → Subcommand
    check_block : c.CheckBlockCmd → Subcommand
    export_blocks : c.ExportBlocksCmd → Subcommand
    export_state : c.ExportStateCmd → Subcommand
    import_blocks : c.ImportBlocksCmd → Subcommand
    purge_chain : c.PurgeChainCmd → Subcommand
    revert : c.RevertCmd → Subcommand
    benchmark : c.BenchmarkCmd → Subcommand

  pub record Cli : Type 0 where
    pub subcommand : Option Subcommand
    pub run : c.RunCmd

  -- The end of the program, unless it panics.
  abbrev pub Exit : Type 0
  Exit = c.Error ⊎ Unit {0}

  -- The commands' own code. `create_runner` reads the configuration of the subcommand, or of `run` if
  -- there is none.
  pub record Commands (t : Kinds) : Type 0 where
    pub from_service : t.ServiceError → c.Error
    pub input : List ℕ → c.Error
    pub create_runner : Cli → c.Error ⊎ Configuration t
    pub run_key : c.KeySubcommand → Cli → Exit
    pub run_build_spec : c.BuildSpecCmd → Configuration t → Exit
    pub run_check_block : c.CheckBlockCmd → t.Client → t.ImportQueue → c.Future
    pub run_export_blocks : c.ExportBlocksCmd → t.Client → Configuration t → c.Future
    pub run_export_state : c.ExportStateCmd → t.Client → t.ChainSpec → c.Future
    pub run_import_blocks : c.ImportBlocksCmd → t.Client → t.ImportQueue → c.Future
    pub run_purge_chain : c.PurgeChainCmd → Configuration t → Exit
    pub run_revert : c.RevertCmd → t.Client → t.Backend → c.Future
    pub run_benchmark : c.BenchmarkCmd → Configuration t → Exit
    pub run_future : c.Future → List (Started t) → Exit
    pub run_node : List (Started t) → Exit

module _ (c : CommandKinds) (t : Kinds) (k : Crates t) (commands : Commands c t) where
  -- `?` on the runner, then `sync_run`.
  abbrev pub with_runner :
      c.Error ⊎ Configuration t → (Configuration t → Outcome (Exit c)) → Outcome (Exit c)
  with_runner (inl e) act = returns (inl e)
  with_runner (inr config) act = act config

  -- `?` on a step of the service.
  abbrev pub launched : {R : Type 0} → Launch t R → (R → Outcome (Exit c)) → Outcome (Exit c)
  launched (done r) act = act r
  launched (failed e) act = returns (inl (commands.from_service e))
  launched panicked act = panics

  abbrev pub no_benchmarks : List ℕ
  no_benchmarks =
      codes
        "Benchmarking wasn't enabled when building the node. You can enable it with `--features runtime-benchmarks`."

  abbrev pub run_subcommand : (benchmarks : Bool) → Cli c → Option (Subcommand c) → Outcome (Exit c)
  run_subcommand benchmarks cli (some (key cmd)) = returns (commands.run_key cmd cli)
  run_subcommand benchmarks cli (some (build_spec cmd)) =
      with_runner (commands.create_runner cli)
        λ config. returns (commands.run_build_spec cmd config)
  run_subcommand benchmarks cli (some (check_block cmd)) =
      with_runner (commands.create_runner cli) λ config. launched (new_partial t k config) λ parts.
        returns (
          commands.run_future (commands.run_check_block cmd parts.client parts.import_queue)
            parts.task_manager)
  run_subcommand benchmarks cli (some (export_blocks cmd)) =
      with_runner (commands.create_runner cli) λ config. launched (new_partial t k config) λ parts.
        returns (
          commands.run_future (commands.run_export_blocks cmd parts.client config)
            parts.task_manager)
  run_subcommand benchmarks cli (some (export_state cmd)) =
      with_runner (commands.create_runner cli) λ config. launched (new_partial t k config) λ parts.
        returns (
          commands.run_future (commands.run_export_state cmd parts.client config.chain_spec)
            parts.task_manager)
  run_subcommand benchmarks cli (some (import_blocks cmd)) =
      with_runner (commands.create_runner cli) λ config. launched (new_partial t k config) λ parts.
        returns (
          commands.run_future (commands.run_import_blocks cmd parts.client parts.import_queue)
            parts.task_manager)
  run_subcommand benchmarks cli (some (purge_chain cmd)) =
      with_runner (commands.create_runner cli)
        λ config. returns (commands.run_purge_chain cmd config)
  run_subcommand benchmarks cli (some (revert cmd)) =
      with_runner (commands.create_runner cli) λ config. launched (new_partial t k config) λ parts.
        returns (
          commands.run_future (commands.run_revert cmd parts.client parts.backend)
            parts.task_manager)
  run_subcommand true cli (some (benchmark cmd)) =
      with_runner (commands.create_runner cli) λ config. returns (commands.run_benchmark cmd config)
  run_subcommand false cli (some (benchmark cmd)) = returns (inl (commands.input no_benchmarks))
  run_subcommand benchmarks cli none =
      with_runner (commands.create_runner cli)
        λ config. launched (new_full t k config) λ started. returns (commands.run_node started)

  -- `benchmarks` is the feature that the node is built with, or without.
  unfoldable pub run : (benchmarks : Bool) → Cli c → Outcome (Exit c)
  run benchmarks cli = run_subcommand benchmarks cli cli.subcommand
