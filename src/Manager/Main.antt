-- ===== src/Manager/Main.antt =====
-- `init` and `NewControllerManagerCommand` of cmd/manager/app/app.go, and `main` of
-- cmd/manager/main.go. cobra and the flags of Go's `flag` package are parameters.
use multi_tenants.Base.{ℕ, Option, none, some, Result, ok, err, Call}
use multi_tenants.Api.Register.{Schemes, add_to_scheme}
use multi_tenants.Manager.Options.{Options, Flags, new_options, add_flags}
use multi_tenants.Manager.Command.{Runtime, run_command}

module _ (s : Schemes) where
  open s use {Scheme}

  -- `utilruntime.Must` of a registration; `none` is a panic.
  abbrev must : Result Scheme → (Scheme → Option Scheme) → Option Scheme
  must (ok scheme) rest = rest scheme
  must (err e) rest = none

  -- `init`, which fills the package variable `scheme`.
  unfoldable pub init_scheme : Option Scheme
  init_scheme = must (s.core_add_to_scheme s.new_scheme) (λ with_core.
      must (s.apps_add_to_scheme with_core)
        (λ with_apps. must (add_to_scheme s with_apps) (λ scheme. some scheme)))

-- `*cobra.Command`, as far as it is set: its flags, the options that they are bound to, and `RunE`.
pub record Command (W : Type 0) (l : Flags) : Type 0 where
  pub flags : l.FlagSet
  pub options : Options
  pub run_e : Options → Call W (Unit {0})

pub record Cobra (W : Type 0) (l : Flags) : Type 0 where
  -- `cmd.Flags()` of a new command
  pub new_flags : l.FlagSet
  -- `fs.AddGoFlagSet(flag.CommandLine)`
  pub add_go_flags : l.FlagSet → l.FlagSet
  -- `cli.Run`, which parses the arguments of the process and gives the exit code
  pub cli_run : Command W l → W → ℕ × W

module _ {W S : Type 0} (r : Runtime W S) (scheme : S) (l : Flags) (x : Cobra W l) where
  unfoldable pub new_controller_manager_command : Command W l
  new_controller_manager_command =
      let (flags, options) = add_flags l new_options x.new_flags in
      record { flags = x.add_go_flags flags; options = options; run_e = run_command r scheme }

  -- `main`: the code that the process exits with.
  unfoldable pub main : W → ℕ × W
  unfolding new_controller_manager_command
  main = x.cli_run new_controller_manager_command

module _ {W : Type 0} (s : Schemes) (r : Runtime W s.Scheme) (l : Flags) (x : Cobra W l) where
  unfoldable pub run_main : Option s.Scheme → W → Option (ℕ × W)
  unfolding main
  run_main none w = none
  run_main (some scheme) w = some (main r scheme l x w)

  -- The process: Go runs `init` of the packages before `main`. `none` is a panic.
  unfoldable pub process : W → Option (ℕ × W)
  unfolding init_scheme run_main
  process w = run_main (init_scheme s) w
