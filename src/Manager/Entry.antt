-- ===== src/Manager/Entry.antt =====
-- How the process of the manager (cmd/manager/main.go) ends.
use multi_tenants.Base.{String, List, [], some, ◌≡◌, ◌∙◌, ap, Error, ok, err}
use multi_tenants.Api.Register.{Schemes}
use multi_tenants.Manager.Options.{Options, Flags, IsLawfulFlags, new_options, add_flags}
use multi_tenants.Manager.Validation.{IsRunnable}
use multi_tenants.Manager.Command.{Runtime}
use multi_tenants.Manager.Starting.{run_command_rejects}
use multi_tenants.Manager.Main.{
  Command, Cobra, new_controller_manager_command, main, run_main, process,
}
use multi_tenants.Manager.Registering.{IsLawfulSchemes, init_scheme-Knows}

module _ {W : Type 0} (l : Flags) (x : Cobra W l) where
  -- `cli.Run` without arguments: every variable keeps its default, and an error gives the code 1.
  -- `arguments` are those of the process.
  pub record IsLawfulCobra (arguments : W → List String) : Type 0 where
    pub bare-err :
        (cmd : Command W l) (w : W) (e : Error)
        → arguments w ≡ []
        → (cmd.run_e cmd.options w).0 ≡ err e
        → x.cli_run cmd w ≡ (1, (cmd.run_e cmd.options w).1)

  no_servers_by_default :
      IsLawfulFlags l → (o : Options) (flags : l.FlagSet) → IsRunnable (add_flags l o flags).1 → ⊥
  unfolding add_flags
  no_servers_by_default flags o fs h = h.etcd_servers (flags.string_var-default _ _ _ _)

  module _ (s : Schemes) (r : Runtime W s.Scheme) (flags : IsLawfulFlags l)
      (arguments : W → List String) (lawful : IsLawfulCobra arguments) where
    main_bare :
        (scheme : s.Scheme) (w : W)
        → arguments w ≡ []
        → (r.validate_and_apply_log w).0 ≡ ok tt
        → main r scheme l x w ≡ (1, (r.validate_and_apply_log w).1)
    unfolding main
    main_bare scheme w bare logged =
        let rejected =
          run_command_rejects r scheme (add_flags l new_options x.new_flags).1 w logged
            (no_servers_by_default flags new_options x.new_flags) in
        lawful.bare-err (new_controller_manager_command r scheme l x) w _ bare
          (ap (λ y. y.0) rejected)
        ∙ ap (λ y. (1, y.1)) rejected

    -- The process that is started without arguments does not panic and exits with code 1, once
    -- its log is set up: it does nothing else, since the defaults of its flags name no etcd
    -- servers. pflag, cobra and the registration of types behave as documented.
    pub process_bare_fails :
        IsLawfulSchemes s
        → (w : W) → arguments w ≡ []
        → (r.validate_and_apply_log w).0 ≡ ok tt
        → process s r l x w ≡ some (1, (r.validate_and_apply_log w).1)
    unfolding process run_main
    process_bare_fails schemes w bare logged =
        let (scheme, registered, _, _) = init_scheme-Knows s schemes in
        ap (λ found. run_main s r l x found w) registered ∙ ap some (main_bare scheme w bare logged)
