-- ===== src/Manager/Starting.antt =====
-- When the command (cmd/manager/app/app.go) starts the manager, and with what.
use multi_tenants.Base.{
  sym, subst, ◌>>=◌, ◌↔◌, true, String, [], ◌∷◌, List, ◌≡◌, ◌≢◌, arith, string_eq, refl, ◌∙◌, ap,
  ok, err, Call, >>=-ok, >>=-of_ok, lift, throw,
}
use multi_tenants.Api.{Kind, ObjectKey, Secret}
use multi_tenants.Manager.Options.{Options, FieldError, validate}
use multi_tenants.Manager.Validation.{
  IsRunnable, requirements, reports, validate-reports, validate-IsRunnable_iff,
}
use multi_tenants.Manager.Command.{
  Runtime, ManagerOptions, manager_options, secret_key, setup_with_manager, run, run_validated,
  run_command,
}

namespace_given : (ns name : String) → ns ≢ "" → (secret_key (ns, name)).namespace ≡ ns
unfolding secret_key
namespace_given ns name h = ground arith

namespace_default : (ns name : String) → ns ≡ "" → (secret_key (ns, name)).namespace ≡ "default"
unfolding secret_key
namespace_default ns name h = ground arith

module _ {W S : Type 0} (r : Runtime W S) (scheme : S) where
  run_validated_rejects :
      (opts : Options) (errs : List FieldError) (w : W)
      → (errs ≡ [] → ⊥)
      → run_validated r scheme opts errs w ≡ (err (r.to_aggregate errs), w)
  unfolding run_validated throw
  run_validated_rejects opts [] w h = absurd (h refl)
  run_validated_rejects opts (e ∷ errs) w h = refl

  -- With options with which the manager cannot run, the command does nothing after the set-up of
  -- the log, and returns the errors of exactly the requirements that are violated, in their
  -- order.
  pub run_command_rejects :
      (opts : Options) (w : W)
      → (r.validate_and_apply_log w).0 ≡ ok tt
      → (IsRunnable opts → ⊥)
      → run_command r scheme opts w
        ≡ (err (r.to_aggregate (reports (requirements opts))), (r.validate_and_apply_log w).1)
  unfolding run_command
  run_command_rejects opts w logged unfit =
      >>=-of_ok r.validate_and_apply_log (λ _. run_validated r scheme opts (validate opts)) w tt
        logged
      ∙ run_validated_rejects opts (validate opts) _
          (λ h. unfit ((validate-IsRunnable_iff opts).0 h))
      ∙ ap (λ errs. (err (r.to_aggregate errs), (r.validate_and_apply_log w).1))
          (validate-reports opts)

  -- What the manager is asked to be: an elected leader, as the options say of the election, that
  -- gives up its lease when it stops, and whose reads of secrets and deployments are not cached.
  pub record IsManagerFor (opts : Options) (o : ManagerOptions S) : Type 0 where
    pub scheme_given : o.scheme ≡ scheme
    pub elects : o.leader_election ≡ opts.leader_election.leader_elect
    pub releases : o.leader_election_release_on_cancel ≡ true
    pub lock : o.leader_election_resource_lock ≡ opts.leader_election.resource_lock
    pub lock_namespace : o.leader_election_namespace ≡ opts.leader_election.resource_namespace
    pub lock_name : o.leader_election_id ≡ opts.leader_election.resource_name
    pub lease : o.lease_duration ≡ opts.leader_election.lease_duration
    pub deadline : o.renew_deadline ≡ opts.leader_election.renew_deadline
    pub retry : o.retry_period ≡ opts.leader_election.retry_period
    pub fresh : o.client_disable_cache_for ≡ Kind.secret ∷ Kind.deployment ∷ []

  manager_options-IsManagerFor : (opts : Options) → IsManagerFor opts (manager_options scheme opts)
  unfolding manager_options
  manager_options-IsManagerFor opts = record {
    scheme_given = refl;
    elects = refl;
    releases = refl;
    lock = refl;
    lock_namespace = refl;
    lock_name = refl;
    lease = refl;
    deadline = refl;
    retry = refl;
    fresh = refl;
  }

  -- A run that ends well has done all of this, from the world `w` on.
  pub record IsStarted (opts : Options) (w : W) : Type 0 where
    pub manager : r.Manager
    pub key : String × String
    pub etcd_secret : Secret
    pub before_read : W
    pub before_setup : W
    pub before_start : W
    pub asked : ManagerOptions S
    pub configured : IsManagerFor opts asked
    pub made : r.new_manager asked w ≡ (ok manager, before_read)
    pub split : r.split_meta_namespace_key opts.etcd_secret ≡ ok key
    -- The secret lies in the namespace that is named, or in the default one.
    pub secret_at : ObjectKey
    pub name : secret_at.name ≡ key.1
    pub namespace : key.0 ≢ "" → secret_at.namespace ≡ key.0
    pub default_namespace : key.0 ≡ "" → secret_at.namespace ≡ "default"
    pub held :
        (r.get_client manager).get Kind.secret secret_at before_read
        ≡ (ok etcd_secret, before_setup)
    -- The controller has the contents of that secret, and the servers of the options.
    pub set_up :
        r.complete manager
          (record { etcd_secret = etcd_secret.contents; etcd_servers = opts.etcd_servers })
          (r.get_client manager)
          opts.concurrency_tenant_sync
          before_setup
        ≡ (ok tt, before_start)
    pub started : (r.start manager before_start).0 ≡ ok tt

  with_world : {A : Type 0} (m : Call W A) (w : W) (a : A) → (m w).0 ≡ ok a → m w ≡ (ok a, (m w).1)
  with_world m w a h = ap (λ x. (x, (m w).1)) h

  run-IsStarted :
      (opts : Options) (w : W) (a : Unit {0}) → (run r scheme opts w).0 ≡ ok a → IsStarted opts w
  unfolding secret_key run setup_with_manager lift
  run-IsStarted opts w a h =
      let (manager, (made, h1)) = >>=-ok _ _ w a h in
      let (key, (split, h2)) = >>=-ok _ _ _ a h1 in
      let (etcd_secret, (held, h3)) = >>=-ok _ _ _ a h2 in
      let (_, (set_up, started)) = >>=-ok _ _ _ a h3 in
      record {
        manager = manager;
        key = key;
        etcd_secret = etcd_secret;
        before_read = _;
        before_setup = _;
        before_start = _;
        asked = manager_options scheme opts;
        configured = manager_options-IsManagerFor opts;
        made = with_world (r.new_manager _) w manager made;
        split = split;
        secret_at = secret_key key;
        name = refl;
        namespace = namespace_given key.0 key.1;
        default_namespace = namespace_default key.0 key.1;
        held = with_world ((r.get_client manager).get Kind.secret _) _ etcd_secret held;
        set_up = with_world (r.complete manager _ _ _) _ tt set_up;
        started = started;
      }

  run_validated-ok :
      (opts : Options) (errs : List FieldError) (w : W) (a : Unit {0})
      → (run_validated r scheme opts errs w).0 ≡ ok a
      → (errs ≡ []) × ((run r scheme opts w).0 ≡ ok a)
  unfolding run_validated throw
  run_validated-ok opts [] w a h = (refl, h)
  run_validated-ok opts (e ∷ errs) w a h = cc

  run_validated_runs :
      (opts : Options) (errs : List FieldError) (w : W)
      → errs ≡ []
      → (run_validated r scheme opts errs w).0 ≡ (run r scheme opts w).0
  unfolding run_validated
  run_validated_runs opts [] w h = refl
  run_validated_runs opts (e ∷ errs) w h = cc

  asked_same :
      (opts : Options) (o : ManagerOptions S)
      → IsManagerFor opts o
      → o ≡ manager_options scheme opts
  unfolding manager_options
  asked_same opts o h = λ i. record {
    scheme = h.scheme_given i;
    leader_election = h.elects i;
    leader_election_release_on_cancel = h.releases i;
    leader_election_resource_lock = h.lock i;
    leader_election_namespace = h.lock_namespace i;
    leader_election_id = h.lock_name i;
    lease_duration = h.lease i;
    renew_deadline = h.deadline i;
    retry_period = h.retry i;
    client_disable_cache_for = h.fresh i;
  }

  named_in :
      (key : String × String) (at : ObjectKey)
      → (key.0 ≢ "" → at.namespace ≡ key.0)
      → (key.0 ≡ "" → at.namespace ≡ "default")
      → at.namespace ≡ (secret_key key).namespace
  named_in (ns, name) at given default = elim (string_eq.dec ns "") [
    | yes e ↦ default e ∙ sym (namespace_default ns name e)
    | no differ ↦ given differ ∙ sym (namespace_given ns name differ)
  ]

  secret_at_same :
      (key : String × String) (at : ObjectKey)
      → at.name ≡ key.1
      → at.namespace ≡ (secret_key key).namespace
      → at ≡ secret_key key
  unfolding secret_key
  secret_at_same (ns, name) at e e' = λ i. record { namespace = e' i; name = e i }

  -- These steps are also all that it takes.
  IsStarted-run : (opts : Options) (w : W) → IsStarted opts w → (run r scheme opts w).0 ≡ ok tt
  unfolding run setup_with_manager lift
  IsStarted-run opts w h =
      let made =
        subst (λ o. r.new_manager o w ≡ (ok h.manager, h.before_read))
          (asked_same opts h.asked h.configured) h.made in
      let at =
        secret_at_same h.key h.secret_at h.name
          (named_in h.key h.secret_at h.namespace h.default_namespace) in
      let held =
        subst
          (λ k.
            (r.get_client h.manager).get Kind.secret k h.before_read
            ≡ (ok h.etcd_secret, h.before_setup))
          at h.held in
      ap (λ x. x.0)
        (step _ _ w _ _ made
          ∙ step _ _ h.before_read _ _ (ap (λ x. (x, h.before_read)) h.split)
          ∙ step _ _ h.before_read _ _ held
          ∙ step _ _ h.before_setup _ _ h.set_up)
      ∙ h.started
    where
      step :
          {A B : Type 0} (m : Call W A) (f : A → Call W B) (x : W) (a : A) (y : W)
          → m x ≡ (ok a, y)
          → (m >>= f) x ≡ f a y
      step m f x a y e = >>=-of_ok m f x a (ap (λ z. z.0) e) ∙ ap (λ z. f a z.1) e

  -- The command returns without an error exactly when the log is set up, the options are ones
  -- with which the manager can run, and the start goes as follows, each call in the world that
  -- the one before left: a manager is made with the scheme of the process and the settings of
  -- leader election that the options name, one that releases its lease when it stops and does
  -- not cache its reads of secrets and deployments; the secret that the options name, in the
  -- namespace default if they name none, is read; the controller is set up with the contents of
  -- that secret, the servers of the options and their number of workers; and the manager is
  -- started.
  pub run_command-IsStarted_iff :
      (opts : Options) (w : W)
      → ((run_command r scheme opts w).0 ≡ ok tt) ↔ (
          ((r.validate_and_apply_log w).0 ≡ ok tt)
          × IsRunnable opts
          × IsStarted opts (r.validate_and_apply_log w).1)
  unfolding run_command
  run_command-IsStarted_iff opts w = (forth, back)
    where
      forth :
          (run_command r scheme opts w).0 ≡ ok tt
          → ((r.validate_and_apply_log w).0 ≡ ok tt)
            × IsRunnable opts
            × IsStarted opts (r.validate_and_apply_log w).1
      forth h =
          let (_, (logged, rest)) = >>=-ok _ _ w tt h in
          let (valid, h') = run_validated-ok opts _ _ tt rest in
          (logged, (validate-IsRunnable_iff opts).0 valid, run-IsStarted opts _ tt h')

      back :
          ((r.validate_and_apply_log w).0 ≡ ok tt)
            × IsRunnable opts
            × IsStarted opts (r.validate_and_apply_log w).1
          → (run_command r scheme opts w).0 ≡ ok tt
      back (logged, fit, started) =
          ap (λ x. x.0)
            (>>=-of_ok r.validate_and_apply_log (λ _. run_validated r scheme opts (validate opts)) w
              tt logged)
          ∙ run_validated_runs opts (validate opts) _ ((validate-IsRunnable_iff opts).1 fit)
          ∙ IsStarted-run opts _ started
