-- ===== src/Manager/Validation.antt =====
-- What `Validate` (cmd/manager/app/options/options.go) accepts, and the defaults of `AddFlags`.
use multi_tenants.Base.{
  string_differs, ℕ, ◌*◌, ◌<◌, ◌≤◌, ℤ, pos, negsuc, pos_part, leb_ℤ, String, Bool, true, false,
  List, [], ◌∷◌, ◌++◌, ◌≡◌, ◌≢◌, ◌↔◌, refl, sym, ◌∙◌, arith, ◌==◌, string_eq, if◌then◌else◌,
}
use mathlib.Core.List.{append_assoc, append-nil}
use multi_tenants.Manager.Options.{
  LeaderElection, Options, FieldError, Flags, IsLawfulFlags, required, check, validate, add_flags,
}

-- Options with which the manager can run.
pub record IsRunnable (o : Options) : Type 0 where
  pub lease_duration : 0 < pos_part o.leader_election.lease_duration
  pub renew_deadline : 0 < pos_part o.leader_election.renew_deadline
  pub retry_period : 0 < pos_part o.leader_election.retry_period
  pub etcd_servers : o.etcd_servers ≢ ""
  pub etcd_secret : o.etcd_secret ≢ ""

-- What is required: of each, whether it is violated, and the error that says so.
abbrev pub requirements : Options → List (Bool × FieldError)
requirements o =
    (
      leb_ℤ o.leader_election.lease_duration (pos 0),
      required "LeaderElection.LeaseDuration.Duration" "must bigger than 0",
    )
    ∷ (
      leb_ℤ o.leader_election.renew_deadline (pos 0),
      required "LeaderElection.RenewDeadline.Duration" "must bigger than 0",
    )
    ∷ (
      leb_ℤ o.leader_election.retry_period (pos 0),
      required "LeaderElection.RetryPeriod.Duration" "must bigger than 0",
    )
    ∷ (o.etcd_servers == "", required "EtcdServers" "must not empty")
    ∷ (o.etcd_secret == "", required "EtcdSecret" "must not empty")
    ∷ []

-- The errors of the requirements that are violated.
unfoldable pub reports : List (Bool × FieldError) → List FieldError
reports [] = []
reports ((violated, e) ∷ rs) = let rest = reports rs in if violated then e ∷ rest else rest

checks : List FieldError → List (Bool × FieldError) → List FieldError
checks es [] = es
checks es ((violated, e) ∷ rs) = checks (check violated e es) rs

check-append :
    (b : Bool) (e : FieldError) (es rs : List FieldError)
    → check b e es ++ rs ≡ es ++ (if b then e ∷ rs else rs)
unfolding check
check-append true e es rs = append_assoc es (e ∷ []) rs
check-append false e es rs = refl

checks-reports :
    (es : List FieldError) (rs : List (Bool × FieldError)) → checks es rs ≡ es ++ reports rs
unfolding checks reports
checks-reports es [] = sym (append-nil es)
checks-reports es ((b, e) ∷ rs) =
    checks-reports (check b e es) rs ∙ check-append b e es (reports rs)

-- The errors, test by test, are those of the requirements that are violated.
pub validate-reports : (o : Options) → validate o ≡ reports (requirements o)
unfolding validate checks
validate-reports o = checks-reports [] (requirements o)

positive : (d : ℤ) → leb_ℤ d (pos 0) ≡ false → 0 < pos_part d
positive (pos n) h = ground arith
positive (negsuc n) h = ground arith

not_positive : (d : ℤ) → 0 < pos_part d → leb_ℤ d (pos 0) ≡ false
not_positive (pos n) h = ground arith
not_positive (negsuc n) h = absurd (omega arith)

is_not_empty : (s : String) → s ≢ "" → (s == "") ≡ false
is_not_empty s h = ground arith

reports-nil :
    (b : Bool) (e : FieldError) (rs : List (Bool × FieldError))
    → reports ((b, e) ∷ rs) ≡ []
    → (b ≡ false) × (reports rs ≡ [])
unfolding reports
reports-nil true e rs h = cc
reports-nil false e rs h = (refl, h)

reports-IsRunnable : (o : Options) → reports (requirements o) ≡ [] → IsRunnable o
reports-IsRunnable o h =
    let (lease, h1) = reports-nil _ _ _ h in
    let (renew, h2) = reports-nil _ _ _ h1 in
    let (retry, h3) = reports-nil _ _ _ h2 in
    let (servers, h4) = reports-nil _ _ _ h3 in
    let (secret, _) = reports-nil _ _ _ h4 in
    record {
      lease_duration = positive o.leader_election.lease_duration lease;
      renew_deadline = positive o.leader_election.renew_deadline renew;
      retry_period = positive o.leader_election.retry_period retry;
      etcd_servers = string_differs _ "" servers;
      etcd_secret = string_differs _ "" secret;
    }

IsRunnable-reports : (o : Options) → IsRunnable o → reports (requirements o) ≡ []
unfolding reports
IsRunnable-reports o h =
    rw
      (
        reports,
        not_positive o.leader_election.lease_duration h.lease_duration,
        not_positive o.leader_election.renew_deadline h.renew_deadline,
        not_positive o.leader_election.retry_period h.retry_period,
        is_not_empty o.etcd_servers h.etcd_servers,
        is_not_empty o.etcd_secret h.etcd_secret,
      )
      refl

-- Validate reports no error exactly for options with which the manager can run: positive
-- durations of leader election, and etcd servers and an etcd secret that are named.
pub validate-IsRunnable_iff : (o : Options) → (validate o ≡ []) ↔ IsRunnable o
validate-IsRunnable_iff o = (
  λ h. reports-IsRunnable o (sym (validate-reports o) ∙ h),
  λ h. validate-reports o ∙ IsRunnable-reports o h,
)

-- The largest `time.Duration`, 2 ^ 63 - 1 nanoseconds.
abbrev max_duration : ℕ
max_duration = 9_223_372_036_854_775_807

-- What client-go's leader election asks of its configuration beside what is validated: a lease
-- that outlives the deadline of its renewal, which leaves time to try again (with a jitter of 1.2).
pub record IsElectable (e : LeaderElection) : Type 0 where
  pub deadline : pos_part e.renew_deadline < pos_part e.lease_duration
  pub retries : 6 * pos_part e.retry_period < 5 * pos_part e.renew_deadline
  pub bound : pos_part e.lease_duration ≤ max_duration

-- The defaults of the flags, with etcd servers and an etcd secret given, pass Validate, fit the
-- bounds that leader election sets (a lease longer than the renew deadline, that longer than 1.2
-- retry periods, within the largest duration), and sync with at least one worker.
pub defaults-IsRunnable :
    (l : Flags)
    → IsLawfulFlags l
    → (o : Options) (flags : l.FlagSet) (servers secret : String) → servers ≢ ""
    → secret ≢ ""
    → (let set = record ((add_flags l o flags).1) {
      etcd_servers = servers;
      etcd_secret = secret;
    } in
        IsRunnable set
        × IsElectable set.leader_election
        × (0 < pos_part set.concurrency_tenant_sync))
unfolding add_flags
defaults-IsRunnable l lawful o flags servers secret some_servers some_secret = (
  record {
    lease_duration = rw (lawful.duration_var-default) (omega arith);
    renew_deadline = rw (lawful.duration_var-default) (omega arith);
    retry_period = rw (lawful.duration_var-default) (omega arith);
    etcd_servers = some_servers;
    etcd_secret = some_secret;
  },
  record {
    deadline = rw (lawful.duration_var-default, lawful.duration_var-default) (omega arith);
    retries = rw (lawful.duration_var-default, lawful.duration_var-default) (omega arith);
    bound = rw (lawful.duration_var-default) (omega arith);
  },
  rw (lawful.int_var-default) (omega arith),
)
