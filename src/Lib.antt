-- ===== src/Lib.antt =====
-- The controller manager of multi-tenants: it watches Tenants in a host cluster and creates, for
-- each, a namespace with certificates, kubeconfigs, and the deployments of a control plane.
--
-- The parts, the files that model them, and the code they model:
--   * Api (pkg/apis/tenancy/v1alpha1): the Tenant with its phases and conditions. Api/Meta,
--     Api/Workload and Api/Objects hold the fields of Kubernetes types that the code uses, Api/Calls
--     the calls of apimachinery on values. Api/Register holds register.go, over the schemes of
--     apimachinery as a parameter.
--   * Conditions (pkg/conditions): Get holds getter.go, Set holds setter.go. The clock reading is an
--     argument, and `sort.Slice` a parameter, since it fixes no order among equal elements. Reading,
--     Writing, Order and Laws hold the lemmas.
--   * Client: controller-runtime's client and the conversion to unstructured objects, as parameters;
--     Client/Server says what is relied on of the API server.
--   * ControllerUtil (pkg/controllerutil/controllerutil.go): `create_if_not_exists`,
--     `update_if_exists`, and in Patch `patch_if_exists`. Creating, Fresh, Updating, Preparing,
--     Patching, PatchTable, Quiet, Forms, Restoring, Storing and Stored hold the lemmas; Storing says
--     what is relied on of patches, Restoring of unstructured forms.
--   * Secret (pkg/secret): Certs holds certs.go, Certificates holds certificates.go, over the
--     algorithms of crypto/x509, crypto/rsa and encoding/pem as parameters in Primitives.
--   * KubeConfig (pkg/kubeconfig/kubeconfig.go).
--   * Controllers (pkg/controllers): Phase, Secrets, ApiServer and ControllerManager hold
--     tenant_controller_phase.go; Normal and Reconcile hold tenant_controller.go. The reconciler
--     calls all the other parts; its parameters together are a `Platform`.
--     Ownership, Run, Marks, Handling and Passing are rules for what a handler, a pass and a run
--     keep; Footprint and Isolation, Invariant and Reachable, Stages, Ahead and Refinement, Outcomes,
--     Liveness, Settled, Resting, Sharing and Convergence, Failing, Waiting, Deferred, Stored and
--     Workloads hold what they are used for. Files reads command lines; Mounts, Made, Deployed,
--     Fed and Supplied hold what the containers find in their secrets.
--   * Manager (cmd/manager): Options holds app/options/options.go, Command holds `RunE` and `run` of
--     app/app.go and `SetupWithManager` of pkg/controllers/tenant_controller.go, Main holds `init`
--     and the command of app/app.go, main.go, and the process from `init` on. pflag, cobra and the
--     manager of controller-runtime are parameters. Validation, Starting, Registering and Entry hold
--     the theorems.
--   * Base: errors and results as values, calls as functions from the world outside to a result and
--     the next world, maps as association lists, and rules to reason about sequences of calls.
--   * Tests: a host cluster in memory and further concrete parameters that satisfy every hypothesis,
--     and the theorems at concrete inputs.
--
-- How the state corresponds. `W` is the world outside: the API server, the clock, the random source.
-- A Go function that returns an error is a call over `W`; where the code changes an object behind a
-- pointer, the model returns the changed object. The reconciler's handlers return the tenant, the
-- result and the world, since the deferred function of `Reconcile` uses the tenant also after an
-- error. A closure that mutates an object is a call from the object to the object.
--
-- Bounds. Times are nanoseconds since Go's zero time, as natural numbers; `now - 5 * minute` stops at
-- 0, which the source would only reach within five minutes of the year 1. Durations in the options
-- are signed, and the code only compares them. Keys and certificates have no size bound. Every loop
-- of the code is over a list and is structural recursion, so there is no fuel.
--
-- Assumed of code outside (`IsLawfulPlatform` and the records that it names): nobody else writes to
-- the API server during a run; a read changes nothing; a create call touches one slot and stores what
-- it is sent; a call that fails may have done its work; keys and certificates are read back from their
-- encodings; a created certificate says what its template says, with times in whole seconds, and
-- certifies the public key that is given beside it. In Stored alone (`IsLawfulPatch`): a patch of a
-- resource leaves its status, one of the status leaves all else, and either returns what is then held;
-- and of the conversion of Tenants to unstructured form and back (`IsLawfulConverter`): a status that is
-- set is found, beside the same rest; the kind decides whether there is a status; a form that is made of
-- a Tenant and the status of another is read back whole; and the rest has the key. Of pflag
-- (`IsLawfulFlags`): a flag that is defined sets its variable to the default.
--
-- The steps of a tenant's life (Reachable) are whole passes of one worker, steps of others between
-- them, and deletion; a pass hands its tenant to the next one as the deferred patch sends it.
--
-- Of schemes (`IsLawfulSchemes`): a type that is added is known from then on. Of cobra
-- (`IsLawfulCobra`): without arguments the variables of the flags keep their defaults, and an error
-- of the command gives the exit code 1.
--
-- Several workers (Isolation and Sharing): before each call of a run to the API server, others may
-- act; what they do is a function of the world, which may hold any schedule. In all other theorems
-- nobody else acts during a run.
--
-- Not modelled: generated deep copies (values are not shared here), the options of the logging
-- library, logging and printing. A nil object never reaches the handlers, and of a returned error the
-- ignored value is dropped.
pub mod Base
pub mod Api
pub mod Conditions
pub mod Client
pub mod ControllerUtil
pub mod Secret
pub mod KubeConfig
pub mod Controllers
pub mod Manager
mod Tests
