-- ===== src/Controllers/Endpoint.antt =====
-- The address in the kubeconfigs (tenant_controller_phase.go) against the DNS name of the Service.
use Prim.Native.String.{[], ◌∷◌}
use Prim.Native.String.append
use multi_tenants.Base.{ℕ, suc, ◌+◌, String, ◌<>◌, ◌≡◌, ◌≢◌, ap, arith}
use multi_tenants.Api.{Service, Tenant, cluster_namespace_in_host}
use multi_tenants.Controllers.Setup.{Platform}
use multi_tenants.Controllers.Secrets.{endpoint}
use multi_tenants.Controllers.ApiServer.{new_service}

str_length : String → ℕ
str_length [] = 0
str_length (c ∷ s) = suc (str_length s)

str_length-append : (s t : String) → str_length (s <> t) ≡ str_length s + str_length t
unfolding str_length
str_length-append [] t = omega (arith, ap str_length (append.nil t))
str_length-append (c ∷ s) t =
    omega (arith, ap str_length (append.cons c s t), str_length-append s t)

-- The name under which the cluster's DNS serves a Service, and the URL of its HTTPS port.
abbrev pub service_url : Service → String
service_url s = "https://" <> s.object_meta.name <> "." <> s.object_meta.namespace <> ".svc:6443"

endpoint-length :
    {W : Type 0} (p : Platform W) (t : Tenant)
    → str_length (endpoint p t) ≡ 32 + str_length t.object_meta.name
unfolding str_length
endpoint-length p t = omega (
  arith,
  str_length-append "https://kube-apiserver." (t.object_meta.name <> ".svc:6443"),
  str_length-append t.object_meta.name ".svc:6443",
)

service_url-length :
    (t : Tenant)
    → str_length (service_url (new_service t "kube-apiserver")) ≡ 39 + str_length t.object_meta.name
unfolding str_length cluster_namespace_in_host
service_url-length t = omega (
  arith,
  str_length-append "https://"
      ("kube-apiserver" <> "." <> ("tenant-" <> t.object_meta.name) <> ".svc:6443"),
  str_length-append "kube-apiserver" ("." <> ("tenant-" <> t.object_meta.name) <> ".svc:6443"),
  str_length-append "." (("tenant-" <> t.object_meta.name) <> ".svc:6443"),
  str_length-append ("tenant-" <> t.object_meta.name) ".svc:6443",
  str_length-append "tenant-" t.object_meta.name,
)

-- For every tenant, the address that is written into the kubeconfigs is not the DNS address of
-- the Service that is created for the tenant.
pub endpoint_misses_service :
    {W : Type 0} (p : Platform W) (t : Tenant)
    → endpoint p t ≢ service_url (new_service t "kube-apiserver")
endpoint_misses_service p t h =
    omega (arith, ap str_length h, endpoint-length p t, service_url-length t)
