-- ===== src/Controllers/Persistence.antt =====
-- What the calls of the controller (pkg/controllers) keep of a control plane that is there.
use multi_tenants.Base.{String, ◌<>◌, ◌≡◌, subst}
use multi_tenants.Api.{Kind, ObjectKey, Tenant, cluster_namespace_in_host}
use multi_tenants.Client.Server.{Lookup}
use multi_tenants.ControllerUtil.Creating.{IsPresent}
use multi_tenants.Controllers.Setup.{Platform, TenantController}
use multi_tenants.Controllers.Ownership.{OwnedKeeps}
use multi_tenants.Controllers.Footprint.{IsLawfulPlatform}
use multi_tenants.Controllers.Readiness.{key_in_host}
use multi_tenants.Controllers.Completeness.{IsProvisioned, IsPresent-OwnedKeeps}

-- From one world to the next no object goes away.
abbrev pub KeepsObjects : {W : Type 0} → Lookup W → W → W → Type 0
KeepsObjects lookup w w' =
    (k : Kind) (slot : ObjectKey) → IsPresent lookup k slot w → IsPresent lookup k slot w'

module _ {W : Type 0} (p : Platform W) (c : TenantController) (lookup : Lookup W)
    (lawful : IsLawfulPlatform p lookup) (u : Tenant) where
  pub IsProvisioned-KeepsObjects :
      (w w' : W)
      → KeepsObjects lookup w w'
      → IsProvisioned p c lookup lawful u w
      → IsProvisioned p c lookup lawful u w'
  IsProvisioned-KeepsObjects w w' keeps h = record {
    server_cert = keeps Kind.secret _ h.server_cert;
    admin = keeps Kind.secret _ h.admin;
    manager = keeps Kind.secret _ h.manager;
    api_server = keeps Kind.deployment _ h.api_server;
    service = keeps Kind.service _ h.service;
    controller_manager = keeps Kind.deployment _ h.controller_manager;
  }

  -- No call that the controller makes for a tenant `t` takes an object away.
  pub IsProvisioned-OwnedKeeps : (t : Tenant) → OwnedKeeps p t (IsProvisioned p c lookup lawful u)
  IsProvisioned-OwnedKeeps t = record {
    crypto = record {
      now = λ w. IsProvisioned-KeepsObjects w _ (λ k slot. (stays k slot).crypto.now w);
      generate_key = λ bits. record {
        run = λ w.
            IsProvisioned-KeepsObjects w _
              (λ k slot. ((stays k slot).crypto.generate_key bits).run w);
      };
      create_certificate = λ a b key s. record {
        run = λ w.
            IsProvisioned-KeepsObjects w _
              (λ k slot. ((stays k slot).crypto.create_certificate a b key s).run w);
      };
    };
    get = λ j key. record {
      run = λ w. IsProvisioned-KeepsObjects w _ (λ k slot. ((stays k slot).get j key).run w);
    };
    create = λ j o own. record {
      run = λ w. IsProvisioned-KeepsObjects w _ (λ k slot. ((stays k slot).create j o own).run w);
    };
  }
    where
      stays : (k : Kind) (slot : ObjectKey) → OwnedKeeps p t (IsPresent lookup k slot)
      stays k slot = IsPresent-OwnedKeeps p c lookup lawful t k slot

  -- It is a matter of the name of the tenant.
  pub IsProvisioned-meta :
      (t : Tenant) (w : W)
      → t.object_meta.name ≡ u.object_meta.name
      → IsProvisioned p c lookup lawful t w
      → IsProvisioned p c lookup lawful u w
  unfolding cluster_namespace_in_host
  IsProvisioned-meta t w same h = record {
    server_cert = moved Kind.secret "server-cert" h.server_cert;
    admin = moved Kind.secret "kubeconfig-admin" h.admin;
    manager = moved Kind.secret "kubeconfig-controller-manager" h.manager;
    api_server = moved Kind.deployment "kube-apiserver" h.api_server;
    service = moved Kind.service "kube-apiserver" h.service;
    controller_manager = moved Kind.deployment "kube-controller-manager" h.controller_manager;
  }
    where
      moved :
          (k : Kind) (name : String)
          → IsPresent lookup k (key_in_host t name) w
          → IsPresent lookup k (key_in_host u name) w
      moved k name =
          subst (λ n. IsPresent lookup k (record { namespace = "tenant-" <> n; name = name }) w)
            same
