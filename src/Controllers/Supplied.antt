-- ===== src/Controllers/Supplied.antt =====
-- The secrets that a run of the four phases leaves for the containers of a tenant's control plane
-- (tenant_controller_phase.go).
use multi_tenants.Base.{
  String, sym, subst, [], ◌∷◌, ◌<>◌, ◌≡◌, refl, ◌∙◌, ap, inl, some, ok, string_eq, nat_eq,
  string_differs, Call, ◌>>◌, Keeps, Keeps-bind, Returns, Returns-bind, Returns-pure,
}
use multi_tenants.Api.{Kind, ObjectKey, Secret, Tenant}
use multi_tenants.Secret.{Config}
use multi_tenants.Client.Server.{Lookup}
use multi_tenants.Controllers.Setup.{Platform, TenantController}
use multi_tenants.Controllers.Secrets.{
  new_secret, client_config, fill_server_cert, reconcile_secret, fill_kube_config,
  create_kube_config, reconcile_kube_config,
}
use multi_tenants.Controllers.ApiServer.{api_server_container, reconcile_api_server}
use multi_tenants.Controllers.ControllerManager.{
  controller_manager_container, reconcile_controller_manager,
}
use multi_tenants.Controllers.Normal.{provision}
use multi_tenants.Controllers.Ownership.{
  reconcile_kube_config-Keeps, reconcile_api_server-Keeps, reconcile_controller_manager-Keeps,
}
use multi_tenants.Controllers.Footprint.{IsLawfulPlatform, SlotStep-OwnedKeeps}
use multi_tenants.Controllers.Readiness.{key_in_host}
use multi_tenants.Controllers.Files.{FindsFiles, IsOutside}
use multi_tenants.Controllers.Mounts.{
  HasEtcdFiles, pki, api_server_finds, controller_manager_finds, kube_config_finds,
}
use multi_tenants.Controllers.Fed.{IsFed, api_server-IsFed, manager-IsFed}
use multi_tenants.Controllers.Made.{
  follow, held_on, Missing, creation, creation-made, reconcile_secret-Missing,
  create_kube_config-Missing,
}
use multi_tenants.Controllers.Deployed.{IsUndeployed, provision-IsDeployed}

module _ {W : Type 0} (p : Platform W) (lookup : Lookup W) (lawful : IsLawfulPlatform p lookup)
    (t : Tenant) where
  -- The mount of the kubeconfig has the one file that the command names.
  fill_kube_config-FindsFiles :
      (config : Config) (o : Secret)
      → Returns
          (λ s. FindsFiles "kubeconfig" s.contents controller_manager_container)
          (fill_kube_config p t "controller-manager.conf" config o)
  unfolding fill_kube_config
  fill_kube_config-FindsFiles config o =
      Returns-bind _ _
        (λ _. Returns-bind _ _ (λ _. Returns-bind _ _ (λ b. Returns-pure _ (kube_config_finds b))))

  module _ (c : TenantController) where
    fill_server_cert-FindsFiles :
        HasEtcdFiles c.etcd_secret
        → IsOutside pki c.etcd_servers
        → IsOutside pki ("/" <> t.object_meta.name <> "/registry")
        → Returns
            (λ o.
              FindsFiles "server-cert" o.contents (api_server_container c t)
              × FindsFiles "server-cert" o.contents controller_manager_container)
            (fill_server_cert p c t (new_secret t "server-cert"))
    unfolding fill_server_cert
    fill_server_cert-FindsFiles etcd servers elsewhere = Returns-bind _ _ (λ x. Returns-pure _ (
      api_server_finds p c.etcd_secret x c t etcd servers elsewhere,
      controller_manager_finds p c.etcd_secret x c t etcd servers elsewhere,
    ))

    abbrev rest : Call W (Unit {0})
    rest = do
      reconcile_kube_config p t
      reconcile_api_server p c t
      reconcile_controller_manager p t

    abbrev last : Call W (Unit {0})
    last = do reconcile_api_server p c t; reconcile_controller_manager p t

    -- The later phases keep a secret that is held.
    last_holds :
        (slot : ObjectKey) (s : Secret) (w : W)
        → lookup Kind.secret slot w ≡ some s
        → lookup Kind.secret slot (last w).1 ≡ some s
    last_holds slot s w held =
        let o = SlotStep-OwnedKeeps p lookup lawful t w Kind.secret slot in
        let keeps =
          Keeps-bind _ _ (reconcile_api_server-Keeps p t _ o c)
            (λ _. reconcile_controller_manager-Keeps p t _ o) in
        held_on p lookup lawful t Kind.secret slot s w (last w).1 (keeps.run w (inl refl)) held

    rest_holds :
        (slot : ObjectKey) (s : Secret) (w : W)
        → lookup Kind.secret slot w ≡ some s
        → lookup Kind.secret slot (rest w).1 ≡ some s
    rest_holds slot s w held =
        let o = SlotStep-OwnedKeeps p lookup lawful t w Kind.secret slot in
        let keeps = Keeps-bind _ _ (reconcile_kube_config-Keeps p t _ o) (λ _.
          Keeps-bind _ _ (reconcile_api_server-Keeps p t _ o c)
            (λ _. reconcile_controller_manager-Keeps p t _ o)) in
        held_on p lookup lawful t Kind.secret slot s w (rest w).1 (keeps.run w (inl refl)) held

    pub record IsSupplied (w : W) : Type 0 where
      pub api_server : IsFed p lookup lawful t "kube-apiserver" w
      pub manager : IsFed p lookup lawful t "kube-controller-manager" w

    -- The kubeconfig is made after two other secrets.
    manager_config_made :
        (w : W)
        → Missing p lookup lawful t Kind.secret "kubeconfig-controller-manager" w
        → (reconcile_kube_config p t w).0 ≡ ok tt
        → (k : Secret) × (lookup Kind.secret
              (key_in_host t "kubeconfig-controller-manager")
              (reconcile_kube_config p t w).1
            ≡ some k)
          × FindsFiles "kubeconfig" k.contents controller_manager_container
    unfolding reconcile_kube_config create_kube_config string_eq
    manager_config_made w missing h =
        let (_, first, same, second) = follow admin (λ _. manager) w tt h in
        let filled =
          creation-made p lookup lawful t Kind.secret (new_secret t name)
            (fill_kube_config p t "controller-manager.conf" manager_config_of)
            (λ s. FindsFiles "kubeconfig" s.contents controller_manager_container) name (admin w).1
            tt (lawful.client.object_key_lem Kind.secret (new_secret t name)) (kept.run w missing)
            (fill_kube_config-FindsFiles manager_config_of _) second in
        (
          filled.stored,
          ap (λ x. lookup Kind.secret (key_in_host t name) x.1) same ∙ filled.held,
          subst (λ m. FindsFiles "kubeconfig" m controller_manager_container) (sym filled.alike.2)
              filled.promised,
        )
      where
        name : String
        name = "kubeconfig-controller-manager"

        admin_config_of : Config
        admin_config_of = client_config p "kubernetes-admin" ("system:masters" ∷ [])

        manager_config_of : Config
        manager_config_of = client_config p "system:kube-controller-manager" []

        admin : Call W (Unit {0})
        admin =
            creation p lookup lawful t Kind.secret (new_secret t "kubeconfig-admin")
              (fill_kube_config p t "admin.conf" admin_config_of)

        manager : Call W (Unit {0})
        manager =
            creation p lookup lawful t Kind.secret (new_secret t name)
              (fill_kube_config p t "controller-manager.conf" manager_config_of)

        kept : Keeps (Missing p lookup lawful t Kind.secret name) admin
        kept =
            create_kube_config-Missing p lookup lawful t Kind.secret name "kubeconfig-admin"
              "admin.conf" admin_config_of (λ _. string_differs "kubeconfig-admin" name refl)

    -- When all four phases succeed for a tenant that had neither the server-cert secret, nor the
    -- kubeconfig of the controller manager, nor its Deployments and Service: the server holds
    -- both Deployments, and in each one container, which runs the program of that name. Each
    -- mount of the container is of a volume of the pod, the secret of that volume is on the
    -- server, and it has an entry for each file that an option of the command line names in the
    -- directory of the mount. The etcd secret of the manager has the three files for etcd, and
    -- neither the etcd servers nor the etcd prefix name a path among the certificates. The code
    -- outside behaves as documented.
    pub provision-IsSupplied :
        (w : W)
        → HasEtcdFiles c.etcd_secret
        → IsOutside pki c.etcd_servers
        → IsOutside pki ("/" <> t.object_meta.name <> "/registry")
        → Missing p lookup lawful t Kind.secret "server-cert" w
        → Missing p lookup lawful t Kind.secret "kubeconfig-controller-manager" w
        → IsUndeployed p lookup lawful t w
        → (provision p c t w).0 ≡ ok tt
        → IsSupplied (provision p c t w).1
    unfolding provision reconcile_secret string_eq
    provision-IsSupplied w etcd servers elsewhere no_cert no_config empty h =
        let (_, first, same, after) = follow (reconcile_secret p c t) (λ _. rest) w tt h in
        let (_, second, same', _) =
          follow (reconcile_kube_config p t) (λ _. last) certified tt after in
        let cert =
          creation-made p lookup lawful t Kind.secret (new_secret t "server-cert")
            (fill_server_cert p c t)
            (λ s.
              FindsFiles "server-cert" s.contents (api_server_container c t)
              × FindsFiles "server-cert" s.contents controller_manager_container)
            "server-cert" w tt
            (lawful.client.object_key_lem Kind.secret (new_secret t "server-cert")) no_cert
            (fill_server_cert-FindsFiles etcd servers elsewhere) first in
        let (config, config_held, finds') =
          manager_config_made certified (kept.run w no_config) second in
        let cert_held =
          ap (λ x. lookup Kind.secret (key_in_host t "server-cert") x.1) same
          ∙ rest_holds _ cert.stored certified cert.held in
        let config_held' =
          ap (λ x. lookup Kind.secret (key_in_host t "kubeconfig-controller-manager") x.1)
            (same ∙ same')
          ∙ last_holds _ config _ config_held in
        let made = provision-IsDeployed p lookup lawful t c w empty h in
        record {
          api_server =
              api_server-IsFed p lookup lawful t c _ cert.stored made.api_server cert_held (
                subst (λ m. FindsFiles "server-cert" m (api_server_container c t))
                  (sym cert.alike.2) cert.promised.0);
          manager =
              manager-IsFed p lookup lawful t _ cert.stored config made.manager cert_held
                (subst (λ m. FindsFiles "server-cert" m controller_manager_container)
                  (sym cert.alike.2) cert.promised.1)
                config_held' finds';
        }
      where
        certified : W
        certified = (reconcile_secret p c t w).1

        kept :
            Keeps
              (Missing p lookup lawful t Kind.secret "kubeconfig-controller-manager")
              (reconcile_secret p c t)
        kept =
            reconcile_secret-Missing p lookup lawful t Kind.secret "kubeconfig-controller-manager" c
              (λ _. string_differs "server-cert" "kubeconfig-controller-manager" refl)
