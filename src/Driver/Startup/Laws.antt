-- ===== src/Driver/Startup/Laws.antt =====
-- When the process starts, with which driver, and when it crashes.
use panfs_container_storage.Base.{
  String, ◌≡◌, ◌≢◌, refl, ◌↔◌, ◌⊎◌, inl, inr, not, Option, none, some, arith, Option-cases,
  Bool-cases,
}
use panfs_container_storage.Base.Texts.{Text, str_eq-cases}
use panfs_container_storage.Driver.Mounter.{PanMounter, panfs_mounter}
use panfs_container_storage.Driver.Mounter.Sanity.{sanity_mounter}
use panfs_container_storage.Driver.Provider.{StorageProvider, ssh_provider, fake_provider}
use panfs_container_storage.Driver.Provider.Safety.{IsSafe}
use panfs_container_storage.Driver.Server.{Driver}
use panfs_container_storage.Driver.Startup.{
  Environment, is_sanity, create_driver, Config, Parts, main_driver, crashed, exited, main_exit,
}

-- The node's name is not known, or, outside the sanity mode, there is no client of the Kubernetes
-- API.
abbrev pub CannotStart : Environment → Type 0
CannotStart env =
    ((e : Text) × (env.hostname ≡ some e))
    ⊎ ((env.csi_sanity_mode ≢ "true")
        × (((e : Text) × (env.in_cluster_config ≡ some e))
            ⊎ ((e : Text) × (env.new_for_config ≡ some e))))

-- The provider of the driver, if there is one.
abbrev HasSafe : Option Driver → Type 0
HasSafe none = Unit
HasSafe (some d) = IsSafe d.panfs

can_start :
    (env : Environment)
    → env.hostname ≡ none
    → (env.csi_sanity_mode ≡ "true")
      ⊎ ((env.in_cluster_config ≡ none) × (env.new_for_config ≡ none))
    → ¬ CannotStart env
can_start env h _ (inl (e, failed)) = absurd (ground arith)
can_start env h (inl same) (inr (other, _)) = other same
can_start env h (inr (c, k)) (inr (_, inl (e, failed))) = absurd (ground arith)
can_start env h (inr (c, k)) (inr (_, inr (e, failed))) = absurd (ground arith)

module _ (env : Environment) (version driver_name endpoint : String) (P : StorageProvider)
    (M : PanMounter) where
  -- The driver that CreateDriver builds.
  abbrev driver : Driver
  driver = record {
    name = driver_name;
    version = version;
    host = env.host;
    endpoint = endpoint;
    panfs = P;
    mounter = M;
    has_client = not (is_sanity env);
  }

  create_driver-cases :
      (CannotStart env × (create_driver env version driver_name endpoint P M ≡ none))
      ⊎ ((¬ CannotStart env) × (create_driver env version driver_name endpoint P M ≡ some driver))
  unfolding create_driver
  create_driver-cases = elim (Option-cases env.hostname) [
    | inr (e, h) ↦ inl (inl (e, h), rw h refl)
    | inl h ↦ elim (str_eq-cases env.csi_sanity_mode "true") [
      | inl (t, same) ↦ inr (can_start env h (inl same), rw (h, t) refl)
      | inr (f, other) ↦ elim (Option-cases env.in_cluster_config) [
        | inr (e, c) ↦ inl (inr (other, inl (e, c)), rw (h, f, c) refl)
        | inl c ↦ elim (Option-cases env.new_for_config) [
          | inr (e, k) ↦ inl (inr (other, inr (e, k)), rw (h, f, c, k) refl)
          | inl k ↦ inr (can_start env h (inr (c, k)), rw (h, f, c, k) refl)
        ]
      ]
    ]
  ]

  create_driver-some :
      (CannotStart env × (create_driver env version driver_name endpoint P M ≡ none))
      ⊎ ((¬ CannotStart env)
          × ((d : Driver) × (create_driver env version driver_name endpoint P M ≡ some d)))
  create_driver-some = elim create_driver-cases [
    | inl cannot ↦ inl cannot
    | inr (can, e) ↦ inr (can, (driver, e))
  ]

module _ (p : Parts) (cfg : Config) (env : Environment) where
  main_driver-cases :
      (CannotStart env × (main_driver p cfg env ≡ none))
      ⊎ ((¬ CannotStart env) × ((d : Driver) × (main_driver p cfg env ≡ some d)))
  unfolding main_driver
  main_driver-cases = elim (Bool-cases (is_sanity env)) [
    | inl t ↦ rw t (
        create_driver-some env cfg.version cfg.driver_name cfg.endpoint (fake_provider p.uuid)
          (sanity_mounter p.mount p.fake_mount))
    | inr f ↦ rw f (
        create_driver-some env cfg.version cfg.driver_name cfg.endpoint
          (ssh_provider p.runner p.unmarshal) (panfs_mounter p.mount))
  ]

  started :
      ¬ CannotStart env
      → (d : Driver) (result : Option Text)
      → ((main_exit (some d) result ≡ crashed) ↔ CannotStart env)
        × ((main_exit (some d) result ≡ exited 0) ↔ ((¬ CannotStart env) × (result ≡ none)))
        × ((main_exit (some d) result ≡ exited 1)
            ↔ ((¬ CannotStart env) × ((e : Text) × (result ≡ some e))))
  unfolding main_exit
  started can d none =
      ((λ h. cc, λ c. absurd (can c)), (λ h. (can, refl), λ h. refl), (λ h. cc, λ (_, (e, h)). cc))
  started can d (some e) =
      ((λ h. cc, λ c. absurd (can c)), (λ h. cc, λ (_, h). cc), (λ h. (can, (e, refl)), λ h. refl))

  -- The process crashes, on a nil driver, exactly when the host's name is not known or when,
  -- outside the sanity mode, there is no client of the Kubernetes API. Otherwise it ends with code 0
  -- when Run returns nil, and with code 1 when Run returns an error.
  pub main_exit-cases :
      (result : Option Text)
      → let exit = main_exit (main_driver p cfg env) result in
        ((exit ≡ crashed) ↔ CannotStart env)
        × ((exit ≡ exited 0) ↔ ((¬ CannotStart env) × (result ≡ none)))
        × ((exit ≡ exited 1) ↔ ((¬ CannotStart env) × ((e : Text) × (result ≡ some e))))
  unfolding main_exit main_driver
  main_exit-cases result = elim main_driver-cases [
    | inl (c, e) ↦ rw e (
      (λ _. c, λ _. refl),
      (λ h. cc, λ (can, _). absurd (can c)),
      (λ h. cc, λ (can, _). absurd (can c)),
    )
    | inr (can, (d, e)) ↦ rw e (started can d result)
  ]
