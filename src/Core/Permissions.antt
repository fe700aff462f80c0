-- ===== src/Core/Permissions.antt =====
-- crates/core/src/permissions.rs: which actions a kind of resource offers, and which of them a user is
-- allowed. A word of flags is its bits, a function of the position; its width is 32.
pub mod Kinds
mod Tests
use roder.Prelude.{
  inl, inr, ap, ◌∙◌, Bool-cases, Bool-cases, ℕ, zero, suc, String, ◌≡◌, refl, Bool, true, false,
  not, ◌&&◌, ◌||◌, Option, none, some, List, [], ◌∷◌, any, nat_beq, nat_beq_iff, is_empty,
  if◌then◌else◌, ◌==◌, string_eq, arith, unwrap_or, ◌↔◌, ◌++◌, sym, map, drop,
}
use roder.Prelude.Maps.{find}
use roder.Core.Actions.{
  ResourceAction, delete, evict, scale, restart, cordon, drain, logs, exec, debug_exec, node_shell,
  flux_reconcile, flux_reconcile_with_source, flux_suspend, flux_force, flux_reset,
  external_secrets_refresh, certificate_renew, cron_job_trigger, job_rerun, kopiur_snapshot_now,
  cnpg_backup, cnpg_suspend, index, is_streamed, api_name, from_api_name, from_api_name-streamed,
  Names-from_api_name, from_api_name-Names, Names,
}

abbrev pub Bits : Type 0
Bits = ℕ → Bool

-- `1 << action as u8`
abbrev pub bit : ResourceAction → Bits
bit a i = nat_beq (index a) i

abbrev pub bits_for : List ResourceAction → Bits
bits_for [] i = false
bits_for (a ∷ as') i = bit a i || bits_for as' i

-- `if test { bits |= more; }`
abbrev pub add_if : Bool → Bits → Bits → Bits
add_if test more bits i = (more i && test) || bits i

-- The positions of a word.
abbrev pub positions : ℕ → List ℕ
positions zero = []
positions (suc n) = n ∷ positions n

abbrev pub one_of : String → List String → Bool
one_of s = any (λ t. s == t)

unfoldable pub is : String → String → String → String → Bool
is g k group kind = group == g && kind == k

unfoldable pub flux_reconcile_kind : String → String → Bool
unfolding is
flux_reconcile_kind group kind =
    is "kustomize.toolkit.fluxcd.io" "Kustomization" group kind
    || (is "helm.toolkit.fluxcd.io" "HelmRelease" group kind
        || (is "source.toolkit.fluxcd.io" "GitRepository" group kind
            || (is "source.toolkit.fluxcd.io" "OCIRepository" group kind
                || (is "source.toolkit.fluxcd.io" "HelmRepository" group kind
                    || (is "source.toolkit.fluxcd.io" "Bucket" group kind
                        || (is "source.toolkit.fluxcd.io" "HelmChart" group kind
                            || (is "image.toolkit.fluxcd.io" "ImageRepository" group kind
                                || (is "image.toolkit.fluxcd.io" "ImagePolicy" group kind
                                    || (is "image.toolkit.fluxcd.io" "ImageUpdateAutomation" group
                                          kind
                                        || is "notification.toolkit.fluxcd.io" "Receiver" group
                                            kind)))))))))

unfoldable pub flux_suspend_kind : String → String → Bool
flux_suspend_kind group kind =
    flux_reconcile_kind group kind
    || (is "notification.toolkit.fluxcd.io" "Alert" group kind
        || is "notification.toolkit.fluxcd.io" "Provider" group kind)

unfoldable pub has_rollout : String → String → Bool
has_rollout group kind =
    group == "apps" && one_of kind ("Deployment" ∷ "StatefulSet" ∷ "DaemonSet" ∷ "ReplicaSet" ∷ [])

unfoldable pub has_replicas : String → String → Bool
has_replicas group kind =
    group == "apps" && one_of kind ("Deployment" ∷ "StatefulSet" ∷ "ReplicaSet" ∷ [])

unfoldable pub takes_source : String → String → Bool
takes_source group kind =
    is "kustomize.toolkit.fluxcd.io" "Kustomization" group kind
    || is "helm.toolkit.fluxcd.io" "HelmRelease" group kind

unfoldable pub is_external_secret : String → String → Bool
is_external_secret group kind =
    group == "external-secrets.io" && one_of kind ("ExternalSecret" ∷ "ClusterExternalSecret" ∷ [])

unfoldable pub for_gvk : String → String → String → Bits
for_gvk group version kind =
    let b = bit delete in
    let b = add_if (is "" "Pod" group kind) (bits_for (evict ∷ logs ∷ exec ∷ debug_exec ∷ [])) b in
    let b = add_if (is "" "Node" group kind) (bits_for (cordon ∷ drain ∷ node_shell ∷ [])) b in
    let b = add_if (has_rollout group kind) (bits_for (restart ∷ logs ∷ [])) b in
    let b = add_if (has_replicas group kind) (bit scale) b in
    let b = add_if (is "batch" "Job" group kind) (bits_for (job_rerun ∷ logs ∷ [])) b in
    let b = add_if (is "batch" "CronJob" group kind) (bit cron_job_trigger) b in
    let b = add_if (flux_reconcile_kind group kind) (bit flux_reconcile) b in
    let b = add_if (flux_suspend_kind group kind) (bit flux_suspend) b in
    let b = add_if (takes_source group kind) (bit flux_reconcile_with_source) b in
    let b =
      add_if (is "helm.toolkit.fluxcd.io" "HelmRelease" group kind)
        (bits_for (flux_force ∷ flux_reset ∷ [])) b in
    let b = add_if (is_external_secret group kind) (bit external_secrets_refresh) b in
    let b = add_if (is "cert-manager.io" "Certificate" group kind) (bit certificate_renew) b in
    let b =
      add_if (is "kopiur.home-operations.com" "SnapshotPolicy" group kind) (bit kopiur_snapshot_now)
        b in
    let b = add_if (is "postgresql.cnpg.io" "Cluster" group kind) (bit cnpg_backup) b in
    add_if (is "postgresql.cnpg.io" "ScheduledBackup" group kind) (bit cnpg_suspend) b

-- `self.0 & bit(action) != 0`
unfoldable pub supports : Bits → ResourceAction → Bool
supports bits action = any (λ i. bits i && bit action i) (positions 32)

-- What is allowed of a resource or a selection; the map has one value for a key.
pub record ActionPermissions : Type 0 where
  pub apply : Bool
  pub actions : List (String × Bool)

unfoldable pub allows : ActionPermissions → ResourceAction → Bool
allows p action = unwrap_or (find (api_name action) p.actions) false

abbrev is_allowed : ActionPermissions → Option ResourceAction → Bool
is_allowed p none = false
is_allowed p (some action) = allows p action

unfoldable pub allows_api_name : ActionPermissions → String → Bool
allows_api_name p name = is_allowed p (from_api_name name)

-- An action request is allowed exactly when its name is that of an action that is allowed, or of the
-- inverse of one, and the action is not one with a stream of its own.
pub allows_api_name-Names :
    (p : ActionPermissions) (name : String)
    → (allows_api_name p name ≡ true)
      ↔ ((a : ResourceAction) × Names name a × (is_streamed a ≡ false) × (allows p a ≡ true))
unfolding allows_api_name
allows_api_name-Names p name = (forth (from_api_name name) refl, back)
  where
    forth :
        (o : Option ResourceAction)
        → from_api_name name ≡ o
        → is_allowed p o ≡ true
        → ((a : ResourceAction) × Names name a × (is_streamed a ≡ false) × (allows p a ≡ true))
    forth none e h = absurd (cc h)
    forth (some a) e h = (a, from_api_name-Names name a e, from_api_name-streamed name a e, h)

    back :
        ((a : ResourceAction) × Names name a × (is_streamed a ≡ false) × (allows p a ≡ true))
        → is_allowed p (from_api_name name) ≡ true
    back (a, n, s, h) = rw (Names-from_api_name name a n s) h
