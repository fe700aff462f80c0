-- ===== src/Core/Permissions/Kinds.antt =====
-- The kinds that offer each action, against the bits of crates/core/src/permissions.rs.
use roder.Prelude.{
  inl, inr, ap, ◌∙◌, Bool-cases, Bool-cases, ℕ, String, ◌≡◌, refl, Bool, true, false, ◌&&◌, ◌||◌,
  List, [], ◌∷◌, any, nat_beq, nat_beq_iff, ◌==◌, string_eq, arith, ◌++◌, sym, map, drop,
}
use roder.Core.Actions.{
  ResourceAction, delete, evict, scale, restart, cordon, drain, logs, exec, debug_exec, node_shell,
  flux_reconcile, flux_reconcile_with_source, flux_suspend, flux_force, flux_reset,
  external_secrets_refresh, certificate_renew, cron_job_trigger, job_rerun, kopiur_snapshot_now,
  cnpg_backup, cnpg_suspend, index,
}
use roder.Core.Permissions.{
  Bits, positions, one_of, is, flux_reconcile_kind, flux_suspend_kind, has_rollout, has_replicas,
  takes_source, is_external_secret, for_gvk, supports,
}

any-bit :
    (f : Bits) (n : ℕ) (is' : List ℕ)
    → any (λ i. f i && nat_beq n i) is' ≡ (f n && any (nat_beq n) is')
any-bit f n [] = ground arith
any-bit f n (i ∷ is') = elim (Bool-cases (nat_beq n i)) [
  | inl e ↦ let n-i : n ≡ i = (nat_beq_iff n i).0 e in ground (arith, e, ap f n-i, any-bit f n is')
  | inr e ↦ ground (arith, e, any-bit f n is')
]

-- The kinds that offer each action, each with its API group, and deletion, which all kinds offer.
abbrev kinds : ResourceAction → List (String × String)
kinds delete = []
kinds evict = ("", "Pod") ∷ []
kinds scale = ("apps", "Deployment") ∷ ("apps", "StatefulSet") ∷ ("apps", "ReplicaSet") ∷ []
kinds restart =
    ("apps", "Deployment")
    ∷ ("apps", "StatefulSet")
    ∷ ("apps", "DaemonSet")
    ∷ ("apps", "ReplicaSet")
    ∷ []
kinds cordon = ("", "Node") ∷ []
kinds drain = ("", "Node") ∷ []
kinds logs =
    ("", "Pod")
    ∷ ("apps", "Deployment")
    ∷ ("apps", "StatefulSet")
    ∷ ("apps", "DaemonSet")
    ∷ ("apps", "ReplicaSet")
    ∷ ("batch", "Job")
    ∷ []
kinds exec = ("", "Pod") ∷ []
kinds debug_exec = ("", "Pod") ∷ []
kinds node_shell = ("", "Node") ∷ []
kinds flux_reconcile =
    ("kustomize.toolkit.fluxcd.io", "Kustomization")
    ∷ ("helm.toolkit.fluxcd.io", "HelmRelease")
    ∷ ("source.toolkit.fluxcd.io", "GitRepository")
    ∷ ("source.toolkit.fluxcd.io", "OCIRepository")
    ∷ ("source.toolkit.fluxcd.io", "HelmRepository")
    ∷ ("source.toolkit.fluxcd.io", "Bucket")
    ∷ ("source.toolkit.fluxcd.io", "HelmChart")
    ∷ ("image.toolkit.fluxcd.io", "ImageRepository")
    ∷ ("image.toolkit.fluxcd.io", "ImagePolicy")
    ∷ ("image.toolkit.fluxcd.io", "ImageUpdateAutomation")
    ∷ ("notification.toolkit.fluxcd.io", "Receiver")
    ∷ []
kinds flux_reconcile_with_source =
    ("kustomize.toolkit.fluxcd.io", "Kustomization")
    ∷ ("helm.toolkit.fluxcd.io", "HelmRelease")
    ∷ []
kinds flux_suspend =
    ("kustomize.toolkit.fluxcd.io", "Kustomization")
    ∷ ("helm.toolkit.fluxcd.io", "HelmRelease")
    ∷ ("source.toolkit.fluxcd.io", "GitRepository")
    ∷ ("source.toolkit.fluxcd.io", "OCIRepository")
    ∷ ("source.toolkit.fluxcd.io", "HelmRepository")
    ∷ ("source.toolkit.fluxcd.io", "Bucket")
    ∷ ("source.toolkit.fluxcd.io", "HelmChart")
    ∷ ("image.toolkit.fluxcd.io", "ImageRepository")
    ∷ ("image.toolkit.fluxcd.io", "ImagePolicy")
    ∷ ("image.toolkit.fluxcd.io", "ImageUpdateAutomation")
    ∷ ("notification.toolkit.fluxcd.io", "Receiver")
    ∷ ("notification.toolkit.fluxcd.io", "Alert")
    ∷ ("notification.toolkit.fluxcd.io", "Provider")
    ∷ []
kinds flux_force = ("helm.toolkit.fluxcd.io", "HelmRelease") ∷ []
kinds flux_reset = ("helm.toolkit.fluxcd.io", "HelmRelease") ∷ []
kinds external_secrets_refresh =
    ("external-secrets.io", "ExternalSecret")
    ∷ ("external-secrets.io", "ClusterExternalSecret")
    ∷ []
kinds certificate_renew = ("cert-manager.io", "Certificate") ∷ []
kinds cron_job_trigger = ("batch", "CronJob") ∷ []
kinds job_rerun = ("batch", "Job") ∷ []
kinds kopiur_snapshot_now = ("kopiur.home-operations.com", "SnapshotPolicy") ∷ []
kinds cnpg_backup = ("postgresql.cnpg.io", "Cluster") ∷ []
kinds cnpg_suspend = ("postgresql.cnpg.io", "ScheduledBackup") ∷ []

abbrev any_kind : ResourceAction → Bool
any_kind delete = true
any_kind _ = false

abbrev pub offers : ResourceAction → String → String → Bool
offers a group kind = any_kind a || any (λ p. group == p.0 && kind == p.1) (kinds a)

in_word : (a : ResourceAction) → any (nat_beq (index a)) (positions 32) ≡ true
in_word delete = refl
in_word evict = refl
in_word scale = refl
in_word restart = refl
in_word cordon = refl
in_word drain = refl
in_word logs = refl
in_word exec = refl
in_word debug_exec = refl
in_word node_shell = refl
in_word flux_reconcile = refl
in_word flux_reconcile_with_source = refl
in_word flux_suspend = refl
in_word flux_force = refl
in_word flux_reset = refl
in_word external_secrets_refresh = refl
in_word certificate_renew = refl
in_word cron_job_trigger = refl
in_word job_rerun = refl
in_word kopiur_snapshot_now = refl
in_word cnpg_backup = refl
in_word cnpg_suspend = refl

supports-bit : (bits : Bits) (a : ResourceAction) → supports bits a ≡ bits (index a)
unfolding supports
supports-bit bits a = ground (arith, any-bit bits (index a) (positions 32), in_word a)

-- The test under which the source sets the bit of each action.
abbrev test_of : ResourceAction → String → String → Bool
test_of delete g k = true
test_of evict g k = is "" "Pod" g k
test_of scale g k = has_replicas g k
test_of restart g k = has_rollout g k
test_of cordon g k = is "" "Node" g k
test_of drain g k = is "" "Node" g k
test_of logs g k = is "" "Pod" g k || (has_rollout g k || is "batch" "Job" g k)
test_of exec g k = is "" "Pod" g k
test_of debug_exec g k = is "" "Pod" g k
test_of node_shell g k = is "" "Node" g k
test_of flux_reconcile g k = flux_reconcile_kind g k
test_of flux_reconcile_with_source g k = takes_source g k
test_of flux_suspend g k = flux_suspend_kind g k
test_of flux_force g k = is "helm.toolkit.fluxcd.io" "HelmRelease" g k
test_of flux_reset g k = is "helm.toolkit.fluxcd.io" "HelmRelease" g k
test_of external_secrets_refresh g k = is_external_secret g k
test_of certificate_renew g k = is "cert-manager.io" "Certificate" g k
test_of cron_job_trigger g k = is "batch" "CronJob" g k
test_of job_rerun g k = is "batch" "Job" g k
test_of kopiur_snapshot_now g k = is "kopiur.home-operations.com" "SnapshotPolicy" g k
test_of cnpg_backup g k = is "postgresql.cnpg.io" "Cluster" g k
test_of cnpg_suspend g k = is "postgresql.cnpg.io" "ScheduledBackup" g k

for_gvk-test_of :
    (group version kind : String) (a : ResourceAction)
    → for_gvk group version kind (index a) ≡ test_of a group kind
unfolding for_gvk
for_gvk-test_of group version kind delete = ground arith
for_gvk-test_of group version kind evict = ground arith
for_gvk-test_of group version kind scale = ground arith
for_gvk-test_of group version kind restart = ground arith
for_gvk-test_of group version kind cordon = ground arith
for_gvk-test_of group version kind drain = ground arith
for_gvk-test_of group version kind logs = ground arith
for_gvk-test_of group version kind exec = ground arith
for_gvk-test_of group version kind debug_exec = ground arith
for_gvk-test_of group version kind node_shell = ground arith
for_gvk-test_of group version kind flux_reconcile = ground arith
for_gvk-test_of group version kind flux_reconcile_with_source = ground arith
for_gvk-test_of group version kind flux_suspend = ground arith
for_gvk-test_of group version kind flux_force = ground arith
for_gvk-test_of group version kind flux_reset = ground arith
for_gvk-test_of group version kind external_secrets_refresh = ground arith
for_gvk-test_of group version kind certificate_renew = ground arith
for_gvk-test_of group version kind cron_job_trigger = ground arith
for_gvk-test_of group version kind job_rerun = ground arith
for_gvk-test_of group version kind kopiur_snapshot_now = ground arith
for_gvk-test_of group version kind cnpg_backup = ground arith
for_gvk-test_of group version kind cnpg_suspend = ground arith

or_false : (b : Bool) → b ≡ (b || false)
or_false true = refl
or_false false = refl

or_ap : (a : Bool) {b c : Bool} → b ≡ c → (a || b) ≡ (a || c)
or_ap a e = ap (λ z. a || z) e

and_or : (g a b : Bool) → (g && (a || b)) ≡ (g && a || g && b)
and_or true a b = refl
and_or false a b = refl

and_false : (g : Bool) → (g && false) ≡ false
and_false true = refl
and_false false = refl

or_assoc : (a b c : Bool) → ((a || b) || c) ≡ (a || (b || c))
or_assoc true b c = refl
or_assoc false b c = refl

abbrev is_kind : String → String → String × String → Bool
is_kind group kind p = group == p.0 && kind == p.1

-- Kinds of one group.
one_of-kinds :
    (group kind g : String) (ks : List String)
    → (group == g && one_of kind ks) ≡ any (is_kind group kind) (map (λ k. (g, k)) ks)
one_of-kinds group kind g [] = and_false (group == g)
one_of-kinds group kind g (k ∷ ks) =
    and_or (group == g) (kind == k) (one_of kind ks)
    ∙ or_ap (group == g && kind == k) (one_of-kinds group kind g ks)

any-++ : {A : Type 0} (p : A → Bool) (xs ys : List A) → any p (xs ++ ys) ≡ (any p xs || any p ys)
any-++ p [] ys = refl
any-++ p (x ∷ xs) ys =
    ap (λ z. p x || z) (any-++ p xs ys) ∙ sym (or_assoc (p x) (any p xs) (any p ys))

or_list : Bool → List Bool → Bool
or_list a [] = a
or_list a (b ∷ bs) = a || or_list b bs

or_list-any :
    {A : Type 0} (p : A → Bool) (x : A) (xs : List A) → or_list (p x) (map p xs) ≡ any p (x ∷ xs)
unfolding or_list
or_list-any p x [] = or_false (p x)
or_list-any p x (y ∷ ys) = ap (λ z. p x || z) (or_list-any p y ys)

flux_reconcile_kind-kinds :
    (g k : String) → flux_reconcile_kind g k ≡ any (is_kind g k) (kinds flux_reconcile)
unfolding flux_reconcile_kind is or_list
flux_reconcile_kind-kinds g k =
    or_list-any (is_kind g k) ("kustomize.toolkit.fluxcd.io", "Kustomization")
      (drop 1 (kinds flux_reconcile))

flux_suspend_kind-kinds :
    (g k : String) → flux_suspend_kind g k ≡ any (is_kind g k) (kinds flux_suspend)
unfolding flux_suspend_kind is
flux_suspend_kind-kinds g k =
    let more =
      ("notification.toolkit.fluxcd.io", "Alert")
      ∷ ("notification.toolkit.fluxcd.io", "Provider")
      ∷ [] in
    or_ap (flux_reconcile_kind g k) (
      or_ap (is "notification.toolkit.fluxcd.io" "Alert" g k)
        (or_false (is "notification.toolkit.fluxcd.io" "Provider" g k)))
    ∙ ap (λ z. z || any (is_kind g k) more) (flux_reconcile_kind-kinds g k)
    ∙ sym (any-++ (is_kind g k) (kinds flux_reconcile) more)

test_of-offers : (a : ResourceAction) (g k : String) → test_of a g k ≡ offers a g k
unfolding is has_rollout has_replicas takes_source is_external_secret
test_of-offers delete g k = refl
test_of-offers scale g k =
    one_of-kinds g k "apps" ("Deployment" ∷ "StatefulSet" ∷ "ReplicaSet" ∷ [])
test_of-offers restart g k =
    one_of-kinds g k "apps" ("Deployment" ∷ "StatefulSet" ∷ "DaemonSet" ∷ "ReplicaSet" ∷ [])
test_of-offers logs g k = or_ap (is "" "Pod" g k) (
    ap (λ z. has_rollout g k || z) (or_false (is "batch" "Job" g k))
    ∙ ap (λ z. z || (is "batch" "Job" g k || false))
        (one_of-kinds g k "apps" ("Deployment" ∷ "StatefulSet" ∷ "DaemonSet" ∷ "ReplicaSet" ∷ []))
    ∙ sym (
        any-++ (is_kind g k)
          (("apps", "Deployment")
            ∷ ("apps", "StatefulSet")
            ∷ ("apps", "DaemonSet")
            ∷ ("apps", "ReplicaSet")
            ∷ [])
          (("batch", "Job") ∷ [])))
test_of-offers flux_reconcile g k = flux_reconcile_kind-kinds g k
test_of-offers flux_suspend g k = flux_suspend_kind-kinds g k
test_of-offers flux_reconcile_with_source g k =
    or_ap (is "kustomize.toolkit.fluxcd.io" "Kustomization" g k) (or_false _)
test_of-offers external_secrets_refresh g k =
    one_of-kinds g k "external-secrets.io" ("ExternalSecret" ∷ "ClusterExternalSecret" ∷ [])
test_of-offers evict g k = or_false _
test_of-offers cordon g k = or_false _
test_of-offers drain g k = or_false _
test_of-offers exec g k = or_false _
test_of-offers debug_exec g k = or_false _
test_of-offers node_shell g k = or_false _
test_of-offers flux_force g k = or_false _
test_of-offers flux_reset g k = or_false _
test_of-offers certificate_renew g k = or_false _
test_of-offers cron_job_trigger g k = or_false _
test_of-offers job_rerun g k = or_false _
test_of-offers kopiur_snapshot_now g k = or_false _
test_of-offers cnpg_backup g k = or_false _
test_of-offers cnpg_suspend g k = or_false _

for_gvk-offers :
    (group version kind : String) (a : ResourceAction)
    → for_gvk group version kind (index a) ≡ offers a group kind
for_gvk-offers group version kind a =
    for_gvk-test_of group version kind a ∙ test_of-offers a group kind

-- A kind, of any version, supports deletion, and another action exactly when it is one of the kinds that
-- are listed for it, each by its group and its name.
pub for_gvk-supports :
    (group version kind : String) (a : ResourceAction)
    → supports (for_gvk group version kind) a ≡ offers a group kind
for_gvk-supports group version kind a =
    supports-bit (for_gvk group version kind) a ∙ for_gvk-offers group version kind a
