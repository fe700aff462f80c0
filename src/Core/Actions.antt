-- ===== src/Core/Actions.antt =====
-- crates/core/src/resource.rs: the actions on resources and their names in the API.
mod Tests
use roder.Prelude.{
  ap, ◌∙◌, ℕ, String, ◌≡◌, ◌⊎◌, inl, inr, refl, Bool, true, false, Option, none, some, List, [],
  ◌∷◌, All, if◌then◌else◌, string_eq,
}
use roder.Prelude.Maps.{find, find-All}

pub data ResourceAction : Type 0 where
  delete evict scale restart cordon drain logs exec debug_exec node_shell flux_reconcile
        flux_reconcile_with_source flux_suspend flux_force flux_reset external_secrets_refresh
        certificate_renew cron_job_trigger job_rerun kopiur_snapshot_now cnpg_backup cnpg_suspend :
      ResourceAction

-- `action as u8`
abbrev pub index : ResourceAction → ℕ
index delete = 0
index evict = 1
index scale = 2
index restart = 3
index cordon = 4
index drain = 5
index logs = 6
index exec = 7
index debug_exec = 8
index node_shell = 9
index flux_reconcile = 10
index flux_reconcile_with_source = 11
index flux_suspend = 12
index flux_force = 13
index flux_reset = 14
index external_secrets_refresh = 15
index certificate_renew = 16
index cron_job_trigger = 17
index job_rerun = 18
index kopiur_snapshot_now = 19
index cnpg_backup = 20
index cnpg_suspend = 21

abbrev pub all : List ResourceAction
all =
    delete ∷ evict ∷ scale ∷ restart ∷ cordon ∷ drain ∷ logs ∷ exec ∷ debug_exec ∷ node_shell
    ∷ flux_reconcile ∷ flux_reconcile_with_source ∷ flux_suspend ∷ flux_force ∷ flux_reset
    ∷ external_secrets_refresh ∷ certificate_renew ∷ cron_job_trigger ∷ job_rerun
    ∷ kopiur_snapshot_now ∷ cnpg_backup ∷ cnpg_suspend ∷ []

unfoldable pub api_name : ResourceAction → String
api_name delete = "delete"
api_name evict = "evict"
api_name scale = "scale"
api_name restart = "restart"
api_name cordon = "cordon"
api_name drain = "drain"
api_name logs = "logs"
api_name exec = "exec"
api_name debug_exec = "debug-exec"
api_name node_shell = "node-shell"
api_name flux_reconcile = "flux-reconcile"
api_name flux_reconcile_with_source = "flux-reconcile-with-source"
api_name flux_suspend = "flux-suspend"
api_name flux_force = "flux-force"
api_name flux_reset = "flux-reset"
api_name external_secrets_refresh = "eso-refresh"
api_name certificate_renew = "certificate-renew"
api_name cron_job_trigger = "cronjob-trigger"
api_name job_rerun = "job-rerun"
api_name kopiur_snapshot_now = "kopiur-snapshot-now"
api_name cnpg_backup = "cnpg-backup"
api_name cnpg_suspend = "cnpg-suspend"

-- The arms of the match, in order.
abbrev pub api_names : List (String × ResourceAction)
api_names =
    ("delete", delete)
    ∷ ("evict", evict)
    ∷ ("scale", scale)
    ∷ ("restart", restart)
    ∷ ("cordon", cordon)
    ∷ ("uncordon", cordon)
    ∷ ("drain", drain)
    ∷ ("flux-reconcile", flux_reconcile)
    ∷ ("flux-reconcile-with-source", flux_reconcile_with_source)
    ∷ ("flux-suspend", flux_suspend)
    ∷ ("flux-resume", flux_suspend)
    ∷ ("flux-force", flux_force)
    ∷ ("flux-reset", flux_reset)
    ∷ ("eso-refresh", external_secrets_refresh)
    ∷ ("certificate-renew", certificate_renew)
    ∷ ("cronjob-trigger", cron_job_trigger)
    ∷ ("job-rerun", job_rerun)
    ∷ ("kopiur-snapshot-now", kopiur_snapshot_now)
    ∷ ("cnpg-backup", cnpg_backup)
    ∷ ("cnpg-suspend", cnpg_suspend)
    ∷ ("cnpg-resume", cnpg_suspend)
    ∷ []

unfoldable pub from_api_name : String → Option ResourceAction
from_api_name name = find name api_names

-- The actions that the browser starts over a stream of its own, and not by an action request.
abbrev pub is_streamed : ResourceAction → Bool
is_streamed logs = true
is_streamed exec = true
is_streamed debug_exec = true
is_streamed node_shell = true
is_streamed _ = false

-- The name of an action is read back as the action, except for the four that have a stream of their
-- own: those names are refused.
pub from_api_name-api_name :
    (a : ResourceAction) → from_api_name (api_name a) ≡ (if is_streamed a then none else some a)
unfolding from_api_name api_name find
from_api_name-api_name delete = refl
from_api_name-api_name evict = refl
from_api_name-api_name scale = refl
from_api_name-api_name restart = refl
from_api_name-api_name cordon = refl
from_api_name-api_name drain = refl
from_api_name-api_name logs = refl
from_api_name-api_name exec = refl
from_api_name-api_name debug_exec = refl
from_api_name-api_name node_shell = refl
from_api_name-api_name flux_reconcile = refl
from_api_name-api_name flux_reconcile_with_source = refl
from_api_name-api_name flux_suspend = refl
from_api_name-api_name flux_force = refl
from_api_name-api_name flux_reset = refl
from_api_name-api_name external_secrets_refresh = refl
from_api_name-api_name certificate_renew = refl
from_api_name-api_name cron_job_trigger = refl
from_api_name-api_name job_rerun = refl
from_api_name-api_name kopiur_snapshot_now = refl
from_api_name-api_name cnpg_backup = refl
from_api_name-api_name cnpg_suspend = refl

-- The names of an action: its own, and for three of them that of the inverse.
abbrev pub Names : String → ResourceAction → Type 0
Names name a =
    (name ≡ api_name a)
    ⊎ (((name ≡ "uncordon") × (a ≡ cordon))
        ⊎ (((name ≡ "flux-resume") × (a ≡ flux_suspend))
            ⊎ ((name ≡ "cnpg-resume") × (a ≡ cnpg_suspend))))

api_names-Names : All (λ p. Names p.0 p.1) api_names
unfolding api_name
api_names-Names = (
  inl refl,
  (
    inl refl,
    (
      inl refl,
      (
        inl refl,
        (
          inl refl,
          (
            inr (inl (refl, refl)),
            (
              inl refl,
              (
                inl refl,
                (
                  inl refl,
                  (
                    inl refl,
                    (
                      inr (inr (inl (refl, refl))),
                      (
                        inl refl,
                        (
                          inl refl,
                          (
                            inl refl,
                            (
                              inl refl,
                              (
                                inl refl,
                                (
                                  inl refl,
                                  (
                                    inl refl,
                                    (inl refl, (inl refl, (inr (inr (inr (refl, refl))), tt))),
                                  ),
                                ),
                              ),
                            ),
                          ),
                        ),
                      ),
                    ),
                  ),
                ),
              ),
            ),
          ),
        ),
      ),
    ),
  ),
)

-- A name that is read as an action is the name of the action, or that of the inverse of cordon, of
-- a flux suspension or of a cnpg suspension.
pub from_api_name-Names :
    (name : String) (a : ResourceAction) → from_api_name name ≡ some a → Names name a
unfolding from_api_name
from_api_name-Names name a h = find-All (λ p. Names p.0 p.1) name a api_names api_names-Names h

-- Each of the names of an action that has no stream of its own is read as that action.
pub Names-from_api_name :
    (name : String) (a : ResourceAction)
    → Names name a
    → is_streamed a ≡ false
    → from_api_name name ≡ some a
unfolding from_api_name find
Names-from_api_name name a (inl e) h = ap from_api_name e ∙ from_api_name-api_name a ∙ rw h refl
Names-from_api_name name a (inr (inl (e, k))) h = rw (e, k) refl
Names-from_api_name name a (inr (inr (inl (e, k)))) h = rw (e, k) refl
Names-from_api_name name a (inr (inr (inr (e, k)))) h = rw (e, k) refl

-- A name that is read is not that of an action with a stream of its own.
api_names-streamed : All (λ p. is_streamed p.1 ≡ false) api_names
api_names-streamed = (
  refl,
  (
    refl,
    (
      refl,
      (
        refl,
        (
          refl,
          (
            refl,
            (
              refl,
              (
                refl,
                (
                  refl,
                  (
                    refl,
                    (
                      refl,
                      (
                        refl,
                        (refl, (refl, (refl, (refl, (refl, (refl, (refl, (refl, (refl, tt))))))))),
                      ),
                    ),
                  ),
                ),
              ),
            ),
          ),
        ),
      ),
    ),
  ),
)

pub from_api_name-streamed :
    (name : String) (a : ResourceAction) → from_api_name name ≡ some a → is_streamed a ≡ false
unfolding from_api_name
from_api_name-streamed name a h =
    find-All (λ p. is_streamed p.1 ≡ false) name a api_names api_names-streamed h
