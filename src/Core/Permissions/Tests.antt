-- ===== src/Core/Permissions/Tests.antt =====
-- Inputs for the actions of a kind and the permissions of a user.
use roder.Prelude.{◌≡◌, ◌↔◌, refl, true, false, [], ◌∷◌}
use roder.Core.Actions.{ResourceAction, logs, Names, is_streamed}
use roder.Core.Permissions.Kinds.{offers, for_gvk-supports}
use roder.Core.Permissions.{
  ActionPermissions, allows, allows_api_name, allows_api_name-Names, for_gvk, supports, is,
  has_rollout,
}

abbrev operator : ActionPermissions
operator = record { apply = true; actions = ("cordon", true) ∷ ("logs", true) ∷ [] }

deployment_has_logs : offers logs "apps" "Deployment" ≡ true
unfolding is has_rollout
deployment_has_logs = refl

for_gvk-supports_example :
    supports (for_gvk "apps" "v1" "Deployment") logs ≡ offers logs "apps" "Deployment"
for_gvk-supports_example = for_gvk-supports "apps" "v1" "Deployment" logs

allows_api_name-Names_example : (allows_api_name operator "uncordon" ≡ true) ↔ (
    (a : ResourceAction) × Names "uncordon" a
    × (is_streamed a ≡ false)
    × (allows operator a ≡ true))
allows_api_name-Names_example = allows_api_name-Names operator "uncordon"
