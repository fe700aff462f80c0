-- ===== src/Core/Actions/Tests.antt =====
-- Inputs for the names of actions.
use roder.Prelude.{◌≡◌, refl, some}
use roder.Core.Actions.{cordon, from_api_name}
use roder.Prelude.Maps.{find}

reads_uncordon : from_api_name "uncordon" ≡ some cordon
unfolding from_api_name find
reads_uncordon = refl
