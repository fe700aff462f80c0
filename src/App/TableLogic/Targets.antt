-- ===== src/App/TableLogic/Targets.antt =====
-- What an action is for (src/app/table_logic.rs).
use roder.Prelude.{string_eq}
