-- ===== src/Server/Terminal.antt =====
-- `is_terminal` of src/server/api/drain.rs.
use roder.Prelude.{Bool, true, false}
use roder.Core.Drain.{DrainEventKind, finished, error, cancelled}

unfoldable pub is_terminal : DrainEventKind → Bool
is_terminal (finished summary) = true
is_terminal (error message) = true
is_terminal cancelled = true
is_terminal _ = false
