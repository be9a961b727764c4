-- ===== src/Routers/Refinement.antt =====
-- The routers implement the pool of slots.
use control_deck.Scheduler.Settings.{Settings}
use control_deck.Routers.Pool.{Pool}
