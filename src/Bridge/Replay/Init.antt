-- ===== src/Bridge/Replay/Init.antt =====
-- The creation of a bridge admin, tried again after any history.
use solana_bridge_program.Env.{Env}
use solana_bridge_program.Bridge.Admin.Initialized.{Initialized}
