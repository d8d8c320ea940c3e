-- ===== src/Bridge/Kept.antt =====
-- What every bridge instruction keeps: a property of the accounts that no call of another program,
-- no write of data and no move of lamports breaks.
pub mod Calls
pub mod Parts
pub mod Handlers
