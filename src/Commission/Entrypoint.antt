-- ===== src/Commission/Entrypoint.antt =====
-- commission/program/src/entrypoint.rs.
use solana_bridge_program.Common.{List, Bytes}
use solana_bridge_program.Runtime.{Pubkey, AccountInfo, Bank}
use solana_bridge_program.Env.{Env}
use solana_bridge_program.Shared.Report.{Reported, report}
use solana_bridge_program.Commission.Processor as Processor

unfoldable pub process_instruction : Env → Pubkey → List AccountInfo → Bytes → Bank → Reported
process_instruction env program_id accounts instruction_data b =
    report (Processor.process_instruction env program_id accounts instruction_data b)
