-- ===== src/Commission/Tokens.antt =====
-- The list of acceptable tokens in commission/program/src/processor.rs.
pub mod Lookup
pub mod Fees
use solana_bridge_program.Common.{ℕ, Bool, ◌&&◌, ◌==◌, if◌then◌else◌, List, [], ◌∷◌}
use mathlib.Core.List.{map, ◌++◌}
use solana_bridge_program.Runtime.{Result, ok, err, into}
use solana_bridge_program.Shared.Error.{not_acceptable}
use solana_bridge_program.Shared.Types.{CommissionToken as CommissionTokenKind, commission_token_eq}
use solana_bridge_program.Shared.Instructions.Commission.{CommissionTokenArg}
use solana_bridge_program.Commission.State.{CommissionToken, from_arg}

-- The derived `PartialEq` of `CommissionToken`.
unfoldable pub token_eq : CommissionToken → CommissionToken → Bool
token_eq a b = commission_token_eq a.token b.token && a.amount == b.amount

unfoldable pub check_token_is_acceptable :
    List CommissionToken → CommissionTokenKind → Result CommissionToken
check_token_is_acceptable [] token = err (into not_acceptable)
check_token_is_acceptable (l ∷ list) token =
    if commission_token_eq l.token token then ok l else check_token_is_acceptable list token

-- The loop of `process_init_admin`: `push` onto an empty vector.
unfoldable pub push_tokens : List CommissionToken → List CommissionTokenArg → List CommissionToken
push_tokens tokens [] = tokens
push_tokens tokens (t ∷ args) = push_tokens (tokens ++ from_arg t ∷ []) args

-- The loop of `process_remove_token`: the first equal entry is removed.
unfoldable pub remove_first : CommissionToken → List CommissionToken → List CommissionToken
remove_first token [] = []
remove_first token (l ∷ list) = if token_eq l token then list else l ∷ remove_first token list

-- The loop of `process_update_token`: the first entry of the token gets the new amount.
unfoldable pub update_first : CommissionToken → List CommissionToken → List CommissionToken
update_first token [] = []
update_first token (l ∷ list) =
    if commission_token_eq l.token token.token
    then record l { amount = token.amount } ∷ list
    else l ∷ update_first token list
