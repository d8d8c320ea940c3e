-- ===== src/Shared/Types.antt =====
-- lib/src/lib.rs: the types and constants that the three programs share.
use Prim.Native.Nat.{ℕ}
use Prim.Native.Char.{code}
use Prim.Native.String.{String}
use mathlib.Core.Bool.{Bool, true, false}
use mathlib.Core.List.{◌∷◌, []}
use solana_bridge_program.Common.{Bytes, bytes_eq}
use solana_bridge_program.Runtime.{Pubkey}

-- `s.as_bytes()` of an ASCII literal.
abbrev pub as_bytes : String → Bytes
as_bytes String.[] = []
as_bytes (String.◌∷◌ c s) = code c ∷ as_bytes s

unfoldable pub solana_network : Bytes
solana_network = as_bytes "Solana"

unfoldable pub commission_admin_pda_seed : Bytes
commission_admin_pda_seed = as_bytes "commission_admin"

unfoldable pub upgrade_admin_pda_seed : Bytes
upgrade_admin_pda_seed = as_bytes "upgrade_admin"

pub data TokenType : Type 0 where
  native ft nft : TokenType

-- The derived `PartialEq`.
abbrev pub token_type_eq : TokenType → TokenType → Bool
token_type_eq native native = true
token_type_eq ft ft = true
token_type_eq nft nft = true
token_type_eq _ _ = false

pub data CommissionToken : Type 0 where
  native : CommissionToken
  ft nft : Pubkey → CommissionToken

unfoldable pub commission_token_eq : CommissionToken → CommissionToken → Bool
unfolding bytes_eq
commission_token_eq CommissionToken.native CommissionToken.native = true
commission_token_eq (CommissionToken.ft a) (CommissionToken.ft b) = bytes_eq a b
commission_token_eq (CommissionToken.nft a) (CommissionToken.nft b) = bytes_eq a b
commission_token_eq _ _ = false

pub record CommissionArgs : Type 0 where
  pub token : CommissionToken
  pub deposit_token : TokenType
  pub deposit_token_amount : ℕ
