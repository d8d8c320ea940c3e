-- ===== src/Shared/Error.antt =====
-- lib/src/error.rs: the errors of the three programs and their numbers.
use Prim.Native.Nat.{ℕ}

pub data LibError : Type 0 where
  already_in_use not_rent_exempt not_initialized unsigned_admin wrong_admin : LibError
  wrong_data_len wrong_seeds wrong_nonce wrong_token_account wrong_metadata_account : LibError
  wrong_args_size wrong_mint wrong_merkle_path wrong_merkle_root wrong_content_hash : LibError
  wrong_signature invalid_signature invalid_message invalid_key wrong_token_type : LibError
  wrong_balance uninitialized_metadata wrong_token_standard wrong_token_seed no_token_meta :
      LibError
  uninitialized_mint wrong_commission_program wrong_commission_arguments wrong_commission_account
        not_acceptable :
      LibError
  not_supported : LibError

-- `e as u32`: the place in the enumeration.
unfoldable pub to_u32 : LibError → ℕ
to_u32 already_in_use = 0
to_u32 not_rent_exempt = 1
to_u32 not_initialized = 2
to_u32 unsigned_admin = 3
to_u32 wrong_admin = 4
to_u32 wrong_data_len = 5
to_u32 wrong_seeds = 6
to_u32 wrong_nonce = 7
to_u32 wrong_token_account = 8
to_u32 wrong_metadata_account = 9
to_u32 wrong_args_size = 10
to_u32 wrong_mint = 11
to_u32 wrong_merkle_path = 12
to_u32 wrong_merkle_root = 13
to_u32 wrong_content_hash = 14
to_u32 wrong_signature = 15
to_u32 invalid_signature = 16
to_u32 invalid_message = 17
to_u32 invalid_key = 18
to_u32 wrong_token_type = 19
to_u32 wrong_balance = 20
to_u32 uninitialized_metadata = 21
to_u32 wrong_token_standard = 22
to_u32 wrong_token_seed = 23
to_u32 no_token_meta = 24
to_u32 uninitialized_mint = 25
to_u32 wrong_commission_program = 26
to_u32 wrong_commission_arguments = 27
to_u32 wrong_commission_account = 28
to_u32 not_acceptable = 29
to_u32 not_supported = 30
