-- ===== src/Commission/Replay/Follows.antt =====
-- The admins that the handlers write follow the ones that they read.
use solana_bridge_program.Common.{◌+◌, ◌<◌, ◌≡◌, true, [], ◌∷◌, ◌++◌, arith}
use solana_bridge_program.Runtime.{u64_mod}
use solana_bridge_program.Commission.State.{CommissionToken, CommissionAdmin}
use solana_bridge_program.Commission.Tokens.{remove_first, update_first}
use solana_bridge_program.Commission.Replay.Sized.{
  IsSized, IsSizedToken, AreSized-append, remove_first-AreSized, update_first-AreSized,
}
use solana_bridge_program.Commission.Replay.Admin.{Follows}

module _ (a : CommissionAdmin) (s : IsSized a) (initialized : a.is_initialized ≡ true)
    (t : CommissionToken) where
  pub added-Follows :
      IsSizedToken t
      → a.add_token_nonce + 1 < u64_mod
      → Follows a (record a {
        add_token_nonce = a.add_token_nonce + 1;
        acceptable_tokens = a.acceptable_tokens ++ t ∷ [];
      })
  added-Follows sized small = record {
    initialized = initialized;
    least = ground arith;
    add = small;
    update = s.update_nonce;
    remove = s.remove_nonce;
    withdraw = s.withdraw_nonce;
    tokens = AreSized-append a.acceptable_tokens (t ∷ []) s.tokens (sized, tt);
  }

  pub removed-Follows :
      a.remove_token_nonce + 1 < u64_mod
      → Follows a (record a {
        acceptable_tokens = remove_first t a.acceptable_tokens;
        remove_token_nonce = a.remove_token_nonce + 1;
      })
  removed-Follows small = record {
    initialized = initialized;
    least = ground arith;
    add = s.add_nonce;
    update = s.update_nonce;
    remove = small;
    withdraw = s.withdraw_nonce;
    tokens = remove_first-AreSized t a.acceptable_tokens s.tokens;
  }

  pub updated-Follows :
      IsSizedToken t
      → a.update_token_nonce + 1 < u64_mod
      → Follows a (record a {
        acceptable_tokens = update_first t a.acceptable_tokens;
        update_token_nonce = a.update_token_nonce + 1;
      })
  updated-Follows sized small = record {
    initialized = initialized;
    least = ground arith;
    add = s.add_nonce;
    update = small;
    remove = s.remove_nonce;
    withdraw = s.withdraw_nonce;
    tokens = update_first-AreSized t a.acceptable_tokens sized s.tokens;
  }

module _ (a : CommissionAdmin) (s : IsSized a) (initialized : a.is_initialized ≡ true) where
  pub withdrawn-Follows :
      a.withdraw_token_nonce + 1 < u64_mod
      → Follows a (record a { withdraw_token_nonce = a.withdraw_token_nonce + 1 })
  withdrawn-Follows small = record {
    initialized = initialized;
    least = ground arith;
    add = s.add_nonce;
    update = s.update_nonce;
    remove = s.remove_nonce;
    withdraw = small;
    tokens = s.tokens;
  }
