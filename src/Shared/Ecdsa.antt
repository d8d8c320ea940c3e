-- ===== src/Shared/Ecdsa.antt =====
-- lib/src/ecdsa.rs: the check of a signature against a stored public key.
use solana_bridge_program.Common.{
  ℕ, ◌≡◌, ◌↔◌, some, none, Bytes, bytes_eq, bytes_eq_iff, Option, if◌then◌else◌, arith,
  Option-cases, inl, inr,
}
use solana_bridge_program.Runtime.{Result, ok, err, into}
use solana_bridge_program.Shared.Error.{invalid_signature, wrong_signature}
use solana_bridge_program.Env.{Env}

module _ (env : Env) where
  check_recovered : Option Bytes → Bytes → Result (Unit {0})
  check_recovered none target_key = err (into invalid_signature)
  check_recovered (some key) target_key =
      if bytes_eq key target_key then ok tt else err (into wrong_signature)

  unfoldable pub verify_ecdsa_signature : Bytes → Bytes → ℕ → Bytes → Result (Unit {0})
  unfolding check_recovered
  verify_ecdsa_signature hash sig reid target_key =
      check_recovered (env.secp256k1_recover hash reid sig) target_key

  -- The check passes exactly when the key recovered from the hash and the signature is the target.
  pub verify_ecdsa_signature_iff :
      (hash sig : Bytes) (reid : ℕ) (target_key : Bytes)
      → (verify_ecdsa_signature hash sig reid target_key ≡ ok tt)
        ↔ (env.secp256k1_recover hash reid sig ≡ some target_key)
  unfolding verify_ecdsa_signature
  verify_ecdsa_signature_iff hash sig reid target_key =
      elim (Option-cases (env.secp256k1_recover hash reid sig)) [
        | inl e ↦ ground arith
        | inr (key, e) ↦ ground (arith, bytes_eq_iff key target_key)
      ]
