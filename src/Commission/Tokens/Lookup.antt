-- ===== src/Commission/Tokens/Lookup.antt =====
-- What the changes of the acceptable tokens mean for the commission that is charged.
use solana_bridge_program.Common.{
  ◌≡◌, refl, ap, true, false, Bool-cases, inl, inr, List, [], ◌∷◌, bytes_eq→≡, bytes_eq_refl, arith,
}
use mathlib.Core.List.{◌++◌}
use solana_bridge_program.Runtime.{ok, err, into}
use solana_bridge_program.Shared.Error.{not_acceptable}
use solana_bridge_program.Shared.Types.{CommissionToken as CommissionTokenKind, commission_token_eq}
use solana_bridge_program.Commission.State.{CommissionToken}
use solana_bridge_program.Commission.Tokens.{check_token_is_acceptable, update_first}

pub commission_token_eq→≡ : (a b : CommissionTokenKind) → commission_token_eq a b ≡ true → a ≡ b
unfolding commission_token_eq
commission_token_eq→≡ CommissionTokenKind.native CommissionTokenKind.native e = refl
commission_token_eq→≡ (CommissionTokenKind.ft a) (CommissionTokenKind.ft b) e =
    ap CommissionTokenKind.ft (bytes_eq→≡ a b e)
commission_token_eq→≡ (CommissionTokenKind.nft a) (CommissionTokenKind.nft b) e =
    ap CommissionTokenKind.nft (bytes_eq→≡ a b e)
commission_token_eq→≡ _ _ e = cc

pub commission_token_eq_refl : (a : CommissionTokenKind) → commission_token_eq a a ≡ true
unfolding commission_token_eq
commission_token_eq_refl CommissionTokenKind.native = refl
commission_token_eq_refl (CommissionTokenKind.ft a) = bytes_eq_refl a
commission_token_eq_refl (CommissionTokenKind.nft a) = bytes_eq_refl a

-- Every entry of the list is of another token.
abbrev pub NoneOf : CommissionTokenKind → List CommissionToken → Type 0
NoneOf token [] = Unit {0}
NoneOf token (l ∷ list) = (commission_token_eq l.token token ≡ false) × NoneOf token list

-- A token is acceptable exactly through its first entry: where the check succeeds, what it gives is
-- an entry of the token, and no entry before it is of the token.
pub check_first :
    (list : List CommissionToken) (token : CommissionTokenKind) (t : CommissionToken)
    → check_token_is_acceptable list token ≡ ok t
    → (before : List CommissionToken) × (after : List CommissionToken) × (list
        ≡ before ++ t ∷ after)
      × (t.token ≡ token)
      × NoneOf token before
unfolding check_token_is_acceptable
check_first [] token t e = cc
check_first (l ∷ list) token t e = elim (Bool-cases (commission_token_eq l.token token)) [
  | inl same ↦
      let is_t : l ≡ t = ground arith in
      (
        [],
        list,
        ap (λ x. x ∷ list) is_t,
        (rw (← is_t) (commission_token_eq→≡ l.token token same)),
        tt,
      )
  | inr other ↦
      let (before, after, is, same, none_of) = check_first list token t (ground arith) in
      (l ∷ before, after, ap (◌∷◌ l) is, same, (other, none_of))
]

-- After an update, the token is charged at its new amount, if it was acceptable before.
check-update_self :
    (list : List CommissionToken) (token t : CommissionToken)
    → check_token_is_acceptable list token.token ≡ ok t
    → check_token_is_acceptable (update_first token list) token.token
      ≡ ok (record t { amount = token.amount })
unfolding check_token_is_acceptable update_first
check-update_self [] token t e = cc
check-update_self (l ∷ list) token t e =
    elim (Bool-cases (commission_token_eq l.token token.token)) [
      | inl same ↦ ground arith
      | inr other ↦ let rest = check-update_self list token t (ground arith) in ground arith
    ]

-- An update of one token leaves the check of every other token as it was.
check-update_other :
    (list : List CommissionToken) (token : CommissionToken) (other : CommissionTokenKind)
    → commission_token_eq token.token other ≡ false
    → check_token_is_acceptable (update_first token list) other
      ≡ check_token_is_acceptable list other
unfolding check_token_is_acceptable update_first
check-update_other [] token other ne = refl
check-update_other (l ∷ list) token other ne =
    let rest = check-update_other list token other ne in
    elim (Bool-cases (commission_token_eq l.token token.token)) [
      | inl same ↦
          let is = commission_token_eq→≡ l.token token.token same in
          let apart : commission_token_eq l.token other ≡ false = rw is ne in ground arith
      | inr differs ↦ ground arith
    ]

-- Adding a token has no effect on the charge of a token that was acceptable before: a second entry
-- of it is never reached.
check-add_kept :
    (list : List CommissionToken) (token t : CommissionToken) (asked : CommissionTokenKind)
    → check_token_is_acceptable list asked ≡ ok t
    → check_token_is_acceptable (list ++ token ∷ []) asked ≡ ok t
unfolding check_token_is_acceptable
check-add_kept [] token t asked e = cc
check-add_kept (l ∷ list) token t asked e = elim (Bool-cases (commission_token_eq l.token asked)) [
  | inl same ↦ ground arith
  | inr other ↦ let rest = check-add_kept list token t asked (ground arith) in ground arith
]

-- Adding a token that was not acceptable makes it so, at the amount that was given.
check-add_new :
    (list : List CommissionToken) (token : CommissionToken)
    → check_token_is_acceptable list token.token ≡ err (into not_acceptable)
    → check_token_is_acceptable (list ++ token ∷ []) token.token ≡ ok token
unfolding check_token_is_acceptable
check-add_new [] token e = ground (arith, commission_token_eq_refl token.token)
check-add_new (l ∷ list) token e = elim (Bool-cases (commission_token_eq l.token token.token)) [
  | inl same ↦ cc
  | inr other ↦ let rest = check-add_new list token (ground arith) in ground arith
]
