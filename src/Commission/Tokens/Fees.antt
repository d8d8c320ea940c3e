-- ===== src/Commission/Tokens/Fees.antt =====
-- The list of acceptable tokens in commission/program/src/processor.rs as a table of fees.
pub mod Distinct
use solana_bridge_program.Common.{
  ℕ, ◌==◌, ◌≡◌, refl, true, false, Bool, Bool-cases, inl, inr, if◌then◌else◌, ◌&&◌, Option, none,
  some, List, [], ◌∷◌, ◌++◌, arith, sym, ◌∙◌, ap,
}
use solana_bridge_program.Runtime.{Result, ok, err}
use solana_bridge_program.Shared.Types.{CommissionToken as CommissionTokenKind, commission_token_eq}
use solana_bridge_program.Commission.State.{
  CommissionToken, OperationType, add_token, remove_token, update_token, withdraw_token,
}
use solana_bridge_program.Commission.Tokens.{
  token_eq, check_token_is_acceptable, remove_first, update_first,
}
use solana_bridge_program.Commission.Tokens.Lookup.{
  NoneOf, commission_token_eq→≡, commission_token_eq_refl,
}

-- What is charged for each token; `none` for one that is not acceptable.
abbrev pub Fees : Type 0
Fees = CommissionTokenKind → Option ℕ

abbrev fee_of : Result CommissionToken → Option ℕ
fee_of (ok t) = some t.amount
fee_of (err e) = none

-- The table that a list stands for.
unfoldable pub fees : List CommissionToken → Fees
fees list token = fee_of (check_token_is_acceptable list token)

abbrev keep_or : Option ℕ → ℕ → Option ℕ
keep_or none n = some n
keep_or (some m) n = some m

abbrev replace : Option ℕ → ℕ → Option ℕ
replace none n = none
replace (some m) n = some n

abbrev remove_at : Option ℕ → ℕ → Option ℕ
remove_at none n = none
remove_at (some m) n = if m == n then none else some m

-- What a signed operation does to the table: an addition does not replace a fee, an update does not
-- make one, a removal must name the fee, and a withdrawal leaves the table as it is.
unfoldable pub apply_operation : OperationType → CommissionToken → Fees → Fees
apply_operation add_token t table k =
    if commission_token_eq t.token k then keep_or (table k) t.amount else table k
apply_operation remove_token t table k =
    if commission_token_eq t.token k then remove_at (table k) t.amount else table k
apply_operation update_token t table k =
    if commission_token_eq t.token k then replace (table k) t.amount else table k
apply_operation withdraw_token t table k = table k

-- What it does to the list, in its handler.
unfoldable pub change_tokens :
    OperationType → CommissionToken → List CommissionToken → List CommissionToken
change_tokens add_token t list = list ++ t ∷ []
change_tokens remove_token t list = remove_first t list
change_tokens update_token t list = update_first t list
change_tokens withdraw_token t list = list

-- No token has two entries.
abbrev pub AreDistinct : List CommissionToken → Type 0
AreDistinct [] = Unit {0}
AreDistinct (l ∷ list) = NoneOf l.token list × AreDistinct list

NoneOf-fees :
    (k : CommissionTokenKind) (list : List CommissionToken) → NoneOf k list → fees list k ≡ none
unfolding fees check_token_is_acceptable
NoneOf-fees k [] h = refl
NoneOf-fees k (l ∷ list) h = let rest = NoneOf-fees k list h.1 in ground (arith, h.0)

added_fees :
    (t : CommissionToken) (list : List CommissionToken) (k : CommissionTokenKind)
    → fees (list ++ t ∷ []) k ≡ apply_operation add_token t (fees list) k
unfolding fees apply_operation check_token_is_acceptable
added_fees t [] k = elim (Bool-cases (commission_token_eq t.token k)) [
  | inl same ↦ ground arith
  | inr other ↦ ground arith
]
added_fees t (l ∷ list) k =
    let rest = added_fees t list k in
    elim (Bool-cases (commission_token_eq l.token k)) [
      | inl same ↦ ground arith
      | inr other ↦ ground arith
    ]

updated_fees :
    (t : CommissionToken) (list : List CommissionToken) (k : CommissionTokenKind)
    → fees (update_first t list) k ≡ apply_operation update_token t (fees list) k
unfolding fees apply_operation check_token_is_acceptable update_first
updated_fees t [] k = elim (Bool-cases (commission_token_eq t.token k)) [
  | inl same ↦ ground arith
  | inr other ↦ ground arith
]
updated_fees t (l ∷ list) k =
    let rest = updated_fees t list k in
    elim (Bool-cases (commission_token_eq l.token t.token)) [
      | inl same ↦
          let is = commission_token_eq→≡ l.token t.token same in
          let also = ap (λ j. commission_token_eq j k) is in
          elim (Bool-cases (commission_token_eq t.token k)) [
            | inl here ↦ ground arith
            | inr there ↦ ground arith
          ]
      | inr other ↦ elim (Bool-cases (commission_token_eq t.token k)) [
        | inl here ↦
            let also = ap (commission_token_eq l.token) (commission_token_eq→≡ t.token k here) in
            ground arith
        | inr there ↦ ground arith
      ]
    ]

removed_fees :
    (t : CommissionToken) (list : List CommissionToken) (k : CommissionTokenKind)
    → AreDistinct list
    → fees (remove_first t list) k ≡ apply_operation remove_token t (fees list) k
unfolding fees apply_operation check_token_is_acceptable remove_first token_eq
removed_fees t [] k distinct = elim (Bool-cases (commission_token_eq t.token k)) [
  | inl same ↦ ground arith
  | inr other ↦ ground arith
]
removed_fees t (l ∷ list) k distinct =
    let rest = removed_fees t list k distinct.1 in
    elim (Bool-cases (commission_token_eq l.token t.token)) [
      | inl same ↦
          let is = commission_token_eq→≡ l.token t.token same in
          let also = ap (λ j. commission_token_eq j k) is in
          elim (Bool-cases (commission_token_eq t.token k)) [
            | inl here ↦
                let apart = NoneOf-fees l.token list distinct.0 in
                let at_k = ap (fees list) (is ∙ commission_token_eq→≡ t.token k here) in
                elim (Bool-cases (l.amount == t.amount)) [
                  | inl equal ↦ let gone = sym at_k ∙ apart in ground arith
                  | inr differs ↦ ground arith
                ]
            | inr there ↦ ground arith
          ]
      | inr other ↦ elim (Bool-cases (commission_token_eq t.token k)) [
        | inl here ↦
            let also = ap (commission_token_eq l.token) (commission_token_eq→≡ t.token k here) in
            ground arith
        | inr there ↦ ground arith
      ]
    ]

-- On a list without a second entry of a token, an operation does to the table of the list what its
-- description says.
pub operation_refines :
    (operation : OperationType) (t : CommissionToken) (list : List CommissionToken)
    (k : CommissionTokenKind)
    → AreDistinct list
    → fees (change_tokens operation t list) k ≡ apply_operation operation t (fees list) k
unfolding change_tokens apply_operation
operation_refines add_token t list k distinct = added_fees t list k
operation_refines remove_token t list k distinct = removed_fees t list k distinct
operation_refines update_token t list k distinct = updated_fees t list k
operation_refines withdraw_token t list k distinct = refl
