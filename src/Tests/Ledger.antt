-- ===== src/Tests/Ledger.antt =====
-- A lawful codec of the commission admin for the tests: four nonces, a flag, the number of tokens
-- and the tokens, each an amount, a tag and a mint.
use solana_bridge_program.Common.{
  ℕ, zero, suc, ◌≤◌, ◌^◌, ◌≡◌, refl, ap, Bool, true, false, ◌&&◌, Bool-cases, inl, inr, Option,
  none, some, List, [], ◌∷◌, ◌++◌, Bytes, length, ltb, ◌==◌, subst, ==_iff, ◌↔◌, if◌then◌else◌,
  arith, append_assoc, length-append,
}
use solana_bridge_program.Runtime.{u64_mod}
use solana_bridge_program.Env.{Borsh, IsLawful}
use solana_bridge_program.Shared.Types.{CommissionToken as CommissionTokenKind}
use solana_bridge_program.Commission.State.{CommissionToken, CommissionAdmin}
use solana_bridge_program.Commission.Replay.Sized.{AreSized, IsSized, IsSizedKind}
use solana_bridge_program.Tests.Codecs.{chunk, chunk-append}

abbrev write_kind : CommissionTokenKind → Bytes
write_kind CommissionTokenKind.native = 0 ∷ []
write_kind (CommissionTokenKind.ft mint) = 1 ∷ mint
write_kind (CommissionTokenKind.nft mint) = 2 ∷ mint

abbrev write_tokens : List CommissionToken → Bytes
write_tokens [] = []
write_tokens (t ∷ tokens) = t.amount ∷ (write_kind t.token ++ write_tokens tokens)

abbrev pub write_ledger : CommissionAdmin → Bytes
write_ledger a =
    a.add_token_nonce
    ∷ a.update_token_nonce
    ∷ a.remove_token_nonce
    ∷ a.withdraw_token_nonce
    ∷ (if a.is_initialized then 1 else 0)
    ∷ length a.acceptable_tokens
    ∷ write_tokens a.acceptable_tokens

abbrev with_mint :
    (Bytes → CommissionTokenKind) → Option (Bytes × Bytes) → Option (CommissionTokenKind × Bytes)
with_mint kind none = none
with_mint kind (some (mint, rest)) = some (kind mint, rest)

abbrev read_kind : Bytes → Option (CommissionTokenKind × Bytes)
read_kind [] = none
read_kind (tag ∷ bytes) =
    if tag == 0
    then some (CommissionTokenKind.native, bytes)
    else if tag == 1
    then with_mint CommissionTokenKind.ft (chunk 32 bytes)
    else with_mint CommissionTokenKind.nft (chunk 32 bytes)

abbrev with_amount :
    ℕ → Option (List CommissionToken) → CommissionTokenKind → Option (List CommissionToken)
with_amount amount none kind = none
with_amount amount (some tokens) kind = some (record { token = kind; amount = amount } ∷ tokens)

abbrev read_rest :
    (Bytes → Option (List CommissionToken))
    → ℕ
    → Option (CommissionTokenKind × Bytes)
    → Option (List CommissionToken)
read_rest read amount none = none
read_rest read amount (some (kind, rest)) = with_amount amount (read rest) kind

abbrev read_tokens : ℕ → Bytes → Option (List CommissionToken)
read_tokens zero bytes = some []
read_tokens (suc n) [] = none
read_tokens (suc n) (amount ∷ bytes) =
    read_rest (λ rest. read_tokens n rest) amount (read_kind bytes)

-- The sizes, as a test.
abbrev kind_fits : CommissionTokenKind → Bool
kind_fits CommissionTokenKind.native = true
kind_fits (CommissionTokenKind.ft mint) = length mint == 32
kind_fits (CommissionTokenKind.nft mint) = length mint == 32

abbrev tokens_fit : List CommissionToken → Bool
tokens_fit [] = true
tokens_fit (t ∷ tokens) = kind_fits t.token && (ltb t.amount u64_mod && tokens_fit tokens)

abbrev admin_fits : CommissionAdmin → Bool
admin_fits a =
    tokens_fit a.acceptable_tokens
    && (ltb (length a.acceptable_tokens) (2 ^ 32)
        && (ltb a.add_token_nonce u64_mod
            && (ltb a.update_token_nonce u64_mod
                && (ltb a.remove_token_nonce u64_mod && ltb a.withdraw_token_nonce u64_mod))))

abbrev checked : CommissionAdmin → Option CommissionAdmin
checked a = if admin_fits a then some a else none

abbrev with_header : ℕ → ℕ → ℕ → ℕ → ℕ → Option (List CommissionToken) → Option CommissionAdmin
with_header add update remove withdraw flag none = none
with_header add update remove withdraw flag (some tokens) = checked (record {
  acceptable_tokens = tokens;
  add_token_nonce = add;
  update_token_nonce = update;
  remove_token_nonce = remove;
  withdraw_token_nonce = withdraw;
  is_initialized = flag == 1;
})

abbrev pub read_ledger : Bytes → Option CommissionAdmin
read_ledger (add ∷ update ∷ remove ∷ withdraw ∷ flag ∷ count ∷ bytes) =
    with_header add update remove withdraw flag (read_tokens count bytes)
read_ledger _ = none

kind_fits-IsSizedKind : (kind : CommissionTokenKind) → (kind_fits kind ≡ true) ↔ IsSizedKind kind
kind_fits-IsSizedKind CommissionTokenKind.native = (λ e. tt, λ h. refl)
kind_fits-IsSizedKind (CommissionTokenKind.ft mint) = ==_iff (length mint) 32
kind_fits-IsSizedKind (CommissionTokenKind.nft mint) = ==_iff (length mint) 32

tokens_fit-AreSized : (tokens : List CommissionToken) → (tokens_fit tokens ≡ true) ↔ AreSized tokens
tokens_fit-AreSized [] = (λ e. tt, λ h. refl)
tokens_fit-AreSized (t ∷ tokens) =
    let kind = kind_fits-IsSizedKind t.token in
    let rest = tokens_fit-AreSized tokens in
    (
      λ e. ((kind.0 (ground arith), ground arith), rest.0 (ground arith)),
      λ h. let one = kind.1 h.0.0 in let two = rest.1 h.1 in let three = h.0.1 in ground arith,
    )

admin_fits-IsSized : (a : CommissionAdmin) → (admin_fits a ≡ true) ↔ IsSized a
admin_fits-IsSized a =
    let tokens = tokens_fit-AreSized a.acceptable_tokens in
    (
      λ e. record {
        tokens = tokens.0 (ground arith);
        tokens_length = ground arith;
        add_nonce = ground arith;
        update_nonce = ground arith;
        remove_nonce = ground arith;
        withdraw_nonce = ground arith;
      },
      λ h. ground (
        arith,
        tokens.1 h.tokens,
        h.tokens_length,
        h.add_nonce,
        h.update_nonce,
        h.remove_nonce,
        h.withdraw_nonce,
      ),
    )

read_kind-write_kind :
    (kind : CommissionTokenKind) (rest : Bytes)
    → IsSizedKind kind
    → read_kind (write_kind kind ++ rest) ≡ some (kind, rest)
read_kind-write_kind CommissionTokenKind.native rest h = refl
read_kind-write_kind (CommissionTokenKind.ft mint) rest h =
    ap (with_mint CommissionTokenKind.ft) (chunk-append 32 mint rest h)
read_kind-write_kind (CommissionTokenKind.nft mint) rest h =
    ap (with_mint CommissionTokenKind.nft) (chunk-append 32 mint rest h)

read_tokens-write_tokens :
    (tokens : List CommissionToken) (rest : Bytes)
    → AreSized tokens
    → read_tokens (length tokens) (write_tokens tokens ++ rest) ≡ some tokens
read_tokens-write_tokens [] rest h = refl
read_tokens-write_tokens (t ∷ tokens) rest h =
    let kind = read_kind-write_kind t.token (write_tokens tokens ++ rest) h.0.0 in
    let others = read_tokens-write_tokens tokens rest h.1 in
    rw (append_assoc (write_kind t.token) (write_tokens tokens) rest, kind, others) refl

flag_back : (flag : Bool) → ((if flag then 1 else 0) == 1) ≡ flag
flag_back true = refl
flag_back false = refl

checked-IsSized : (a c : CommissionAdmin) → checked a ≡ some c → IsSized c
checked-IsSized a c e = elim (Bool-cases (admin_fits a)) [
  | inl fits ↦
      let same : a ≡ c = ground arith in
      subst (λ (x : CommissionAdmin). IsSized x) same ((admin_fits-IsSized a).0 fits)
  | inr large ↦ absurd (ground arith)
]

read_ledger-write_ledger :
    (a : CommissionAdmin) (rest : Bytes) → IsSized a → read_ledger (write_ledger a ++ rest) ≡ some a
read_ledger-write_ledger a rest h =
    let tokens = read_tokens-write_tokens a.acceptable_tokens rest h.tokens in
    let fits = (admin_fits-IsSized a).1 h in rw (tokens, flag_back a.is_initialized, fits) refl

read_header-IsSized :
    (add update remove withdraw flag : ℕ) (tokens : Option (List CommissionToken))
    (a : CommissionAdmin)
    → with_header add update remove withdraw flag tokens ≡ some a
    → IsSized a
read_header-IsSized add update remove withdraw flag none a e = cc
read_header-IsSized add update remove withdraw flag (some tokens) a e =
    checked-IsSized
      (record {
        acceptable_tokens = tokens;
        add_token_nonce = add;
        update_token_nonce = update;
        remove_token_nonce = remove;
        withdraw_token_nonce = withdraw;
        is_initialized = flag == 1;
      })
      a e

read_ledger-IsSized : (bytes : Bytes) (a : CommissionAdmin) → read_ledger bytes ≡ some a → IsSized a
read_ledger-IsSized (add ∷ update ∷ remove ∷ withdraw ∷ flag ∷ count ∷ bytes) a e =
    read_header-IsSized add update remove withdraw flag (read_tokens count bytes) a e
read_ledger-IsSized _ a e = cc

length-write_tokens : (tokens : List CommissionToken) → length tokens ≤ length (write_tokens tokens)
length-write_tokens [] = omega arith
length-write_tokens (t ∷ tokens) =
    let rest = length-write_tokens tokens in
    let sum = length-append (write_kind t.token) (write_tokens tokens) in omega arith

pub write_ledger_takes :
    (a : CommissionAdmin) → length a.acceptable_tokens ≤ length (write_ledger a)
write_ledger_takes a = let tokens = length-write_tokens a.acceptable_tokens in omega arith

abbrev pub ledger_codec : Borsh CommissionAdmin
ledger_codec = record {
  serialize = write_ledger;
  deserialize = read_ledger;
  try_from_slice = read_ledger;
}

pub ledger_codec-IsLawful : IsLawful IsSized ledger_codec
ledger_codec-IsLawful = record {
  round_trip = read_ledger-write_ledger;
  sized = read_ledger-IsSized;
}
