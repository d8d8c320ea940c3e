-- ===== src/Runtime/Keeps.antt =====
-- Invariants of actions that succeed, one rule for each way to build an action.
use solana_bridge_program.Common.{
  ◌≡◌, Bool, true, false, Option, some, none, arith, List, [], ◌∷◌, subst,
}
use solana_bridge_program.Shared.Error.{LibError}
use solana_bridge_program.Runtime.{
  Bank, M, Result, ok, err, ProgramError, not_enough_account_keys, AccountInfo, pure, fail, abort,
  lift, read, require, from_option, when, account, next_account_info, bind-ok, ◌>>=◌,
}

-- Where `m` succeeds, it keeps `P`.
pub record Keeps {A : Type 0} (P : Bank → Type 0) (m : M A) : Type 0 where
  pub at : (b b' : Bank) (a : A) → m b ≡ ok (a, b') → P b → P b'

module _ {A : Type 0} {P : Bank → Type 0} where
  pub Keeps-pure : (a : A) → Keeps P (pure a)
  Keeps-pure a = record { at = λ b b' r e h. subst P (ground arith) h }

  pub Keeps-abort : (e : ProgramError) → Keeps P (abort {A = A} e)
  Keeps-abort e = record { at = λ b b' r e h. cc }

  pub Keeps-fail : (e : LibError) → Keeps P (fail {A = A} e)
  Keeps-fail e = record { at = λ b b' r e h. cc }

  pub Keeps-lift : (r : Result A) → Keeps P (lift r)
  Keeps-lift (ok a) = Keeps-pure a
  Keeps-lift (err e) = Keeps-abort e

  pub Keeps-from_option : (o : Option A) (e : ProgramError) → Keeps P (from_option o e)
  Keeps-from_option (some a) e = Keeps-pure a
  Keeps-from_option none e = Keeps-abort e

  pub Keeps-read : (f : Bank → Result A) → Keeps P (read f)
  Keeps-read f = record { at = λ b b' r e h. (Keeps-lift (f b)).at b b' r e h }

module _ {P : Bank → Type 0} where
  pub Keeps-require : (test : Bool) (e : LibError) → Keeps P (require test e)
  Keeps-require true e = Keeps-pure tt
  Keeps-require false e = Keeps-fail e

  pub Keeps-when : (test : Bool) (m : M (Unit {0})) → Keeps P m → Keeps P (when test m)
  Keeps-when true m h = h
  Keeps-when false m h = Keeps-pure tt

  pub Keeps-account : (info : AccountInfo) → Keeps P (account info)
  Keeps-account info = record { at = λ b b' r e h. subst P (ground arith) h }

module _ {A B : Type 0} {P : Bank → Type 0} where
  pub Keeps-bind :
      (m : M A) (f : A → M B) → Keeps P m → ((a : A) → Keeps P (f a)) → Keeps P (m >>= f)
  Keeps-bind m f km kf = record {
    at = λ b b' r e h.
        let (a, b1, e1, f1) = bind-ok m f e in (kf a).at b1 b' r f1 (km.at b b1 a e1 h);
  }

pub Keeps-next_account_info :
    {P : Bank → Type 0} (infos : List AccountInfo) → Keeps P (next_account_info infos)
unfolding next_account_info
Keeps-next_account_info [] = Keeps-abort not_enough_account_keys
Keeps-next_account_info (a ∷ rest) = Keeps-pure (a, rest)

pub ruleset keeps_rules = (
  Keeps-pure, Keeps-abort, Keeps-fail, Keeps-lift, Keeps-from_option, Keeps-read, Keeps-require,
  Keeps-when, Keeps-account, Keeps-bind, Keeps-next_account_info,
)

-- Where `m` succeeds, `P` did not hold before and holds afterwards.
pub record Once {A : Type 0} (P : Bank → Type 0) (m : M A) : Type 0 where
  pub fresh : (b b' : Bank) (a : A) → m b ≡ ok (a, b') → ¬ P b
  pub used : (b b' : Bank) (a : A) → m b ≡ ok (a, b') → P b'

module _ {A B : Type 0} {P : Bank → Type 0} where
  pub Once-first : (m : M A) (f : A → M B) → Once P m → ((a : A) → Keeps P (f a)) → Once P (m >>= f)
  Once-first m f om kf = record {
    fresh = λ b b' r e. let (a, b1, e1, f1) = bind-ok m f e in om.fresh b b1 a e1;
    used =
        λ b b' r e. let (a, b1, e1, f1) = bind-ok m f e in (kf a).at b1 b' r f1 (om.used b b1 a e1);
  }

  pub Once-second :
      (m : M A) (f : A → M B) → Keeps P m → ((a : A) → Once P (f a)) → Once P (m >>= f)
  Once-second m f km of = record {
    fresh = λ b b' r e h.
        let (a, b1, e1, f1) = bind-ok m f e in (of a).fresh b1 b' r f1 (km.at b b1 a e1 h);
    used = λ b b' r e. let (a, b1, e1, f1) = bind-ok m f e in (of a).used b1 b' r f1;
  }
