-- ===== src/Domain/Errors.antt =====
-- server/internal/domain/errors.go. A message and a wrapped cause are words for a person and for
-- the log, which no code reads: they are left out. A Go function that returns a value and an error
-- returns `Result`.
use cuckoo.Base.{ℕ, String, ◌≡◌, refl, Bool, true, false, Option, none, some, if◌then◌else◌}

pub data Kind : Type 0 where
  internal invalid unauthorized forbidden not_found conflict rate_limited : Kind

pub record Error : Type 0 where
  pub kind : Kind
  pub code : String
  pub field : String
  pub retry_after : ℕ

abbrev pub internal_error : Error
internal_error = record {
  kind = Kind.internal;
  code = "internal_error";
  field = "";
  retry_after = 0;
}

abbrev pub invalid_error : String → Error
invalid_error c = record { kind = Kind.invalid; code = c; field = ""; retry_after = 0 }

abbrev pub invalid_field : String → String → Error
invalid_field f c = record { kind = Kind.invalid; code = c; field = f; retry_after = 0 }

abbrev pub unauthorized_error : String → Error
unauthorized_error c = record { kind = Kind.unauthorized; code = c; field = ""; retry_after = 0 }

abbrev pub forbidden_error : String → Error
forbidden_error c = record { kind = Kind.forbidden; code = c; field = ""; retry_after = 0 }

abbrev pub not_found_error : String → Error
not_found_error c = record { kind = Kind.not_found; code = c; field = ""; retry_after = 0 }

abbrev pub conflict_error : String → Error
conflict_error c = record { kind = Kind.conflict; code = c; field = ""; retry_after = 0 }

abbrev pub rate_limited_error : String → ℕ → Error
rate_limited_error c wait = record {
  kind = Kind.rate_limited;
  code = c;
  field = "";
  retry_after = wait;
}

-- A Go error chain: a `*Error`, an error that wraps another by `%w`, or one that wraps nothing.
pub data GoError : Type 0 where
  classified : Error → GoError
  wrapping : GoError → GoError
  plain : GoError

-- `errors.As` walks the chain to the first `*Error`.
abbrev pub as_error : GoError → Option Error
as_error (classified e) = some e
as_error (wrapping e) = as_error e
as_error plain = none

abbrev pub kind_of : GoError → Kind
kind_of e = elim (as_error e) [ none ↦ Kind.internal | some d ↦ d.kind ]

abbrev pub code_of : GoError → String
code_of e = elim (as_error e) [ none ↦ "internal_error" | some d ↦ d.code ]

pub data Result {ℓ} (A : Type ℓ) : Type ℓ where
  ok : A → Result A
  err : Error → Result A

-- `if bad { return err }`.
abbrev pub refuse_if : Bool → Error → Result (Unit {0})
refuse_if false failure = ok tt
refuse_if true failure = err failure

infixl 5 ◌>>◌ ◌>>=◌
-- `v, err := m; if err != nil { return err }`, and then `next`.
abbrev pub ◌>>=◌ {κ ι} : {V : Type κ} {W : Type ι} → Result V → (V → Result W) → Result W
err failure >>= next = err failure
ok v >>= next = next v

-- What a chain that succeeded went through.
pub >>=-eq-ok {κ ι} :
    {V : Type κ} {W : Type ι} (first : Result V) (next : V → Result W) {w : W}
    → (first >>= next) ≡ ok w
    → (v : V) × (first ≡ ok v) × (next v ≡ ok w)
>>=-eq-ok (err failure) next chain = cc
>>=-eq-ok (ok v) next chain = (v, refl, chain)

abbrev pub ◌>>◌ {ι} : {W : Type ι} → Result (Unit {0}) → Result W → Result W
check >> rest = check >>= λ _. rest

-- A check that was passed.
pub refuse_if->> {ι} :
    {W : Type ι} (bad : Bool) (failure : Error) (rest : Result W) {w : W}
    → (refuse_if bad failure >> rest) ≡ ok w
    → (bad ≡ false) × (rest ≡ ok w)
refuse_if->> true failure rest chain = cc
refuse_if->> false failure rest chain = (refl, chain)

pub ok-injective {κ} : {V : Type κ} {v w : V} → ok v ≡ ok w → v ≡ w
ok-injective same = cc

-- `if bad { return err }` before a result.
pub if-err-ok {ι} :
    {W : Type ι} (bad : Bool) (failure : Error) (v : W) {w : W}
    → (if bad then err failure else ok v) ≡ ok w
    → (bad ≡ false) × (v ≡ w)
if-err-ok true failure v chain = cc
if-err-ok false failure v chain = (refl, ok-injective chain)
