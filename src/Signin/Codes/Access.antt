-- ===== src/Signin/Codes/Access.antt =====
-- What a code is worth: it signs in once, only while it is the newest for its address, and five guesses
-- end it.
use cuckoo.Base.{
  ℕ, ◌+◌, ◌≤◌, ◌<◌, ◌≡◌, ◌≢◌, refl, sym, ◌∙◌, subst, ◌⊎◌, inl, inr, true, ◌||◌, Option, none, some,
  List, [], ◌∷◌, arith, ◌==◌, ==→eq, ltb, is_some, Bool-cases, Option-cases, All, length,
}
use cuckoo.Base.Text.{Text, trim_space}
use cuckoo.Domain.Errors.{Error, Result, ok, err, ok-injective, >>=-eq-ok}
use cuckoo.Signin.Codes.Newest.{latest-update, tried-KeepsPlace, used-KeepsPlace}
use cuckoo.Signin.Codes.{
  SignInCode, tried, used, get_latest_sign_in_code, count_sign_in_attempt, mark_sign_in_code_used,
  normalize_email, validate_device_name, Accounts, Store, sign_in, account_for, welcomed, committed,
  check_code, check_latest, verify_as, verify, code_attempts_max,
}

-- How one call of `Verify` leaves the newest code of its address, and what it answers.
data Outcome (hash : ℕ → Text → ℕ) (now : ℕ) (guess : Text) (row : SignInCode)
    : Option SignInCode → Result ℕ → Type 0 where
  refused :
      {e : Error}
      → (is_some row.used_at || ltb row.expires_at now) ≡ true
      → Outcome hash now guess row (some row) (err e)
  counted : {e : Error} → Outcome hash now guess row (some (tried row)) (err e)
  signed_in :
      {user : ℕ}
      → row.used_at ≡ none
      → now ≤ row.expires_at
      → row.attempts < code_attempts_max
      → hash row.id (trim_space guess) ≡ row.code_hash
      → Outcome hash now guess row (some (used now (tried row))) (ok user)

module _ (a : Accounts) (hash : ℕ → Text → ℕ) (now fresh token : ℕ) (email guess : Text) where
  abbrev newest_of_address : Store a → Option SignInCode
  newest_of_address s = get_latest_sign_in_code email s.sign_in_codes

  sign_in-codes :
      (device : Text) (i : ℕ) (s after : Store a) (user : ℕ)
      → sign_in a now fresh token email device i s ≡ ok (after, user)
      → after.sign_in_codes ≡ mark_sign_in_code_used now i s.sign_in_codes
  unfolding sign_in
  sign_in-codes device i s after user e =
      let (found, _, e1) = >>=-eq-ok (account_for a email s.accounts) _ e in
      let (st, _, e2) = >>=-eq-ok (welcomed a found) _ e1 in
      let (_, _, e3) = >>=-eq-ok (a.get_user found.1 st) _ e2 in cc

  sign_in-Outcome :
      (device : Text) (row : SignInCode) (s counted_store : Store a)
      → row.used_at ≡ none
      → now ≤ row.expires_at
      → row.attempts < code_attempts_max
      → hash row.id (trim_space guess) ≡ row.code_hash
      → newest_of_address counted_store ≡ some (tried row)
      → let result =
          committed a counted_store (sign_in a now fresh token email device row.id counted_store) in
        Outcome hash now guess row (newest_of_address result.0) result.1
  unfolding committed mark_sign_in_code_used
  sign_in-Outcome device row s counted_store unused live few same latest =
      go (sign_in a now fresh token email device row.id counted_store) refl
    where
      go :
          (r : Result (Store a × ℕ))
          → sign_in a now fresh token email device row.id counted_store ≡ r
          → Outcome hash now guess row
              (newest_of_address (committed a counted_store r).0)
              (committed a counted_store r).1
      go (err e) h = rw latest counted
      go (ok (after, user)) h =
          rw
            (
              sign_in-codes device row.id counted_store after user h,
              latest-update email (used now) counted_store.sign_in_codes (tried row)
                  (used-KeepsPlace now) latest,
            )
            (signed_in unused live few same)

  -- A call that finds a code.
  check_latest-Outcome :
      (device : Text) (row : SignInCode) (s : Store a)
      → newest_of_address s ≡ some row
      → let result = check_latest a hash now fresh token email device guess (some row) s in
        Outcome hash now guess row (newest_of_address result.0) result.1
  unfolding check_latest check_code count_sign_in_attempt
  check_latest-Outcome device row s latest =
      elim (Bool-cases (is_some row.used_at || ltb row.expires_at now)) [
        | inl e ↦ rw (e, latest) (refused e)
        | inr e ↦ rw e (elim (Bool-cases (ltb code_attempts_max (row.attempts + 1))) [
          | inl f ↦
              rw (f, latest-update email tried s.sign_in_codes row tried-KeepsPlace latest) counted
          | inr f ↦ rw f (elim (Bool-cases (hash row.id (trim_space guess) == row.code_hash)) [
            | inr g ↦
                rw (g, latest-update email tried s.sign_in_codes row tried-KeepsPlace latest)
                  counted
            | inl g ↦ rw g (
                sign_in-Outcome device row s
                  (record s { sign_in_codes = count_sign_in_attempt row.id s.sign_in_codes })
                  (ground arith) (ground arith) (ground arith) (==→eq _ _ g)
                  (latest-update email tried s.sign_in_codes row tried-KeepsPlace latest))
          ])
        ])
      ]

-- A guess that signed in: the code was live, it was the one, and it is used now.
abbrev pub Matched : (ℕ → Text → ℕ) → ℕ → Text → SignInCode → Option SignInCode → Type 0
Matched hash now guess row after =
    (row.used_at ≡ none)
    × (now ≤ row.expires_at)
    × (row.attempts < code_attempts_max)
    × (hash row.id (trim_space guess) ≡ row.code_hash)
    × (after ≡ some (used now (tried row)))

matched :
    (hash : ℕ → Text → ℕ) (now : ℕ) (guess : Text) (row : SignInCode) (after : Option SignInCode)
    (r : Result ℕ) (user : ℕ)
    → Outcome hash now guess row after r
    → r ≡ ok user
    → Matched hash now guess row after
matched hash now guess row after r user (refused _) h = cc
matched hash now guess row after r user counted h = cc
matched hash now guess row after r user (signed_in unused live few same) h =
    (unused, live, few, same, refl)

-- One call of `Verify`, with what it was asked.
pub record Call : Type 0 where
  pub now : ℕ
  pub session : ℕ
  pub token : ℕ
  pub guess : Text
  pub device : Text

module _ (a : Accounts) (lower : Text → Text) (parse_address : Text → Option Text)
    (hash : ℕ → Text → ℕ) (raw : Text) where
  -- The state after a call about the address, and the answer.
  abbrev pub call : Call → Store a → Store a × Result ℕ
  call g s = verify a lower parse_address hash g.now g.session g.token raw g.guess g.device s

  abbrev pub calls : List Call → Store a → Store a
  calls [] s = s
  calls (g ∷ gs) s = calls gs (call g s).0

  answered :
      (g : Call) (s : Store a) (user : ℕ) (email device : Result Text)
      → (verify_as a hash g.now g.session g.token g.guess email device s).1 ≡ ok user
      → (address : Text) × (row : SignInCode) × (email ≡ ok address)
        × (get_latest_sign_in_code address s.sign_in_codes ≡ some row)
        × Matched hash g.now g.guess row (
            get_latest_sign_in_code address
              (verify_as a hash g.now g.session g.token g.guess email device s).0.sign_in_codes)
  unfolding verify_as
  answered g s user (err e) device h = cc
  answered g s user (ok address) (err e) h = cc
  answered g s user (ok address) (ok device) h =
      elim (Option-cases (get_latest_sign_in_code address s.sign_in_codes)) [
        | inl e ↦ absurd (nothing (rw e at h))
        | inr (row, e) ↦ (
          address,
          row,
          refl,
          e,
          rw e (
              matched hash g.now g.guess row _ _ user
                (check_latest-Outcome a hash g.now g.session g.token address g.guess device row s e)
                (rw e at h)),
        )
      ]
    where
      nothing :
          (check_latest a hash g.now g.session g.token address g.guess device none s).1 ≢ ok user
      nothing k = unfold check_latest in cc

  -- Signing in takes the newest code of the address, live, unused, guessed at most four times
  -- before, and the guess that it hashes; and it leaves that code used.
  pub verify_sound :
      (g : Call) (s : Store a) (user : ℕ)
      → (call g s).1 ≡ ok user
      → (email : Text) × (row : SignInCode) × (normalize_email lower parse_address raw ≡ ok email)
        × (get_latest_sign_in_code email s.sign_in_codes ≡ some row)
        × Matched hash g.now g.guess row (get_latest_sign_in_code email (call g s).0.sign_in_codes)
  unfolding verify
  verify_sound g s user h =
      answered g s user (normalize_email lower parse_address raw) (validate_device_name g.device) h

  -- A code that signed someone in signs in nobody again: the next call about the address, with no
  -- code made in between, is not let in, whatever it guesses.
  pub verify_once :
      (g later : Call) (s : Store a) (user other : ℕ)
      → (call g s).1 ≡ ok user
      → (call later (call g s).0).1 ≢ ok other
  verify_once g later s user other h k =
      let (email, row, named, _, first) = verify_sound g s user h in
      let (email', row', named', found, second) = verify_sound later (call g s).0 other k in
      let same : email' ≡ email = ok-injective (sym named' ∙ named) in
      let again : some (used g.now (tried row)) ≡ some row' =
        sym first.4
        ∙ subst (λ e. get_latest_sign_in_code e (call g s).0.sign_in_codes ≡ some row') same
            found in
      cc (again, second.0)

  -- A wrong guess at a code that has not expired, from a device whose name is accepted.
  abbrev pub IsWrong : SignInCode → Call → Type 0
  IsWrong row g =
      (hash row.id (trim_space g.guess) ≢ row.code_hash)
      × (g.now ≤ row.expires_at)
      × ((device : Text) × (validate_device_name g.device ≡ ok device))

  abbrev IsSame : SignInCode → SignInCode → Type 0
  IsSame row c = (c.id ≡ row.id) × (c.code_hash ≡ row.code_hash) × (c.expires_at ≡ row.expires_at)

  abbrev IsSpent : ℕ → SignInCode → Type 0
  IsSpent k c = (is_some c.used_at ≡ true) ⊎ (k ≤ c.attempts)

  IsSpent-more :
      (g : Call) (row c : SignInCode) (k : ℕ) (after : Option SignInCode) (r : Result ℕ)
      → IsWrong row g
      → IsSame row c
      → IsSpent k c
      → Outcome hash g.now g.guess c after r
      → (d : SignInCode) × (after ≡ some d) × IsSame row d × IsSpent (k + 1) d
  IsSpent-more g row c k after r wrong same spent (refused e) =
      (c, refl, same, inl (ground (arith, wrong.1, same.2)))
  IsSpent-more g row c k after r wrong same (inl u) counted = (tried c, refl, same, inl u)
  IsSpent-more g row c k after r wrong same (inr le) counted =
      (tried c, refl, same, inr (omega arith))
  IsSpent-more g row c k after r wrong same spent (signed_in unused live few right) =
      absurd (wrong.0 (cc (same.0, same.1, right)))

  call_spends :
      (g : Call) (s : Store a) (email : Text) (row c : SignInCode) (k : ℕ)
      → normalize_email lower parse_address raw ≡ ok email
      → get_latest_sign_in_code email s.sign_in_codes ≡ some c
      → IsWrong row g
      → IsSame row c
      → IsSpent k c
      → (d : SignInCode) × (get_latest_sign_in_code email (call g s).0.sign_in_codes ≡ some d)
        × IsSame row d
        × IsSpent (k + 1) d
  unfolding verify verify_as
  call_spends g s email row c k named latest wrong same spent =
      let (device, accepted) = wrong.2 in
      rw (named, accepted, latest)
        (IsSpent-more g row c k _ _ wrong same spent
          (check_latest-Outcome a hash g.now g.session g.token email g.guess device c s latest))

  calls_spend :
      (gs : List Call) (s : Store a) (email : Text) (row c : SignInCode) (k : ℕ)
      → normalize_email lower parse_address raw ≡ ok email
      → get_latest_sign_in_code email s.sign_in_codes ≡ some c
      → All (IsWrong row) gs
      → IsSame row c
      → IsSpent k c
      → (d : SignInCode) × (get_latest_sign_in_code email (calls gs s).sign_in_codes ≡ some d)
        × IsSame row d
        × IsSpent (k + length gs) d
  calls_spend [] s email row c k named latest wrong same (inl u) = (c, latest, same, inl u)
  calls_spend [] s email row c k named latest wrong same (inr le) =
      (c, latest, same, inr (omega arith))
  calls_spend (g ∷ gs) s email row c k named latest wrong same spent =
      let (d, latest', same', spent') =
        call_spends g s email row c k named latest wrong.0 same spent in
      let (e, final, same'', all) =
        calls_spend gs (call g s).0 email row d (k + 1) named latest' wrong.1 same' spent' in
      (e, final, same'', elim all [ inl u ↦ inl u | inr le ↦ inr (omega arith) ])

  -- Five wrong guesses at the newest code of an address, while it lasts and from devices whose
  -- names are accepted, end it: with no code made in between, the next guess is not let in, right
  -- or wrong.
  pub verify_guesses :
      (gs : List Call) (s : Store a) (email : Text) (row : SignInCode)
      → normalize_email lower parse_address raw ≡ ok email
      → get_latest_sign_in_code email s.sign_in_codes ≡ some row
      → All (IsWrong row) gs
      → code_attempts_max ≤ length gs
      → (g : Call) (user : ℕ) → (call g (calls gs s)).1 ≢ ok user
  verify_guesses gs s email row named latest wrong enough g user h =
      let (d, found, _, spent) =
        calls_spend gs s email row row 0 named latest wrong (refl, refl, refl)
          (inr (omega arith)) in
      let (email', c, named', found', m) = verify_sound g (calls gs s) user h in
      let same : email' ≡ email = ok-injective (sym named' ∙ named) in
      let here : some d ≡ some c =
        sym found
        ∙ subst (λ e. get_latest_sign_in_code e (calls gs s).sign_in_codes ≡ some c) same found' in
      elim spent [ inl u ↦ cc (here, m.0, u) | inr le ↦ ground (arith, here, m.2, le, enough) ]
