-- ===== src/Signin/Codes/Newest.antt =====
-- Which code of an address is the newest: a write keeps the place of every code, and a code that `Start`
-- makes comes first.
use cuckoo.Base.{
  ℕ, ◌≡◌, refl, subst, inl, inr, Bool, false, Option, none, some, List, [], ◌∷◌, arith, ◌==◌,
  ==_refl, Bool-cases, Option-cases, if◌then◌else◌, update, filter, All, All-filter,
}
use cuckoo.Base.Text.{Text, text_eq}
use cuckoo.Base.Trimming.{text_eq_refl}
use cuckoo.Domain.Errors.{ok}
use cuckoo.Signin.Codes.{
  SignInCode, start, new_code, create_sign_in_code, tried, used, newest, newer,
  get_latest_sign_in_code, normalize_email,
}

-- What no write changes: what the newest code is found by.
abbrev pub KeepsPlace : (SignInCode → SignInCode) → Type 0
KeepsPlace f =
    (c : SignInCode)
    → (((f c).id ≡ c.id) × ((f c).created_at ≡ c.created_at)) × ((f c).email ≡ c.email)

abbrev mapped : (SignInCode → SignInCode) → Option SignInCode → Option SignInCode
mapped f none = none
mapped f (some c) = some (f c)

abbrev where_id : ℕ → (SignInCode → SignInCode) → SignInCode → SignInCode
where_id i f c = if c.id == i then f c else c

newest-update :
    (i : ℕ) (f : SignInCode → SignInCode) (rows : List SignInCode)
    → KeepsPlace f
    → newest (update (λ c. c.id == i) f rows) ≡ mapped (where_id i f) (newest rows)
newest-update i f [] keep = refl
newest-update i f (c ∷ rows) keep = elim (Option-cases (newest rows)) [
  | inl e ↦
      let rest : newest (update (λ c. c.id == i) f rows) ≡ none =
        rw (newest-update i f rows keep, e) refl in
      rw (rest, e) refl
  | inr (d, e) ↦
      let rest : newest (update (λ c. c.id == i) f rows) ≡ some (where_id i f d) =
        rw (newest-update i f rows keep, e) refl in
      rw (rest, e) (ground (arith, keep c, keep d))
]

filter-update :
    (email : Text) (i : ℕ) (f : SignInCode → SignInCode) (rows : List SignInCode)
    → KeepsPlace f
    → filter (λ c. text_eq c.email email) (update (λ c. c.id == i) f rows)
      ≡ update (λ c. c.id == i) f (filter (λ c. text_eq c.email email) rows)
filter-update email i f [] keep = refl
filter-update email i f (c ∷ rows) keep =
    ground (arith, (keep c).1, filter-update email i f rows keep)

pub latest-update :
    (email : Text) (f : SignInCode → SignInCode) (rows : List SignInCode) (row : SignInCode)
    → KeepsPlace f
    → get_latest_sign_in_code email rows ≡ some row
    → get_latest_sign_in_code email (update (λ c. c.id == row.id) f rows) ≡ some (f row)
unfolding get_latest_sign_in_code
latest-update email f rows row keep e =
    rw
      (
        filter-update email row.id f rows keep,
        newest-update row.id f (filter (λ c. text_eq c.email email) rows) keep,
        e,
        ==_refl row.id,
      )
      refl

pub tried-KeepsPlace : KeepsPlace tried
tried-KeepsPlace c = ((refl, refl), refl)

pub used-KeepsPlace : (now : ℕ) → KeepsPlace (used now)
used-KeepsPlace now c = ((refl, refl), refl)

newest-All :
    (P : SignInCode → Type 0) (rows : List SignInCode) (d : SignInCode)
    → All P rows
    → newest rows ≡ some d
    → P d
newest-All P [] d h e = cc
newest-All P (b ∷ rows) d h e = elim (Option-cases (newest rows)) [
  | inl n ↦ subst P (only (rw n at e)) h.0
  | inr (c, n) ↦ either c (newest-All P rows c h.1 n) (rw n at e)
]
  where
    only : some b ≡ some d → b ≡ d
    only f = cc

    either : (c : SignInCode) → P c → (if newer c b then some c else some b) ≡ some d → P d
    either c pc f = elim (Bool-cases (newer c b)) [
      | inl t ↦ let k : some c ≡ some d = rw t at f in subst P (cc k) pc
      | inr t ↦ let k : some b ≡ some d = rw t at f in subst P (cc k) h.0
    ]

newest_first :
    (c : SignInCode) (rows : List SignInCode)
    → All (λ d. newer d c ≡ false) rows
    → newest (c ∷ rows) ≡ some c
newest_first c rows h = elim (Option-cases (newest rows)) [
  | inl e ↦ rw e refl
  | inr (d, e) ↦
      let older : newer d c ≡ false = newest-All (λ d. newer d c ≡ false) rows d h e in
      rw (e, older) refl
]

-- Starting a sign-in for an accepted address with no wait makes the new code the newest of the
-- address, if no row stands after it, whatever the mailer answers.
start-latest :
    (lower : Text → Text) (parse_address : Text → Option Text) (wait : Text → ℕ)
    (hash : ℕ → Text → ℕ) (sent : Text → Text → Bool) (now i : ℕ) (code raw email : Text)
    (rows : List SignInCode)
    → normalize_email lower parse_address raw ≡ ok email
    → wait email ≡ 0
    → All (λ d. newer d (new_code now i email (hash i code)) ≡ false) rows
    → get_latest_sign_in_code email (start lower parse_address wait hash sent now i code raw rows).0
      ≡ some (new_code now i email (hash i code))
unfolding start get_latest_sign_in_code create_sign_in_code
start-latest lower parse_address wait hash sent now i code raw email rows named free last =
    rw (named, start, free, text_eq_refl email)
      (newest_first (new_code now i email (hash i code)) (filter (λ c. text_eq c.email email) rows)
        (All-filter (λ d. newer d (new_code now i email (hash i code)) ≡ false)
          (λ c. text_eq c.email email) rows last))
