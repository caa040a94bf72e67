-- ===== src/Pairing/Tokens/Uses.antt =====
-- The uses of a code, against the lists that its agent came into by it.
use cuckoo.Base.{
  ℕ, ◌+◌, ◌≤◌, ◌≡◌, refl, ap, sym, subst, ◌∙◌, Bool, true, false, Option, none, some, List, [], ◌∷◌,
  map, arith, inl, inr, ◌==◌, ==→eq, update, count, any, All, All-mono, All-update, Avoids,
  Distinct, Bool-cases, if◌then◌else◌,
}
use cuckoo.Domain.Errors.{internal_error, ok, err, >>=-eq-ok, ok-injective, if-err-ok, refuse_if->>}
use cuckoo.Base.Text.{Text}
use cuckoo.Agents.Registry.{Agent, get_owned}
use cuckoo.Conversations.Membership.{is_key}
use cuckoo.Pairing.Contacts.{Contact}
use cuckoo.Pairing.Tokens.{
  PairToken, TokenInput, create_token, revoke_token, check_payload, check_max_uses, check_expiry,
  token_not_found, can_use, has_use, use_once, use_pair_token, at_limit, create_pair_token,
  revoke_pair_token, withdraw, is_open_token,
}

-- The contact came by the code.
abbrev pub carries : ℕ → Contact → Bool
carries i c = is_key i c.pair_token_id

abbrev pub IsWithin : ℕ → Option ℕ → Type 0
IsWithin n none = Unit {0}
IsWithin n (some most) = n ≤ most

-- Its uses are the contacts that came by it, and no more than it has.
abbrev pub IsTallied : List Contact → PairToken → Type 0
IsTallied contacts t =
    (count (carries t.id) contacts ≡ t.use_count) × IsWithin t.use_count t.max_uses

abbrev pub token_ids : List PairToken → List ℕ
token_ids = map (λ t. t.id)

abbrev pub IsCounted : List Contact → List PairToken → Type 0
IsCounted contacts tokens = Distinct (token_ids tokens) × All (IsTallied contacts) tokens

-- Writes that keep what came by every code.
pub IsCounted-contacts :
    (contacts after : List Contact) (tokens : List PairToken)
    → ((i : ℕ) → count (carries i) after ≡ count (carries i) contacts)
    → IsCounted contacts tokens
    → IsCounted after tokens
IsCounted-contacts contacts after tokens same h = (
  h.0,
  All-mono (IsTallied contacts) (IsTallied after) (λ t x. (same t.id ∙ x.0, x.1)) tokens h.1,
)

token_ids-update :
    (p : PairToken → Bool) (f : PairToken → PairToken)
    → ((t : PairToken) → (f t).id ≡ t.id)
    → (rows : List PairToken) → token_ids (update p f rows) ≡ token_ids rows
token_ids-update p f same [] = refl
token_ids-update p f same (t ∷ rows) = ground (arith, same t, token_ids-update p f same rows)

others :
    (i : ℕ) (rows : List PairToken)
    → Avoids i (token_ids rows)
    → All (λ t. (t.id == i) ≡ false) rows
others i [] h = tt
others i (t ∷ rows) h = (ground (arith, h.0), others i rows h.1)

unused_elsewhere :
    (now i : ℕ) (rows : List PairToken)
    → All (λ t. (t.id == i) ≡ false) rows
    → any (can_use now i) rows ≡ false
unused_elsewhere now i [] h = refl
unused_elsewhere now i (t ∷ rows) h = ground (arith, h.0, unused_elsewhere now i rows h.1)

-- Where a use is given up, it is the code's own row that gives it.
unique_use :
    (now i : ℕ) (rows : List PairToken)
    → Distinct (token_ids rows)
    → any (can_use now i) rows ≡ true
    → All (λ t. (t.id == i) ≡ true → can_use now i t ≡ true) rows
unique_use now i [] d h = tt
unique_use now i (t ∷ rows) d h = elim (Bool-cases (t.id == i)) [
  | inl e ↦
      let rest = others i rows (subst (λ j. Avoids j (token_ids rows)) (==→eq t.id i e) d.0) in
      (
        (λ _. ground (arith, unused_elsewhere now i rows rest)),
        All-mono (λ u. (u.id == i) ≡ false) (λ u. (u.id == i) ≡ true → can_use now i u ≡ true)
            (λ u no yes. absurd (ground arith)) rows rest,
      )
  | inr e ↦ ((λ x. absurd (ground arith)), unique_use now i rows d.1 (ground arith))
]

IsWithin-next : (n : ℕ) (most : Option ℕ) → has_use n most ≡ true → IsWithin (n + 1) most
IsWithin-next n none h = tt
IsWithin-next n (some m) h = ground arith

-- A row after a use, with the contact that the use was given up for.
use-IsTallied :
    (now i : ℕ) (c : Contact) (contacts : List Contact) (t : PairToken) (used : Bool)
    → can_use now i t ≡ used
    → c.pair_token_id ≡ some i
    → IsTallied contacts t
    → ((t.id == i) ≡ true → can_use now i t ≡ true)
    → IsTallied (c ∷ contacts) (if used then use_once t else t)
use-IsTallied now i c contacts t true e by x only =
    (ground (arith, x.0, ap (is_key t.id) by), IsWithin-next t.use_count t.max_uses (ground arith))
use-IsTallied now i c contacts t false e by x only =
    (ground (arith, x.0, only, ap (is_key t.id) by), x.1)

update-IsTallied :
    (now i : ℕ) (c : Contact) (contacts : List Contact) (rows : List PairToken)
    → c.pair_token_id ≡ some i
    → All (IsTallied contacts) rows
    → All (λ t. (t.id == i) ≡ true → can_use now i t ≡ true) rows
    → All (IsTallied (c ∷ contacts)) (update (can_use now i) use_once rows)
update-IsTallied now i c contacts [] by h only = tt
update-IsTallied now i c contacts (t ∷ rows) by h only = (
  use-IsTallied now i c contacts t (can_use now i t) refl by h.0 only.0,
  update-IsTallied now i c contacts rows by h.1 only.1,
)

-- A use was given up: there was one, and nothing was past its range.
given_up :
    (fault hit : Bool) (rows : List PairToken) {after : List PairToken}
    → (if fault then err internal_error else if hit then ok (some rows) else ok none)
      ≡ ok (some after)
    → (hit ≡ true) × (rows ≡ after)
given_up true hit rows h = cc
given_up false true rows h = (refl, cc)
given_up false false rows h = cc

-- A code gives up a use for a contact that came by it.
pub use_pair_token-IsCounted :
    (now i : ℕ) (c : Contact) (contacts : List Contact) (rows after : List PairToken)
    → c.pair_token_id ≡ some i
    → IsCounted contacts rows
    → use_pair_token now i rows ≡ ok (some after)
    → IsCounted (c ∷ contacts) after
unfolding use_pair_token
use_pair_token-IsCounted now i c contacts rows after by h used =
    let (hit, same) = given_up (any (at_limit now i) rows) (any (can_use now i) rows) _ used in
    subst (IsCounted (c ∷ contacts)) same (
      subst Distinct (sym (token_ids-update (can_use now i) use_once (λ _. refl) rows)) h.0,
      update-IsTallied now i c contacts rows by h.1 (unique_use now i rows h.0 hit),
    )

-- A contact that came by no code.
pub uncarried-IsCounted :
    (c : Contact) (contacts : List Contact) (rows : List PairToken)
    → c.pair_token_id ≡ none
    → IsCounted contacts rows
    → IsCounted (c ∷ contacts) rows
uncarried-IsCounted c contacts rows by =
    IsCounted-contacts contacts (c ∷ contacts) rows (λ i. ground (arith, ap (is_key i) by))

pub revoke_pair_token-IsCounted :
    (now i agent : ℕ) (contacts : List Contact) (rows : List PairToken)
    → IsCounted contacts rows
    → IsCounted contacts (revoke_pair_token now i agent rows).0
unfolding revoke_pair_token
revoke_pair_token-IsCounted now i agent contacts rows h = (
  subst Distinct (sym (token_ids-update (is_open_token i agent) (withdraw now) (λ _. refl) rows))
      h.0,
  All-update (IsTallied contacts) (is_open_token i agent) (withdraw now) rows (λ t p x. x) h.1,
)

-- A code is made with no use of it; its identifier is fresh.
pub create_token-IsCounted :
    (json_valid : Text → Bool) (now i hash caller agent : ℕ) (input : TokenInput)
    (agents : List Agent) (contacts : List Contact) (rows after : List PairToken)
    → Avoids i (token_ids rows)
    → count (carries i) contacts ≡ 0
    → IsCounted contacts rows
    → create_token json_valid now i hash caller agent input agents rows ≡ ok after
    → IsCounted contacts after
unfolding create_token create_pair_token
create_token-IsCounted json_valid now i hash caller agent input agents contacts rows after fresh
      none_yet h made =
    let (a, _, open_door) = >>=-eq-ok (get_owned caller agent agents) _ made in
    let (_, wanted) = refuse_if->> a.private _ _ open_door in
    let (payload, _, limited) = >>=-eq-ok (check_payload json_valid input.payload) _ wanted in
    let (uses, _, timed) = >>=-eq-ok (check_max_uses input.max_uses) _ limited in
    let (expiry, _, stored) = >>=-eq-ok (check_expiry now input.expires_in) _ timed in
    subst (IsCounted contacts) (ok-injective stored)
      ((fresh, h.0), ((none_yet, zero_within uses), h.1))
  where
    zero_within : (most : Option ℕ) → IsWithin 0 most
    zero_within none = tt
    zero_within (some m) = omega arith

pub revoke_token-IsCounted :
    (now caller agent i : ℕ) (agents : List Agent) (contacts : List Contact)
    (rows after : List PairToken)
    → IsCounted contacts rows
    → revoke_token now caller agent i agents rows ≡ ok after
    → IsCounted contacts after
unfolding revoke_token
revoke_token-IsCounted now caller agent i agents contacts rows after h done =
    let (_, _, rest) = >>=-eq-ok (get_owned caller agent agents) _ done in
    let (_, same) =
      if-err-ok ((revoke_pair_token now i agent rows).1 == 0) token_not_found
        (revoke_pair_token now i agent rows).0 rest in
    subst (IsCounted contacts) same (revoke_pair_token-IsCounted now i agent contacts rows h)
