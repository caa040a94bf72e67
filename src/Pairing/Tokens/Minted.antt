-- ===== src/Pairing/Tokens/Minted.antt =====
-- What a code that was minted is.
use cuckoo.Base.{
  ℕ, ◌+◌, ◌≤◌, ◌<◌, ◌≡◌, refl, sym, subst, Bool, true, false, ◌||◌, not, Option, none, some, List,
  [], ◌∷◌, arith, ltb, ◌==◌, if◌then◌else◌,
}
use cuckoo.Base.Text.{Text, codes, text_eq, byte_len}
use cuckoo.Domain.Errors.{
  invalid_field, ok, >>=-eq-ok, refuse_if->>, ok-injective, if-err-ok, ◌>>◌, refuse_if,
}
use cuckoo.Agents.Registry.{Agent, get_owned}
use cuckoo.Pairing.Tokens.{
  PairToken, TokenInput, create_token, create_pair_token, new_token, check_payload, check_max_uses,
  check_expiry, max_payload_bytes,
}

abbrev IsUsable : Option ℕ → Type 0
IsUsable none = Unit {0}
IsUsable (some n) = (1 ≤ n) × (n ≤ 1_000_000)

abbrev IsAhead : ℕ → Option ℕ → Type 0
IsAhead now none = Unit {0}
IsAhead now (some t) = now < t

abbrev IsShort : (Text → Bool) → Option Text → Type 0
IsShort json_valid none = Unit {0}
IsShort json_valid (some p) = (byte_len p ≤ max_payload_bytes) × (json_valid p ≡ true)

-- A code of an agent that may be handed out.
pub record IsMinted (json_valid : Text → Bool) (now caller agent : ℕ) (agents : List Agent)
    (t : PairToken) : Type 0 where
  pub shown : Agent
  pub owned : get_owned caller agent agents ≡ ok shown
  pub public : shown.private ≡ false
  pub for_agent : t.agent_id ≡ agent
  pub unused : t.use_count ≡ 0
  pub live : t.revoked_at ≡ none
  pub usable : IsUsable t.max_uses
  pub ahead : IsAhead now t.expires_at
  pub short : IsShort json_valid t.payload

max_uses-IsUsable : (o : Option ℕ) {p : Option ℕ} → check_max_uses o ≡ ok p → IsUsable p
unfolding check_max_uses
max_uses-IsUsable none h = subst IsUsable (ok-injective h) tt
max_uses-IsUsable (some n) h =
    let (bounded, same) = if-err-ok (ltb n 1 || ltb 1_000_000 n) _ (some n) h in
    subst IsUsable same (ground arith)

expiry-IsAhead : (now : ℕ) (o : Option ℕ) {p : Option ℕ} → check_expiry now o ≡ ok p → IsAhead now p
unfolding check_expiry
expiry-IsAhead now none h = subst (IsAhead now) (ok-injective h) tt
expiry-IsAhead now (some d) h =
    let (positive, same) = if-err-ok (d == 0) _ (some (now + d)) h in
    subst (IsAhead now) same (ground arith)

payload-IsShort :
    (json_valid : Text → Bool) (payload : Text) {p : Option Text}
    → check_payload json_valid payload ≡ ok p
    → IsShort json_valid p
unfolding check_payload
payload-IsShort json_valid payload = given (text_eq payload [] || text_eq payload (codes "null"))
  where
    given :
        (b : Bool) {p : Option Text}
        → (if b
            then ok none
            else (refuse_if
                  (ltb max_payload_bytes (byte_len payload))
                  (invalid_field "payload" "payload_too_large")
                >> (refuse_if (not (json_valid payload)) (invalid_field "payload" "invalid_payload")
                    >> ok (some payload))))
          ≡ ok p
        → IsShort json_valid p
    given true h = subst (IsShort json_valid) (ok-injective h) tt
    given false h =
        let (short, rest) = refuse_if->> (ltb max_payload_bytes (byte_len payload)) _ _ h in
        let (valid, stored) = refuse_if->> (not (json_valid payload)) _ _ rest in
        subst (IsShort json_valid) (ok-injective stored) (ground arith, ground arith)

-- A code is minted only by the owner of an agent that is not private; it is live, not used, for
-- one to a million uses where they are limited, its end is to come, and its payload is valid and
-- 4,096 bytes at most.
create_token-IsMinted :
    (json_valid : Text → Bool) (now i hash caller agent : ℕ) (input : TokenInput)
    (agents : List Agent) (rows after : List PairToken)
    → create_token json_valid now i hash caller agent input agents rows ≡ ok after
    → (t : PairToken) × (after ≡ t ∷ rows) × IsMinted json_valid now caller agent agents t
unfolding create_token create_pair_token
create_token-IsMinted json_valid now i hash caller agent input agents rows after made =
    let (a, owned, open_door) = >>=-eq-ok (get_owned caller agent agents) _ made in
    let (public, wanted) = refuse_if->> a.private _ _ open_door in
    let (payload, short, limited) = >>=-eq-ok (check_payload json_valid input.payload) _ wanted in
    let (uses, usable, timed) = >>=-eq-ok (check_max_uses input.max_uses) _ limited in
    let (expiry, ahead, stored) = >>=-eq-ok (check_expiry now input.expires_in) _ timed in
    (
      new_token now i hash agent payload uses caller expiry,
      sym (ok-injective stored),
      record {
        shown = a;
        owned = owned;
        public = public;
        for_agent = refl;
        unused = refl;
        live = refl;
        usable = max_uses-IsUsable input.max_uses usable;
        ahead = expiry-IsAhead now input.expires_in ahead;
        short = payload-IsShort json_valid input.payload short;
      },
    )
