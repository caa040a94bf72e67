-- ===== src/Agents/Bindings/Single.antt =====
-- An agent has at most one live binding, and it is the one that was set last.
use cuckoo.Base.{
  ℕ, ◌≤◌, ◌≡◌, refl, ◌≢◌, ◌⊎◌, inl, inr, Option, none, some, List, [], ◌∷◌, arith, ◌==◌, ==→eq,
  Bool-cases, if◌then◌else◌, find?, update, count,
}
use cuckoo.Base.Text.{Text}
use cuckoo.Domain.Errors.{Result, ok, err, not_found_error, >>=-eq-ok}
use cuckoo.Agents.Bindings.{
  Binding, Mode, ModeWord, is_active_for, revoke, new_binding, get_active_binding, binding_target,
  set_binding, revoke_binding,
}

abbrev pub IsSingle : List Binding → Type 0
IsSingle bs = (agent : ℕ) → count (is_active_for agent) bs ≤ 1

count-revoke :
    (now agent a : ℕ) (bs : List Binding)
    → count (is_active_for a) (update (is_active_for agent) (revoke now) bs)
      ≡ (if a == agent then 0 else count (is_active_for a) bs)
count-revoke now agent a [] = ground arith
count-revoke now agent a (b ∷ bs) = ground (arith, count-revoke now agent a bs)

find-revoke :
    (now agent a : ℕ) (bs : List Binding)
    → find? (is_active_for a) (update (is_active_for agent) (revoke now) bs)
      ≡ (if a == agent then none else find? (is_active_for a) bs)
find-revoke now agent a [] = ground arith
find-revoke now agent a (b ∷ bs) = ground (arith, find-revoke now agent a bs)

-- What an accepted call stored: the fresh row, before the old rows with the agent's own revoked.
set_binding-stored :
    (validate_url : Text → Result Text) (now i hash agent : ℕ) (m : ModeWord) (url : Text)
    (bs after : List Binding) (b : Binding)
    → set_binding validate_url now i hash agent m url bs ≡ ok (after, b)
    → (mode : Mode) × (target : Option Text) × (b ≡ new_binding i agent mode target hash)
      × (after ≡ b ∷ update (is_active_for agent) (revoke now) bs)
unfolding set_binding
set_binding-stored validate_url now i hash agent m url bs after b h =
    let (target, _, stored) = >>=-eq-ok (binding_target validate_url m url) _ h in
    (target.0, target.1, ground arith, ground arith)

-- Setting a binding that is accepted keeps every agent at one live binding at most; the agent's
-- own is then the new one, and every other agent's is the one it had.
pub set_binding-IsSingle :
    (validate_url : Text → Result Text) (now i hash agent : ℕ) (m : ModeWord) (url : Text)
    (bs after : List Binding) (b : Binding)
    → IsSingle bs
    → set_binding validate_url now i hash agent m url bs ≡ ok (after, b)
    → IsSingle after
      × (get_active_binding agent after ≡ some b)
      × ((other : ℕ) → other ≢ agent → get_active_binding other after ≡ get_active_binding other bs)
unfolding set_binding get_active_binding
set_binding-IsSingle validate_url now i hash agent m url bs after b single h =
    let (mode, target, fresh, stored) =
      set_binding-stored validate_url now i hash agent m url bs after b h in
    rw (stored, fresh)
      (
        (λ a. ground (arith, single a, count-revoke now agent a bs)),
        ground arith,
        (λ other ne. ground (arith, find-revoke now agent other bs)),
      )

count-none :
    (agent : ℕ) (bs : List Binding)
    → count (is_active_for agent) bs ≡ 0
    → find? (is_active_for agent) bs ≡ none
count-none agent [] h = refl
count-none agent (b ∷ bs) h = ground (arith, count-none agent bs)

-- Revoking fails with no_binding exactly where nothing was live; otherwise it leaves the agent
-- nothing live and every other agent what it had.
revoke_binding_lem :
    (now agent : ℕ) (bs : List Binding)
    → ((get_active_binding agent bs ≡ none)
        × (revoke_binding now agent bs ≡ err (not_found_error "no_binding")))
      ⊎ ((after : List Binding) × (revoke_binding now agent bs ≡ ok after)
          × (get_active_binding agent after ≡ none)
          × ((other : ℕ)
              → other ≢ agent
              → get_active_binding other after ≡ get_active_binding other bs))
unfolding revoke_binding get_active_binding
revoke_binding_lem now agent bs = elim (Bool-cases (count (is_active_for agent) bs == 0)) [
  | inl e ↦ inl (count-none agent bs (==→eq _ _ e), ground arith)
  | inr e ↦ inr (
    update (is_active_for agent) (revoke now) bs,
    ground arith,
    ground (arith, find-revoke now agent agent bs),
    λ other ne. ground (arith, find-revoke now agent other bs),
  )
]
