-- ===== src/Conversations/Messages/Accepted.antt =====
-- What the checks let through, and that it is let through again unchanged.
use cuckoo.Base.{
  suc, ap, All, ◌≤◌, ◌≡◌, refl, sym, ◌∙◌, subst, ◌⊎◌, inl, inr, Bool, true, false, ◌&&◌, ◌||◌, not,
  Option, none, some, List, [], ◌∷◌, arith, ◌==◌, ltb, Bool-cases, length, if◌then◌else◌,
}
use cuckoo.Base.Text.{
  Text, codes, text_eq, is_valid, trim_space, trim_right, trim_left, contains_any, contains_rune,
}
use cuckoo.Base.Trimming.{trim_space_idem, text_eq→eq}
use cuckoo.Domain.Errors.{Error, ok, err, >>=-eq-ok, ok-injective, refuse_if->>, invalid_field}
use cuckoo.Conversations.Messages.{
  text_max_len, invalid_text, validate_text, validate_caption, validate_label, label_max_len,
  validate_labels, validate_quick_replies, invalid_quick_replies, quick_replies_max,
  validate_idempotency_key, idempotency_key_max_len,
}

-- A text that is accepted is what it was less the spaces around it, holds from one to eight
-- thousand characters, all valid and none NUL, and is accepted again as it is.
pub validate_text_lem :
    (raw text : Text)
    → validate_text raw ≡ ok text
    → (text ≡ trim_space raw)
      × (1 ≤ length text)
      × (length text ≤ text_max_len)
      × (is_valid text ≡ true)
      × (contains_rune 0 text ≡ false)
      × (validate_text text ≡ ok text)
unfolding validate_text
validate_text_lem raw text h =
    let (a, h1) = refuse_if->> (not (is_valid (trim_space raw))) invalid_text _ h in
    let (b, h2) = refuse_if->> (contains_rune 0 (trim_space raw)) invalid_text _ h1 in
    let (c, h3) = refuse_if->> (length (trim_space raw) == 0) invalid_text _ h2 in
    let (d, h4) = refuse_if->> (ltb text_max_len (length (trim_space raw))) invalid_text _ h3 in
    rw (← ok-injective h4)
      (refl, ground arith, ground arith, ground arith, b, rw (trim_space_idem raw, a, b, c, d) refl)

-- A caption that is accepted holds eight thousand characters at most, none only where there are
-- files, and is accepted again as it is.
validate_caption_lem :
    (raw text : Text) (has_attachments : Bool)
    → validate_caption raw has_attachments ≡ ok text
    → (length text ≤ text_max_len)
      × ((1 ≤ length text) ⊎ (has_attachments ≡ true))
      × (validate_caption text has_attachments ≡ ok text)
unfolding validate_caption
validate_caption_lem raw text has_attachments h =
    elim (Bool-cases (has_attachments && text_eq (trim_space raw) [])) [
      | inl e ↦
          let k : ok [] ≡ ok text = rw e at h in
          rw (← ok-injective k)
            (omega arith, inr (ground arith), rw (trim_nothing, files has_attachments e) refl)
      | inr e ↦
          let (same, low, high, _, _, again) = validate_text_lem raw text (rw e at h) in
          let still : (has_attachments && text_eq (trim_space text) []) ≡ false =
            rw (ap trim_space same ∙ trim_space_idem raw) e in
          (high, inl low, rw still again)
    ]
  where
    trim_nothing : trim_space [] ≡ []
    trim_nothing = unfold trim_space trim_right trim_left in refl

    files : (has : Bool) → (has && text_eq (trim_space raw) []) ≡ true → has ≡ true
    files true e = refl
    files false e = e

pub validate_label_lem :
    (bad : Error) (raw label : Text)
    → validate_label bad raw ≡ ok label
    → (1 ≤ length label) × (length label ≤ label_max_len) × (validate_label bad label ≡ ok label)
unfolding validate_label
validate_label_lem bad raw label h =
    let (a, h1) =
      refuse_if->>
        (not (is_valid (trim_space raw)) || contains_any (0 ∷ codes "\n\r\t") (trim_space raw)) bad
        _ h in
    let (b, h2) =
      refuse_if->> (ltb (length (trim_space raw)) 1 || ltb label_max_len (length (trim_space raw)))
        bad _ h1 in
    rw (← ok-injective h2) (ground arith, ground arith, rw (trim_space_idem raw, a, b) refl)

labels_lem :
    (qs out : List Text)
    → validate_labels qs ≡ ok out
    → All (λ label. (1 ≤ length label) × (length label ≤ label_max_len)) out
      × (length out ≡ length qs)
      × (validate_labels out ≡ ok out)
unfolding validate_labels
labels_lem [] out h =
    subst
      (λ r.
        All (λ label. (1 ≤ length label) × (length label ≤ label_max_len)) r
        × (length r ≡ 0)
        × (validate_labels r ≡ ok r))
      (ok-injective h) (tt, refl, refl)
labels_lem (q ∷ qs) out h =
    let (label, hl, h1) = >>=-eq-ok (validate_label invalid_quick_replies q) _ h in
    let (rest, hr, h2) = >>=-eq-ok (validate_labels qs) _ h1 in
    let (low, high, again) = validate_label_lem invalid_quick_replies q label hl in
    let (all, len, again') = labels_lem qs rest hr in
    subst
      (λ r.
        All (λ label. (1 ≤ length label) × (length label ≤ label_max_len)) r
        × (length r ≡ suc (length qs))
        × (validate_labels r ≡ ok r))
      (ok-injective h2) (((low, high), all), ap suc len, rw (again, again') refl)

-- Quick replies that are accepted are six at most, each a label of one to forty characters, and
-- they are accepted again as they are.
validate_quick_replies_lem :
    (qs out : List Text)
    → validate_quick_replies qs ≡ ok out
    → (length out ≤ quick_replies_max)
      × All (λ label. (1 ≤ length label) × (length label ≤ label_max_len)) out
      × (validate_quick_replies out ≡ ok out)
unfolding validate_quick_replies
validate_quick_replies_lem qs out h = elim (Bool-cases (ltb quick_replies_max (length qs))) [
  | inl e ↦ let k : err invalid_quick_replies ≡ ok out = rw e at h in cc
  | inr e ↦
      let (all, len, again) = labels_lem qs out (rw e at h) in
      (ground arith, all, rw (len, e) again)
]

-- A key that is accepted is the trimmed one, of one to two hundred characters, and is accepted
-- again as it is; there is none exactly where nothing was left.
validate_idempotency_key_lem :
    (raw : Text) (key : Option Text)
    → validate_idempotency_key raw ≡ ok key
    → ((key ≡ none) × (trim_space raw ≡ []))
      ⊎ ((key ≡ some (trim_space raw))
          × (1 ≤ length (trim_space raw))
          × (length (trim_space raw) ≤ idempotency_key_max_len)
          × (validate_idempotency_key (trim_space raw) ≡ ok key))
unfolding validate_idempotency_key
validate_idempotency_key_lem raw key h = elim (Bool-cases (text_eq (trim_space raw) [])) [
  | inl e ↦ let k : ok none ≡ ok key = rw e at h in inl (sym (ok-injective k), text_eq→eq _ _ e)
  | inr e ↦
      let (bad, rest) = kept (rw e at h) in
      inr
        (rest, inked (trim_space raw) e, ground arith, rw (trim_space_idem raw, e, bad, rest) refl)
]
  where
    too_much : Bool
    too_much =
        not (is_valid (trim_space raw))
        || contains_rune 0 (trim_space raw)
        || ltb idempotency_key_max_len (length (trim_space raw))

    kept :
        (if too_much
            then err (invalid_field "idempotency_key" "invalid_idempotency_key")
            else ok (some (trim_space raw)))
          ≡ ok key
        → (too_much ≡ false) × (key ≡ some (trim_space raw))
    kept k = elim (Bool-cases too_much) [
      | inl e ↦
          let l : err (invalid_field "idempotency_key" "invalid_idempotency_key") ≡ ok key =
            rw e at k in
          cc
      | inr e ↦ let l : ok (some (trim_space raw)) ≡ ok key = rw e at k in (e, sym (ok-injective l))
    ]

    inked : (t : Text) → text_eq t [] ≡ false → 1 ≤ length t
    inked [] e = cc
    inked (c ∷ t) e = omega arith
