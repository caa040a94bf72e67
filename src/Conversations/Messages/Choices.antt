-- ===== src/Conversations/Messages/Choices.antt =====
-- The buttons that a message may carry, once they are accepted.
use cuckoo.Base.{
  suc, ◌≤◌, ◌≡◌, ◌≢◌, refl, sym, ◌∙◌, subst, ap, ◌⊎◌, inl, inr, true, false, ◌||◌, not, Option,
  none, some, List, [], ◌∷◌, arith, ◌==◌, ltb, Bool-cases, length, any, if◌then◌else◌, All,
  Distinct,
}
use cuckoo.Base.Text.{Text, codes, text_eq, contains, is_valid, trim_space, byte_len}
use cuckoo.Base.Trimming.{trim_space_idem, contains-Avoids, text_eq→eq}
use cuckoo.Domain.Errors.{ok, err, >>=-eq-ok, ok-injective, refuse_if->>}
use cuckoo.Conversations.Messages.{validate_label, label_max_len}
use cuckoo.Conversations.Messages.Accepted.{validate_label_lem}
use cuckoo.Conversations.Messages.Buttons.{
  Button, Url, is_button_id, is_url_breaking, validate_button_style, validate_button_url,
  parsed_url, validate_target, validate_button, validate_row, validate_rows, validate_buttons,
  invalid_buttons, button_rows_max, buttons_per_row_max, button_url_max_len, url_schemes,
  is_addressed,
}

abbrev pub styles : List Text
styles = codes "default" ∷ codes "primary" ∷ codes "danger" ∷ []

module _ (parse : Text → Option Url) where
  -- A label of one to forty characters, a known style, and either an id of the pattern or a link.
  abbrev pub IsButton : Button → Type 0
  IsButton b =
      (1 ≤ length b.label)
      × (length b.label ≤ label_max_len)
      × (contains styles b.style ≡ true)
      × (((b.url ≡ []) × (is_button_id b.id ≡ true))
          ⊎ ((b.id ≡ []) × (validate_button_url parse b.url ≡ ok b.url)))

  -- `url.Parse` reads nothing from an empty link.
  abbrev pub ReadsNothing : Type 0
  ReadsNothing = parse [] ≡ some (record { scheme = []; has_host = false; has_opaque = false })

  style_lem :
      (raw style : Text)
      → validate_button_style raw ≡ ok style
      → (contains styles style ≡ true) × (validate_button_style style ≡ ok style)
  unfolding validate_button_style
  style_lem raw style h = elim (Bool-cases (text_eq raw [])) [
    | inl e ↦ let k = rw e at h in rw (← ok-injective k) (refl, refl)
    | inr e ↦ elim (Bool-cases (contains styles raw)) [
      | inl f ↦
          let k : ok raw ≡ ok style = rw (e, f) at h in rw (← ok-injective k) (f, rw (e, f) refl)
      | inr f ↦ let k : err invalid_buttons ≡ ok style = rw (e, f) at h in cc
    ]
  ]

  parsed_url_lem :
      (o : Option Url) (link url : Text)
      → parsed_url o link ≡ ok url
      → (url ≡ link) × (o ≢ some (record { scheme = []; has_host = false; has_opaque = false }))
  unfolding parsed_url
  parsed_url_lem none link url h = cc
  parsed_url_lem (some u) link url h =
      let (a, h1) = refuse_if->> (not (contains url_schemes u.scheme)) invalid_buttons _ h in
      let (b, h2) = refuse_if->> (not (is_addressed u)) invalid_buttons _ h1 in
      (sym (ok-injective h2), λ e. unschemed a (cc e))
    where
      unschemed : not (contains url_schemes u.scheme) ≡ false → u.scheme ≢ []
      unschemed a e =
          let k : true ≡ false = subst (λ s. not (contains url_schemes s) ≡ false) e a in cc k

  url_lem :
      (raw url : Text)
      → ReadsNothing
      → validate_button_url parse raw ≡ ok url
      → (text_eq url [] ≡ false) × (validate_button_url parse url ≡ ok url)
  unfolding validate_button_url
  url_lem raw url nothing h =
      let (a, h1) =
        refuse_if->> (not (is_valid (trim_space raw)) || any is_url_breaking (trim_space raw))
          invalid_buttons _ h in
      let (b, h2) =
        refuse_if->> (ltb button_url_max_len (byte_len (trim_space raw))) invalid_buttons _ h1 in
      let (same, some_scheme) = parsed_url_lem (parse (trim_space raw)) (trim_space raw) url h2 in
      (
        elim (Bool-cases (text_eq url [])) [
          | inl e ↦ absurd (
              some_scheme (
                subst
                  (λ t.
                    parse t ≡ some (record { scheme = []; has_host = false; has_opaque = false }))
                  (sym (text_eq→eq url [] e) ∙ same) nothing))
          | inr e ↦ e
        ],
        rw same (rw (trim_space_idem raw, a, b) (h2 ∙ ap ok same)),
      )

  -- What one accepted button does to the ids seen so far.
  abbrev pub seen_after : Button → List Text → List Text
  seen_after b seen = if text_eq b.url [] then b.id ∷ seen else seen

  -- A target that is accepted.
  abbrev IsTarget : Text → Text → Button → List Text → List Text → Type 0
  IsTarget label style c seen after =
      (c.label ≡ label)
      × (c.style ≡ style)
      × (((c.url ≡ []) × (is_button_id c.id ≡ true))
          ⊎ ((c.id ≡ []) × (validate_button_url parse c.url ≡ ok c.url)))
      × (after ≡ seen_after c seen)
      × Distinct after
      × (validate_target parse c label style seen ≡ ok (c, after))

  named-IsTarget :
      (i label style : Text) (seen : List Text)
      → is_button_id i ≡ true
      → contains seen i ≡ false
      → Distinct seen
      → IsTarget label style
          (record { id = i; url = []; label = label; style = style })
          seen
          (i ∷ seen)
  unfolding validate_target
  named-IsTarget i label style seen p q apart =
      (refl, refl, inl (refl, p), refl, (contains-Avoids seen i q, apart), rw (p, q) refl)

  linked-IsTarget :
      (url label style : Text) (seen : List Text)
      → text_eq url [] ≡ false
      → validate_button_url parse url ≡ ok url
      → Distinct seen
      → IsTarget label style (record { id = []; url = url; label = label; style = style }) seen seen
  unfolding validate_target
  linked-IsTarget url label style seen full again apart =
      (refl, refl, inr (refl, again), rw full refl, apart, rw (full, again) refl)

  target_lem :
      (b c : Button) (label style : Text) (seen after : List Text)
      → ReadsNothing
      → Distinct seen
      → validate_target parse b label style seen ≡ ok (c, after)
      → IsTarget label style c seen after
  unfolding validate_target
  target_lem b c label style seen after nothing apart h = elim (Bool-cases (text_eq b.url [])) [
    | inl e ↦
        let (p, h3) = refuse_if->> (not (is_button_id b.id)) invalid_buttons _ (rw e at h) in
        let (q, h4) = refuse_if->> (contains seen b.id) invalid_buttons _ h3 in
        subst (λ r. IsTarget label style r.0 seen r.1) (ok-injective h4)
          (named-IsTarget b.id label style seen (ground arith) q apart)
    | inr e ↦
        let (p, h3) = refuse_if->> (not (text_eq b.id [])) invalid_buttons _ (rw e at h) in
        let (url, hu, h4) = >>=-eq-ok (validate_button_url parse b.url) _ h3 in
        let (full, again) = url_lem b.url url nothing hu in
        subst (λ r. IsTarget label style r.0 seen r.1) (ok-injective h4)
          (linked-IsTarget url label style seen full again apart)
  ]

  -- An accepted button, and the ids after it.
  abbrev Accepts : Button → List Text → List Text → Type 0
  Accepts c seen after =
      IsButton c
      × (after ≡ seen_after c seen)
      × Distinct after
      × (validate_button parse c seen ≡ ok (c, after))

  button_lem :
      (b c : Button) (seen after : List Text)
      → ReadsNothing
      → Distinct seen
      → validate_button parse b seen ≡ ok (c, after)
      → Accepts c seen after
  unfolding validate_button
  button_lem b c seen after nothing apart h =
      let (label, hl, h1) = >>=-eq-ok (validate_label invalid_buttons b.label) _ h in
      let (style, hs, h2) = >>=-eq-ok (validate_button_style b.style) _ h1 in
      go label style (validate_label_lem invalid_buttons b.label label hl)
        (style_lem b.style style hs) (target_lem b c label style seen after nothing apart h2)
    where
      go :
          (label style : Text)
          → (1 ≤ length label)
            × (length label ≤ label_max_len)
            × (validate_label invalid_buttons label ≡ ok label)
          → (contains styles style ≡ true) × (validate_button_style style ≡ ok style)
          → IsTarget label style c seen after
          → Accepts c seen after
      go label style (low, high, label_again) (known, style_again)
            (same_label, same_style, target, ids, distinct, again) =
          (
            (rw same_label low, rw same_label high, rw same_style known, target),
            ids,
            distinct,
            rw
                (
                  ap (validate_label invalid_buttons) same_label ∙ label_again,
                  ap validate_button_style same_style ∙ style_again,
                )
                again,
          )

  abbrev pub row_ids : List Button → List Text → List Text
  row_ids [] seen = seen
  row_ids (b ∷ bs) seen = row_ids bs (seen_after b seen)

  -- The ids of all rows, the last first.
  abbrev pub all_ids : List (List Button) → List Text → List Text
  all_ids [] seen = seen
  all_ids (row ∷ rows) seen = all_ids rows (row_ids row seen)

  abbrev RowAccepts : List Button → List Text → List Text → Type 0
  RowAccepts cs seen after =
      All IsButton cs
      × (after ≡ row_ids cs seen)
      × Distinct after
      × (validate_row parse cs seen ≡ ok (cs, after))

  row_lem :
      (bs cs : List Button) (seen after : List Text)
      → ReadsNothing
      → Distinct seen
      → validate_row parse bs seen ≡ ok (cs, after)
      → RowAccepts cs seen after × (length cs ≡ length bs)
  unfolding validate_row
  row_lem [] cs seen after nothing apart h =
      subst (λ r. RowAccepts r.0 seen r.1 × (length r.0 ≡ 0)) (ok-injective h)
        ((tt, refl, apart, refl), refl)
  row_lem (b ∷ bs) cs seen after nothing apart h =
      let ((c, mid), hb, h1) = >>=-eq-ok (validate_button parse b seen) _ h in
      let ((ds, end), hr, h2) = >>=-eq-ok (validate_row parse bs mid) _ h1 in
      let (one, ids, distinct, again) = button_lem b c seen mid nothing apart hb in
      let (rest, len) = row_lem bs ds mid end nothing distinct hr in
      subst (λ r. RowAccepts r.0 seen r.1 × (length r.0 ≡ suc (length bs))) (ok-injective h2)
        (((one, rest.0), rest.1 ∙ ap (row_ids ds) ids, rest.2, rw (again, rest.3) refl), ap suc len)

  -- A row of one to three buttons, each of them good.
  abbrev pub IsRow : List Button → Type 0
  IsRow row = (1 ≤ length row) × (length row ≤ buttons_per_row_max) × All IsButton row

  rows_lem :
      (rows out : List (List Button)) (seen : List Text)
      → ReadsNothing
      → Distinct seen
      → validate_rows parse rows seen ≡ ok out
      → All IsRow out
        × Distinct (all_ids out seen)
        × (validate_rows parse out seen ≡ ok out)
        × (length out ≡ length rows)
  unfolding validate_rows
  rows_lem [] out seen nothing apart h =
      subst
        (λ r.
          All IsRow r
          × Distinct (all_ids r seen)
          × (validate_rows parse r seen ≡ ok r)
          × (length r ≡ 0))
        (ok-injective h) (tt, apart, refl, refl)
  rows_lem (row ∷ rows) out seen nothing apart h =
      let (size, h1) =
        refuse_if->> (length row == 0 || ltb buttons_per_row_max (length row)) invalid_buttons _
          h in
      let ((cs, mid), hr, h2) = >>=-eq-ok (validate_row parse row seen) _ h1 in
      let (rest, hs, h3) = >>=-eq-ok (validate_rows parse rows mid) _ h2 in
      let ((good, ids, distinct, again), len) = row_lem row cs seen mid nothing apart hr in
      let (all, apart', again', len') = rows_lem rows rest mid nothing distinct hs in
      subst
        (λ r.
          All IsRow r
          × Distinct (all_ids r seen)
          × (validate_rows parse r seen ≡ ok r)
          × (length r ≡ suc (length rows)))
        (ok-injective h3)
        (
          ((ground arith, ground arith, good), all),
          subst (λ i. Distinct (all_ids rest i)) ids apart',
          rw (len, size, again, again') refl,
          ap suc len',
        )

  -- Buttons that are accepted stand in three rows at most of one to three, every one of them is
  -- good (a label of one to forty characters, a known style, an id of the pattern or a link that
  -- is accepted), no id stands twice in the message, and they are accepted again as they are, if
  -- nothing is read from an empty link.
  pub validate_buttons_lem :
      (rows out : List (List Button))
      → ReadsNothing
      → validate_buttons parse rows ≡ ok out
      → (length out ≤ button_rows_max)
        × All IsRow out
        × Distinct (all_ids out [])
        × (validate_buttons parse out ≡ ok out)
  unfolding validate_buttons
  validate_buttons_lem rows out nothing h =
      let (few, h1) = refuse_if->> (ltb button_rows_max (length rows)) invalid_buttons _ h in
      let (all, apart, again, len) = rows_lem rows out [] nothing tt h1 in
      (ground arith, all, apart, rw (len, few) again)
