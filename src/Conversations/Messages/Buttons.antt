-- ===== src/Conversations/Messages/Buttons.antt =====
-- The buttons of a message, and the links that they may open.
use cuckoo.Base.{
  ℕ, Bool, ◌&&◌, ◌||◌, not, Option, none, some, List, [], ◌∷◌, ◌==◌, ltb, leb, if◌then◌else◌,
  length, any,
}
use cuckoo.Base.Text.{Text, codes, text_eq, contains, byte_len, is_valid, trim_space}
use cuckoo.Domain.Errors.{Error, Result, ok, err, invalid_field, ◌>>=◌, ◌>>◌, refuse_if}
use cuckoo.Conversations.Messages.{validate_label}

abbrev pub button_rows_max : ℕ
button_rows_max = 3

abbrev pub buttons_per_row_max : ℕ
buttons_per_row_max = 3

abbrev pub button_url_max_len : ℕ
button_url_max_len = 2048

abbrev pub invalid_buttons : Error
invalid_buttons = invalid_field "buttons" "invalid_buttons"

pub record Button : Type 0 where
  pub id : Text
  pub url : Text
  pub label : Text
  pub style : Text

-- What `url.Parse` reads of a link.
pub record Url : Type 0 where
  pub scheme : Text
  pub has_host : Bool
  pub has_opaque : Bool

-- [A-Za-z0-9_.:-]
abbrev is_id_rune : ℕ → Bool
is_id_rune c =
    (leb b'A' c && leb c b'Z')
    || (leb b'a' c && leb c b'z')
    || (leb b'0' c && leb c b'9')
    || c == b'_'
    || c == b'.'
    || c == b':'
    || c == b'-'

-- buttonIDPattern
unfoldable pub is_button_id : Text → Bool
is_button_id s = leb 1 (length s) && leb (length s) 64 && not (any (λ c. not (is_id_rune c)) s)

-- isURLBreaking
abbrev pub is_url_breaking : ℕ → Bool
is_url_breaking c = leb c 0x20 || c == 0x7f || c == 0x2028 || c == 0x2029

unfoldable pub validate_button_style : Text → Result Text
validate_button_style raw =
    if text_eq raw []
    then ok (codes "default")
    else if contains (codes "default" ∷ codes "primary" ∷ codes "danger" ∷ []) raw
    then ok raw
    else err invalid_buttons

abbrev pub is_web : Text → Bool
is_web scheme = text_eq scheme (codes "https") || text_eq scheme (codes "http")

abbrev pub url_schemes : List Text
url_schemes = codes "https" ∷ codes "http" ∷ codes "upi" ∷ codes "tel" ∷ []

-- What the link must address: a host for the web, and something for the rest.
abbrev pub is_addressed : Url → Bool
is_addressed u = if is_web u.scheme then u.has_host else u.has_host || u.has_opaque

unfoldable pub parsed_url : Option Url → Text → Result Text
parsed_url none link = err invalid_buttons
parsed_url (some u) link = do
  refuse_if (not (contains url_schemes u.scheme)) invalid_buttons
  refuse_if (not (is_addressed u)) invalid_buttons
  ok link

unfoldable pub validate_button_url : (Text → Option Url) → Text → Result Text
unfolding parsed_url
validate_button_url parse raw =
    let link = trim_space raw in
    do
      refuse_if (not (is_valid link) || any is_url_breaking link) invalid_buttons
      refuse_if (ltb button_url_max_len (byte_len link)) invalid_buttons
      parsed_url (parse link) link

-- What the button does: it has an id that no other has, or a link.
unfoldable pub validate_target :
    (Text → Option Url) → Button → Text → Text → List Text → Result (Button × List Text)
validate_target parse b label style seen =
    if text_eq b.url []
    then refuse_if (not (is_button_id b.id)) invalid_buttons
      >> (refuse_if (contains seen b.id) invalid_buttons
          >> ok (record { id = b.id; url = []; label = label; style = style }, b.id ∷ seen))
    else refuse_if (not (text_eq b.id [])) invalid_buttons
      >> (validate_button_url parse b.url >>= λ url.
          ok (record { id = []; url = url; label = label; style = style }, seen))

-- The button, and the ids seen so far with its own.
unfoldable pub validate_button :
    (Text → Option Url) → Button → List Text → Result (Button × List Text)
unfolding validate_target
validate_button parse b seen = validate_label invalid_buttons b.label >>= λ label.
    validate_button_style b.style >>= λ style. validate_target parse b label style seen

unfoldable pub validate_row :
    (Text → Option Url) → List Button → List Text → Result (List Button × List Text)
validate_row parse [] seen = ok ([], seen)
validate_row parse (b ∷ bs) seen = validate_button parse b seen >>= λ one.
    validate_row parse bs one.1 >>= λ rest. ok (one.0 ∷ rest.0, rest.1)

unfoldable pub validate_rows :
    (Text → Option Url) → List (List Button) → List Text → Result (List (List Button))
validate_rows parse [] seen = ok []
validate_rows parse (row ∷ rows) seen =
    refuse_if (length row == 0 || ltb buttons_per_row_max (length row)) invalid_buttons
    >> (validate_row parse row seen >>= λ one.
        validate_rows parse rows one.1 >>= λ rest. ok (one.0 ∷ rest))

unfoldable pub validate_buttons :
    (Text → Option Url) → List (List Button) → Result (List (List Button))
validate_buttons parse rows =
    refuse_if (ltb button_rows_max (length rows)) invalid_buttons >> validate_rows parse rows []
