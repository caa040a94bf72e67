-- ===== src/Conversations/Messages/Examples.antt =====
-- One message: two rows of buttons.
use cuckoo.Base.{◌≤◌, ◌≡◌, refl, true, false, Option, some, List, [], ◌∷◌, length, All, Distinct}
use cuckoo.Base.Text.{
  Text, codes, is_valid, trim_space, trim_right, trim_left, is_space, contains_any, byte_len, width,
}
use cuckoo.Domain.Errors.{ok}
use cuckoo.Conversations.Messages.{validate_label}
use cuckoo.Conversations.Messages.Buttons.{
  Button, Url, is_button_id, validate_button_style, validate_button_url, parsed_url,
  validate_target, validate_button, validate_row, validate_rows, validate_buttons, button_rows_max,
}
use cuckoo.Conversations.Messages.Choices.{IsRow, all_ids, validate_buttons_lem}

-- Every link but the empty one is of the web, and has a host.
abbrev parse : Text → Option Url
parse [] = some (record { scheme = []; has_host = false; has_opaque = false })
parse (c ∷ s) = some (record { scheme = codes "https"; has_host = true; has_opaque = false })

abbrev rows : List (List Button)
rows =
    ((record { id = codes "yes"; url = []; label = codes "Yes "; style = [] })
      ∷ (record { id = codes "no"; url = []; label = codes "No"; style = codes "danger" })
      ∷ [])
    ∷ ((record {
      id = [];
      url = codes "https://a.in";
      label = codes "Read";
      style = codes "primary";
    })
        ∷ [])
    ∷ []

abbrev clean_rows : List (List Button)
clean_rows =
    ((record { id = codes "yes"; url = []; label = codes "Yes"; style = codes "default" })
      ∷ (record { id = codes "no"; url = []; label = codes "No"; style = codes "danger" })
      ∷ [])
    ∷ ((record {
      id = [];
      url = codes "https://a.in";
      label = codes "Read";
      style = codes "primary";
    })
        ∷ [])
    ∷ []

offered : validate_buttons parse rows ≡ ok clean_rows
unfolding validate_buttons validate_rows validate_row validate_button validate_target
    validate_button_style validate_button_url parsed_url is_button_id validate_label trim_space
    trim_right trim_left is_space is_valid contains_any byte_len width
offered = refl

validate_buttons_lem_example :
    (length clean_rows ≤ button_rows_max)
    × All (IsRow parse) clean_rows
    × Distinct (all_ids parse clean_rows [])
    × (validate_buttons parse clean_rows ≡ ok clean_rows)
validate_buttons_lem_example = validate_buttons_lem parse rows clean_rows refl offered
