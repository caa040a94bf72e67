-- ===== src/Domain/Ids/Examples.antt =====
-- One identifier, written and read.
use cuckoo.Base.{◌≡◌, ◌≢◌, refl, ℕ, List, [], ◌∷◌, arith}
use cuckoo.Base.Text.{Text, codes}
use cuckoo.Domain.Errors.{ok}
use cuckoo.Domain.Ids.{format_id, parse_id, encode_to_string, encode_all, encode_digit, pack, nth}
use cuckoo.Domain.Ids.RoundTrip.{IsUuid, parse_id-format_id}
use cuckoo.Domain.Ids.Spellings.{parse_id-not_injective}

abbrev some_id : List ℕ
some_id = 1 ∷ 147 ∷ 36 ∷ 200 ∷ 5 ∷ 6 ∷ 112 ∷ 8 ∷ 137 ∷ 10 ∷ 11 ∷ 255 ∷ 13 ∷ 14 ∷ 15 ∷ 16 ∷ []

abbrev agent_kind : Text
agent_kind = codes "agt"

some_id-IsUuid : IsUuid some_id
some_id-IsUuid = record { sixteen = refl; bytes = ground arith }

written : format_id agent_kind some_id ≡ codes "agt_069j9j050sr0h28a1fzgt3gf20"
unfolding format_id encode_to_string encode_all encode_digit pack nth
written = refl

parse_id-format_id_example : parse_id agent_kind (format_id agent_kind some_id) ≡ ok some_id
parse_id-format_id_example = parse_id-format_id agent_kind some_id some_id-IsUuid

parse_id-not_injective_example :
    (s : Text) × (parse_id agent_kind s ≡ ok some_id) × (s ≢ format_id agent_kind some_id)
parse_id-not_injective_example = parse_id-not_injective agent_kind some_id some_id-IsUuid
