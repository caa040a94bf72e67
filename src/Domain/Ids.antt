-- ===== src/Domain/Ids.antt =====
-- server/internal/domain/id.go, with what it uses of encoding/base32: identifiers as text. An
-- identifier is its sixteen bytes; a text is a list of bytes here, since the code indexes bytes.
pub mod RoundTrip
pub mod Spellings
mod Examples
use cuckoo.Base.{
  ℕ, zero, suc, ◌+◌, ◌*◌, ◌/◌, ◌%◌, Bool, true, false, ◌||◌, ◌&&◌, not, Option, none, some, List,
  [], ◌∷◌, ◌++◌, ◌==◌, if◌then◌else◌, length, drop, filter,
}
use cuckoo.Base.Text.{Text, codes}
use cuckoo.Domain.Errors.{Result, ok, err, invalid_field}

abbrev pub id_alphabet : Text
id_alphabet = codes "0123456789abcdefghjkmnpqrstvwxyz"

abbrev pub encoded_id_len : ℕ
encoded_id_len = 26

-- `enc.encode[d]`
pub nth : Text → ℕ → ℕ
nth [] d = 0
nth (c ∷ cs) zero = c
nth (c ∷ cs) (suc d) = nth cs d

-- `enc.decodeMap[c]`; `none` is its 0xff.
pub index : Text → ℕ → ℕ → Option ℕ
index [] c i = none
index (x ∷ xs) c i = let later = index xs c (i + 1) in if x == c then some i else later

pub encode_digit : ℕ → ℕ
unfolding nth
encode_digit d = nth id_alphabet d

pub decode_digit : ℕ → Option ℕ
unfolding index
decode_digit c = index id_alphabet c 0

-- `Encoding.Encode`: five bytes are eight digits, and a short group as many as hold its bits.
pub pack : List ℕ → List ℕ
pack [] = []
pack (a ∷ []) = (a / 8) ∷ (a % 8 * 4) ∷ []
pack (a ∷ b ∷ []) = (a / 8) ∷ (a % 8 * 4 + b / 64) ∷ (b / 2 % 32) ∷ (b % 2 * 16) ∷ []
pack (a ∷ b ∷ c ∷ []) =
    (a / 8) ∷ (a % 8 * 4 + b / 64) ∷ (b / 2 % 32) ∷ (b % 2 * 16 + c / 16) ∷ (c % 16 * 2) ∷ []
pack (a ∷ b ∷ c ∷ d ∷ []) =
    (a / 8)
    ∷ (a % 8 * 4 + b / 64)
    ∷ (b / 2 % 32)
    ∷ (b % 2 * 16 + c / 16)
    ∷ (c % 16 * 2 + d / 128)
    ∷ (d / 4 % 32)
    ∷ (d % 4 * 8)
    ∷ []
pack (a ∷ b ∷ c ∷ d ∷ e ∷ rest) =
    (a / 8)
    ∷ (a % 8 * 4 + b / 64)
    ∷ (b / 2 % 32)
    ∷ (b % 2 * 16 + c / 16)
    ∷ (c % 16 * 2 + d / 128)
    ∷ (d / 4 % 32)
    ∷ (d % 4 * 8 + e / 32)
    ∷ (e % 32)
    ∷ pack rest

pub byte0 : ℕ → ℕ → ℕ
byte0 p q = p * 8 + q / 4

pub byte1 : ℕ → ℕ → ℕ → ℕ
byte1 q r s = q % 4 * 64 + r * 2 + s / 16

pub byte2 : ℕ → ℕ → ℕ
byte2 s t = s % 16 * 16 + t / 2

pub byte3 : ℕ → ℕ → ℕ → ℕ
byte3 t u v = t % 2 * 128 + u * 4 + v / 8

pub byte4 : ℕ → ℕ → ℕ
byte4 v w = v % 8 * 32 + w

-- `Encoding.decode`: the inverse, where a group of one, three or six digits is dropped in silence
-- (the `switch` on `dlen` has no case for it) and the spare low bits of a short group are ignored.
pub unpack : List ℕ → List ℕ
unpack [] = []
unpack (p ∷ []) = []
unpack (p ∷ q ∷ []) = byte0 p q ∷ []
unpack (p ∷ q ∷ r ∷ []) = []
unpack (p ∷ q ∷ r ∷ s ∷ []) = byte0 p q ∷ byte1 q r s ∷ []
unpack (p ∷ q ∷ r ∷ s ∷ t ∷ []) = byte0 p q ∷ byte1 q r s ∷ byte2 s t ∷ []
unpack (p ∷ q ∷ r ∷ s ∷ t ∷ u ∷ []) = []
unpack (p ∷ q ∷ r ∷ s ∷ t ∷ u ∷ v ∷ []) = byte0 p q ∷ byte1 q r s ∷ byte2 s t ∷ byte3 t u v ∷ []
unpack (p ∷ q ∷ r ∷ s ∷ t ∷ u ∷ v ∷ w ∷ rest) =
    byte0 p q ∷ byte1 q r s ∷ byte2 s t ∷ byte3 t u v ∷ byte4 v w ∷ unpack rest

pub encode_all : List ℕ → Text
encode_all [] = []
encode_all (d ∷ ds) = encode_digit d ∷ encode_all ds

pub decode_all : Text → Option (List ℕ)
decode_all [] = some []
decode_all (c ∷ cs) = elim (decode_digit c) [
  | none ↦ none
  | some d ↦ elim (decode_all cs) [ none ↦ none | some ds ↦ some (d ∷ ds) ]
]

pub is_newline : ℕ → Bool
is_newline c = c == b'\r' || c == b'\n'

-- `EncodeToString` and `DecodeString`, which drops line breaks before it reads.
pub encode_to_string : List ℕ → Text
unfolding pack encode_all encode_digit
encode_to_string raw = encode_all (pack raw)

pub decode_string : Text → Option (List ℕ)
unfolding decode_all unpack is_newline decode_digit byte0 byte1 byte2 byte3 byte4
decode_string s = elim (decode_all (filter (λ c. not (is_newline c)) s)) [
  | none ↦ none
  | some ds ↦ some (unpack ds)
]

-- strings.HasPrefix
unfoldable pub has_prefix : Text → Text → Bool
has_prefix [] s = true
has_prefix (p ∷ ps) [] = false
has_prefix (p ∷ ps) (c ∷ s) = p == c && has_prefix ps s

abbrev pub invalid_id : {A : Type 0} → Result A
invalid_id = err (invalid_field "id" "invalid_id")

pub format_id : Text → List ℕ → Text
unfolding encode_to_string
format_id kind id = (kind ++ codes "_") ++ encode_to_string id

-- `len(raw) != 16`
pub sixteen_bytes : Option (List ℕ) → Result (List ℕ)
sixteen_bytes none = invalid_id
sixteen_bytes (some raw) = if length raw == 16 then ok raw else invalid_id

pub parse_body : Text → Result (List ℕ)
unfolding sixteen_bytes decode_string
parse_body body =
    if length body == encoded_id_len then sixteen_bytes (decode_string body) else invalid_id

pub parse_id : Text → Text → Result (List ℕ)
unfolding has_prefix parse_body
parse_id kind s =
    let want = kind ++ codes "_" in
    if has_prefix want s then parse_body (drop (length want) s) else invalid_id
