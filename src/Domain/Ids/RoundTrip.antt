-- ===== src/Domain/Ids/RoundTrip.antt =====
-- Reading back what `FormatID` wrote, and what `ParseID` may return.
use cuckoo.Base.{
  ℕ, zero, suc, ◌+◌, ◌*◌, ◌/◌, ◌%◌, ◌<◌, ◌≡◌, refl, ap, Bool, true, false, ◌&&◌, not, none, some,
  List, [], ◌∷◌, ◌++◌, arith, ◌==◌, ==_refl, length, drop, filter, All,
}
use cuckoo.Base.Text.{Text, codes}
use cuckoo.Domain.Errors.{ok}
use cuckoo.Domain.Ids.{
  encode_digit, decode_digit, pack, unpack, byte0, byte1, byte2, byte3, byte4, encode_all,
  decode_all, is_newline, encode_to_string, decode_string, has_prefix, format_id, parse_id,
  parse_body, sixteen_bytes,
}

abbrev pub AreBytes : List ℕ → Type 0
AreBytes = All (λ b. b < 256)

abbrev pub AreDigits : List ℕ → Type 0
AreDigits = All (λ d. d < 32)

pub record IsUuid (id : List ℕ) : Type 0 where
  pub sixteen : length id ≡ 16
  pub bytes : AreBytes id

-- The five bytes of a group come back.
pub group0 : (a b : ℕ) → a < 256 → b < 256 → byte0 (a / 8) (a % 8 * 4 + b / 64) ≡ a
unfolding byte0
group0 a b ha hb = omega arith

pub group0_last : (a : ℕ) → a < 256 → byte0 (a / 8) (a % 8 * 4) ≡ a
unfolding byte0
group0_last a ha = omega arith

pub group1 :
    (a b c : ℕ)
    → a < 256
    → b < 256
    → c < 256
    → byte1 (a % 8 * 4 + b / 64) (b / 2 % 32) (b % 2 * 16 + c / 16) ≡ b
unfolding byte1
group1 a b c ha hb hc = omega arith

pub group1_last :
    (a b : ℕ) → a < 256 → b < 256 → byte1 (a % 8 * 4 + b / 64) (b / 2 % 32) (b % 2 * 16) ≡ b
unfolding byte1
group1_last a b ha hb = omega arith

pub group2 :
    (b c d : ℕ)
    → b < 256
    → c < 256
    → d < 256
    → byte2 (b % 2 * 16 + c / 16) (c % 16 * 2 + d / 128) ≡ c
unfolding byte2
group2 b c d hb hc hd = omega arith

pub group2_last : (b c : ℕ) → b < 256 → c < 256 → byte2 (b % 2 * 16 + c / 16) (c % 16 * 2) ≡ c
unfolding byte2
group2_last b c hb hc = omega arith

pub group3 :
    (c d e : ℕ)
    → c < 256
    → d < 256
    → e < 256
    → byte3 (c % 16 * 2 + d / 128) (d / 4 % 32) (d % 4 * 8 + e / 32) ≡ d
unfolding byte3
group3 c d e hc hd he = omega arith

pub group3_last :
    (c d : ℕ) → c < 256 → d < 256 → byte3 (c % 16 * 2 + d / 128) (d / 4 % 32) (d % 4 * 8) ≡ d
unfolding byte3
group3_last c d hc hd = omega arith

pub group4 : (d e : ℕ) → d < 256 → e < 256 → byte4 (d % 4 * 8 + e / 32) (e % 32) ≡ e
unfolding byte4
group4 d e hd he = omega arith

pub unpack-pack : (bs : List ℕ) → AreBytes bs → unpack (pack bs) ≡ bs
unfolding pack unpack
unpack-pack [] h = refl
unpack-pack (a ∷ []) h = cc (group0_last a h.0)
unpack-pack (a ∷ b ∷ []) (ha, (hb, h)) = cc (group0 a b ha hb, group1_last a b ha hb)
unpack-pack (a ∷ b ∷ c ∷ []) (ha, (hb, (hc, h))) =
    cc (group0 a b ha hb, group1 a b c ha hb hc, group2_last b c hb hc)
unpack-pack (a ∷ b ∷ c ∷ d ∷ []) (ha, (hb, (hc, (hd, h)))) =
    cc (group0 a b ha hb, group1 a b c ha hb hc, group2 b c d hb hc hd, group3_last c d hc hd)
unpack-pack (a ∷ b ∷ c ∷ d ∷ e ∷ rest) (ha, (hb, (hc, (hd, (he, h))))) = cc (
  group0 a b ha hb,
  group1 a b c ha hb hc,
  group2 b c d hb hc hd,
  group3 c d e hc hd he,
  group4 d e hd he,
  unpack-pack rest h,
)

pub pack-AreDigits : (bs : List ℕ) → AreBytes bs → AreDigits (pack bs)
unfolding pack
pack-AreDigits [] h = tt
pack-AreDigits (a ∷ []) h = omega arith
pack-AreDigits (a ∷ b ∷ []) h = omega arith
pack-AreDigits (a ∷ b ∷ c ∷ []) h = omega arith
pack-AreDigits (a ∷ b ∷ c ∷ d ∷ []) h = omega arith
pack-AreDigits (a ∷ b ∷ c ∷ d ∷ e ∷ rest) (ha, (hb, (hc, (hd, (he, h))))) = (
  omega arith,
  (
    omega arith,
    (
      omega arith,
      (
        omega arith,
        (omega arith, (omega arith, (omega arith, (omega arith, pack-AreDigits rest h)))),
      ),
    ),
  ),
)

-- Eight digits for five bytes, rounded up.
pub length-pack : (bs : List ℕ) → length (pack bs) ≡ (length bs * 8 + 4) / 5
unfolding pack
length-pack [] = refl
length-pack (a ∷ []) = refl
length-pack (a ∷ b ∷ []) = refl
length-pack (a ∷ b ∷ c ∷ []) = refl
length-pack (a ∷ b ∷ c ∷ d ∷ []) = refl
length-pack (a ∷ b ∷ c ∷ d ∷ e ∷ rest) = omega (arith, length-pack rest)

-- Every digit has a character of its own, which is no line break: checked one by one.
holds_to : (ℕ → Bool) → ℕ → Bool
holds_to p zero = true
holds_to p (suc bound) = holds_to p bound && p bound

holds_to-at : (p : ℕ → Bool) (d bound : ℕ) → d < bound → holds_to p bound ≡ true → p d ≡ true
unfolding holds_to
holds_to-at p d zero small checked = absurd (omega (arith, small))
holds_to-at p d (suc bound) small checked = ground (arith, holds_to-at p d bound)

reads_back : ℕ → Bool
reads_back d = elim (decode_digit (encode_digit d)) [ none ↦ false | some e ↦ e == d ]

reads_back_table : holds_to (λ d. reads_back d && not (is_newline (encode_digit d))) 32 ≡ true
unfolding holds_to reads_back decode_digit encode_digit is_newline
reads_back_table = refl

digit_facts :
    (d : ℕ)
    → d < 32
    → (decode_digit (encode_digit d) ≡ some d) × (is_newline (encode_digit d) ≡ false)
digit_facts d h = go (holds_to-at _ d 32 h reads_back_table)
  where
    go :
        (reads_back d && not (is_newline (encode_digit d))) ≡ true
        → (decode_digit (encode_digit d) ≡ some d) × (is_newline (encode_digit d) ≡ false)
    go e = unfold reads_back in ground arith

pub decode_all-encode_all : (ds : List ℕ) → AreDigits ds → decode_all (encode_all ds) ≡ some ds
unfolding decode_all encode_all
decode_all-encode_all [] h = refl
decode_all-encode_all (d ∷ ds) h = ground (arith, digit_facts d h.0, decode_all-encode_all ds h.1)

no_newlines :
    (ds : List ℕ) → AreDigits ds → filter (λ c. not (is_newline c)) (encode_all ds) ≡ encode_all ds
unfolding encode_all
no_newlines [] h = refl
no_newlines (d ∷ ds) h = ground (arith, digit_facts d h.0, no_newlines ds h.1)

length-encode_all : (ds : List ℕ) → length (encode_all ds) ≡ length ds
unfolding encode_all
length-encode_all [] = refl
length-encode_all (d ∷ ds) = ap suc (length-encode_all ds)

decode_string-digits :
    (ds : List ℕ) → AreDigits ds → decode_string (encode_all ds) ≡ some (unpack ds)
unfolding decode_string
decode_string-digits ds h = ground (arith, no_newlines ds h, decode_all-encode_all ds h)

has_prefix-append : (p s : Text) → has_prefix p (p ++ s) ≡ true
unfolding has_prefix
has_prefix-append [] s = refl
has_prefix-append (c ∷ p) s = rw (==_refl c) (has_prefix-append p s)

drop-length : (p s : Text) → drop (length p) (p ++ s) ≡ s
drop-length [] s = refl
drop-length (c ∷ p) s = drop-length p s

-- Twenty-six digits that hold an identifier are read as that identifier, under any kind.
pub parse_id-digits :
    (kind : Text) (ds id : List ℕ)
    → AreDigits ds
    → length ds ≡ 26
    → unpack ds ≡ id
    → length id ≡ 16
    → parse_id kind ((kind ++ codes "_") ++ encode_all ds) ≡ ok id
unfolding parse_id parse_body sixteen_bytes
parse_id-digits kind ds id digits len read sixteen = ground (
  arith,
  has_prefix-append (kind ++ codes "_") (encode_all ds),
  drop-length (kind ++ codes "_") (encode_all ds),
  length-encode_all ds,
  decode_string-digits ds digits,
)

-- An identifier of sixteen bytes that was formatted is read back, whatever its kind.
pub parse_id-format_id :
    (kind : Text) (id : List ℕ) → IsUuid id → parse_id kind (format_id kind id) ≡ ok id
unfolding format_id encode_to_string
parse_id-format_id kind id u =
    parse_id-digits kind (pack id) id (pack-AreDigits id u.bytes)
      (omega (arith, length-pack id, u.sixteen)) (unpack-pack id u.bytes) u.sixteen
