-- ===== src/Domain/Ids/Spellings.antt =====
-- Which texts `ParseID` takes for an identifier. Its result is always one, and needs the prefix;
-- but the two spare bits of the last character are not looked at, so the text is not determined.
use cuckoo.Base.{
  ℕ, ◌+◌, ◌*◌, ◌/◌, ◌%◌, ◌<◌, ◌≡◌, refl, ap, ◌≢◌, Bool, true, Option, none, some, List, [], ◌∷◌,
  ◌++◌, arith, ◌==◌, Option-cases, inl, inr, length, drop, filter, subst, not, Bool-cases, ==→eq,
  length-append,
}
use mathlib.Core.List.{append_cancel_left}
use mathlib.Core.Option.{some-injective}
use cuckoo.Base.Text.{Text, codes}
use cuckoo.Domain.Errors.{ok}
use cuckoo.Domain.Ids.{
  index, decode_digit, pack, unpack, byte0, byte1, byte2, byte3, byte4, encode_all, decode_all,
  is_newline, encode_to_string, decode_string, has_prefix, format_id, parse_id, parse_body,
  sixteen_bytes, id_alphabet,
}
use cuckoo.Domain.Ids.RoundTrip.{
  AreBytes, AreDigits, IsUuid, parse_id-digits, decode_all-encode_all, pack-AreDigits, length-pack,
  group0, group1, group2, group3, group4,
}

index-lt : (xs : Text) (c i d : ℕ) → index xs c i ≡ some d → d < i + length xs
unfolding index
index-lt [] c i d h = cc
index-lt (x ∷ xs) c i d h = ground (arith, index-lt xs c (i + 1) d)

decode_digit-lt : (c d : ℕ) → decode_digit c ≡ some d → d < 32
unfolding decode_digit
decode_digit-lt c d h = index-lt id_alphabet c 0 d h

decode_all-AreDigits : (cs : Text) (ds : List ℕ) → decode_all cs ≡ some ds → AreDigits ds
unfolding decode_all
decode_all-AreDigits [] ds h = subst AreDigits (some-injective _ _ h) tt
decode_all-AreDigits (c ∷ cs) ds h =
    go (decode_all-AreDigits cs) (decode_digit c) refl (decode_all cs) refl
  where
    go :
        ((rest : List ℕ) → decode_all cs ≡ some rest → AreDigits rest)
        → (o : Option ℕ) → decode_digit c ≡ o
        → (r : Option (List ℕ)) → decode_all cs ≡ r
        → AreDigits ds
    go ih none e r f = cc
    go ih (some d) e none f = ground arith
    go ih (some d) e (some rest) f =
        subst AreDigits {x = d ∷ rest} (ground arith) (decode_digit-lt c d e, ih rest f)

unpack-AreBytes : (ds : List ℕ) → AreDigits ds → AreBytes (unpack ds)
unfolding unpack byte0 byte1 byte2 byte3 byte4
unpack-AreBytes [] h = tt
unpack-AreBytes (p ∷ []) h = tt
unpack-AreBytes (p ∷ q ∷ []) h = omega arith
unpack-AreBytes (p ∷ q ∷ r ∷ []) h = tt
unpack-AreBytes (p ∷ q ∷ r ∷ s ∷ []) h = omega arith
unpack-AreBytes (p ∷ q ∷ r ∷ s ∷ t ∷ []) h = omega arith
unpack-AreBytes (p ∷ q ∷ r ∷ s ∷ t ∷ u ∷ []) h = tt
unpack-AreBytes (p ∷ q ∷ r ∷ s ∷ t ∷ u ∷ v ∷ []) h = omega arith
unpack-AreBytes (p ∷ q ∷ r ∷ s ∷ t ∷ u ∷ v ∷ w ∷ rest)
      (hp, (hq, (hr, (hs, (ht, (hu, (hv, (hw, h)))))))) =
    (
      omega arith,
      (omega arith, (omega arith, (omega arith, (omega arith, unpack-AreBytes rest h)))),
    )

decode_string-AreBytes : (s : Text) (raw : List ℕ) → decode_string s ≡ some raw → AreBytes raw
unfolding decode_string
decode_string-AreBytes s raw h = elim (Option-cases (decode_all (filter kept s))) [
  | inl e ↦ ground arith
  | inr (ds, e) ↦
      subst AreBytes {x = unpack ds} (ground arith)
        (unpack-AreBytes ds (decode_all-AreDigits (filter kept s) ds e))
]
  where
    kept : ℕ → Bool
    kept c = not (is_newline c)

sixteen_bytes-IsUuid :
    (o : Option (List ℕ)) (id : List ℕ)
    → ((raw : List ℕ) → o ≡ some raw → AreBytes raw)
    → sixteen_bytes o ≡ ok id
    → IsUuid id
unfolding sixteen_bytes
sixteen_bytes-IsUuid none id bytes h = cc
sixteen_bytes-IsUuid (some raw) id bytes h = elim (Bool-cases (length raw == 16)) [
  | inl e ↦
      subst IsUuid {x = raw} (ground arith)
        (record { sixteen = ==→eq _ _ e; bytes = bytes raw refl })
  | inr e ↦ ground arith
]

parse_body-IsUuid :
    (body : Text) (id : List ℕ) → parse_body body ≡ ok id → IsUuid id × (length body ≡ 26)
unfolding parse_body
parse_body-IsUuid body id h = elim (Bool-cases (length body == 26)) [
  | inl e ↦ (
    sixteen_bytes-IsUuid (decode_string body) id (decode_string-AreBytes body)
        (rw (e, parse_body) at h),
    ==→eq _ _ e,
  )
  | inr e ↦ ground arith
]

has_prefix-length :
    (p s : Text) → has_prefix p s ≡ true → length s ≡ length p + length (drop (length p) s)
unfolding has_prefix
has_prefix-length [] s h = omega arith
has_prefix-length (c ∷ p) [] h = cc
has_prefix-length (c ∷ p) (d ∷ s) h = ground (arith, has_prefix-length p s)

-- What is read as an identifier is sixteen bytes, from a text that starts with the kind asked for
-- and is twenty-seven bytes longer.
parse_id_sound :
    (kind s : Text) (id : List ℕ)
    → parse_id kind s ≡ ok id
    → IsUuid id × (length s ≡ length kind + 27) × (has_prefix (kind ++ codes "_") s ≡ true)
unfolding parse_id
parse_id_sound kind s id h = elim (Bool-cases (has_prefix want s)) [
  | inl e ↦
      let (uuid, len) = parse_body-IsUuid (drop (length want) s) id (rw (e, parse_id) at h) in
      (uuid, omega (arith, has_prefix-length want s e, length-append kind (codes "_")), e)
  | inr e ↦ ground arith
]
  where
    want : Text
    want = kind ++ codes "_"

-- `pack` with `k` in the spare bits of a last group of one byte.
spelled : ℕ → List ℕ → List ℕ
spelled k [] = []
spelled k (a ∷ []) = (a / 8) ∷ (a % 8 * 4 + k) ∷ []
spelled k (a ∷ b ∷ c ∷ d ∷ e ∷ rest) =
    (a / 8)
    ∷ (a % 8 * 4 + b / 64)
    ∷ (b / 2 % 32)
    ∷ (b % 2 * 16 + c / 16)
    ∷ (c % 16 * 2 + d / 128)
    ∷ (d / 4 % 32)
    ∷ (d % 4 * 8 + e / 32)
    ∷ (e % 32)
    ∷ spelled k rest
spelled k bs = pack bs

unpack-spelled :
    (k : ℕ) (bs : List ℕ) → k < 4 → length bs % 5 ≡ 1 → AreBytes bs → unpack (spelled k bs) ≡ bs
unfolding spelled unpack
unpack-spelled k [] hk len h = absurd (omega arith)
unpack-spelled k (a ∷ []) hk len h = ap (λ x. x ∷ []) (unfold byte0 in omega arith)
unpack-spelled k (a ∷ b ∷ []) hk len h = absurd (omega arith)
unpack-spelled k (a ∷ b ∷ c ∷ []) hk len h = absurd (omega arith)
unpack-spelled k (a ∷ b ∷ c ∷ d ∷ []) hk len h = absurd (omega arith)
unpack-spelled k (a ∷ b ∷ c ∷ d ∷ e ∷ rest) hk len (ha, (hb, (hc, (hd, (he, h))))) = cc (
  group0 a b ha hb,
  group1 a b c ha hb hc,
  group2 b c d hb hc hd,
  group3 c d e hc hd he,
  group4 d e hd he,
  unpack-spelled k rest hk (omega arith) h,
)

spelled-AreDigits :
    (k : ℕ) (bs : List ℕ) → k < 4 → length bs % 5 ≡ 1 → AreBytes bs → AreDigits (spelled k bs)
unfolding spelled
spelled-AreDigits k [] hk len h = tt
spelled-AreDigits k (a ∷ []) hk len h = omega arith
spelled-AreDigits k (a ∷ b ∷ []) hk len h = absurd (omega arith)
spelled-AreDigits k (a ∷ b ∷ c ∷ []) hk len h = absurd (omega arith)
spelled-AreDigits k (a ∷ b ∷ c ∷ d ∷ []) hk len h = absurd (omega arith)
spelled-AreDigits k (a ∷ b ∷ c ∷ d ∷ e ∷ rest) hk len (ha, (hb, (hc, (hd, (he, h))))) = (
  omega arith,
  (
    omega arith,
    (
      omega arith,
      (
        omega arith,
        (
          omega arith,
          (omega arith, (omega arith, (omega arith, spelled-AreDigits k rest hk (omega arith) h))),
        ),
      ),
    ),
  ),
)

sum : List ℕ → ℕ
sum [] = 0
sum (x ∷ xs) = x + sum xs

length-spelled : (k : ℕ) (bs : List ℕ) → length (spelled k bs) ≡ length (pack bs)
unfolding spelled pack
length-spelled k [] = refl
length-spelled k (a ∷ []) = refl
length-spelled k (a ∷ b ∷ []) = refl
length-spelled k (a ∷ b ∷ c ∷ []) = refl
length-spelled k (a ∷ b ∷ c ∷ d ∷ []) = refl
length-spelled k (a ∷ b ∷ c ∷ d ∷ e ∷ rest) = omega (arith, length-spelled k rest)

sum-spelled : (k : ℕ) (bs : List ℕ) → length bs % 5 ≡ 1 → sum (spelled k bs) ≡ sum (pack bs) + k
unfolding spelled pack sum
sum-spelled k [] len = absurd (omega arith)
sum-spelled k (a ∷ []) len = omega arith
sum-spelled k (a ∷ b ∷ []) len = absurd (omega arith)
sum-spelled k (a ∷ b ∷ c ∷ []) len = absurd (omega arith)
sum-spelled k (a ∷ b ∷ c ∷ d ∷ []) len = absurd (omega arith)
sum-spelled k (a ∷ b ∷ c ∷ d ∷ e ∷ rest) len = omega (arith, sum-spelled k rest (omega arith))

-- Every identifier of sixteen bytes is also read from a text that is not the one it is formatted
-- as.
pub parse_id-not_injective :
    (kind : Text) (id : List ℕ)
    → IsUuid id
    → (s : Text) × (parse_id kind s ≡ ok id) × (s ≢ format_id kind id)
unfolding format_id encode_to_string
parse_id-not_injective kind id u = (
  (kind ++ codes "_") ++ encode_all (spelled 1 id),
  parse_id-digits kind (spelled 1 id) id (spelled-AreDigits 1 id (omega arith) one u.bytes)
      (omega (arith, length-spelled 1 id, length-pack id, u.sixteen))
      (unpack-spelled 1 id (omega arith) one u.bytes) u.sixteen,
  λ e. differ (append_cancel_left (kind ++ codes "_") _ _ e),
)
  where
    one : length id % 5 ≡ 1
    one = omega (arith, u.sixteen)

    differ : encode_all (spelled 1 id) ≢ encode_all (pack id)
    differ e =
        let same : some (spelled 1 id) ≡ some (pack id) = cc (
          e,
          decode_all-encode_all _ (spelled-AreDigits 1 id (omega arith) one u.bytes),
          decode_all-encode_all _ (pack-AreDigits id u.bytes),
        ) in
        omega (arith, ap sum (some-injective _ _ same), sum-spelled 1 id one)
