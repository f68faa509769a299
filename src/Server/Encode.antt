-- ===== src/Server/Encode.antt =====
-- pkg/server/util.go: `rfc5987PercentEncode`, and the decoder that RFC 5987 describes. A Go string is the list of its bytes.
use eqrcp.Base.{
  ℕ, ◌+◌, ◌*◌, ◌/◌, ◌%◌, ◌-◌, ◌<◌, ◌≡◌, refl, ap, ◌∙◌, inl, inr, Bool-cases, Bool, true, false,
  ◌&&◌, ◌||◌, List, [], ◌∷◌, ◌++◌, Option, none, some, All, All-append, any, ltb, leb, ◌==◌, arith,
  if◌then◌else◌,
}

abbrev pub is_alnum : ℕ → Bool
is_alnum b =
    (leb b'a' b && leb b b'z') || ((leb b'A' b && leb b b'Z') || (leb b'0' b && leb b b'9'))

-- The bytes that RFC 5987 lets stand for themselves.
unfoldable pub is_attr_char : ℕ → Bool
is_attr_char b =
    is_alnum b
    || any (λ c. b == c)
        (b'!' ∷ b'#' ∷ b'$' ∷ b'&' ∷ b'+' ∷ b'-' ∷ b'.' ∷ b'^' ∷ b'_' ∷ b'`' ∷ b'|' ∷ b'~' ∷ [])

-- A digit of `%02X`.
unfoldable pub hex_digit : ℕ → ℕ
hex_digit d = if ltb d 10 then b'0' + d else b'A' + d - 10

unfoldable pub encode_byte : ℕ → List ℕ
encode_byte b =
    if is_attr_char b then b ∷ [] else b'%' ∷ hex_digit (b / 16) ∷ hex_digit (b % 16) ∷ []

unfoldable pub rfc5987_percent_encode : List ℕ → List ℕ
rfc5987_percent_encode [] = []
rfc5987_percent_encode (b ∷ bs) = encode_byte b ++ rfc5987_percent_encode bs

-- The decoder: two hexadecimal digits, of either case, after each percent sign.
unfoldable pub hex_value : ℕ → Option ℕ
hex_value c =
    if leb b'0' c && leb c b'9'
    then some (c - b'0')
    else if leb b'A' c && leb c b'F'
    then some (c - b'A' + 10)
    else if leb b'a' c && leb c b'f'
    then some (c - b'a' + 10)
    else none

abbrev byte_of : Option ℕ → Option ℕ → Option (List ℕ) → Option (List ℕ)
byte_of (some hi) (some lo) (some rest) = some ((hi * 16 + lo) ∷ rest)
byte_of _ _ _ = none

abbrev plain : ℕ → Option (List ℕ) → Option (List ℕ)
plain c (some rest) = if is_attr_char c then some (c ∷ rest) else none
plain c none = none

unfoldable pub decode : List ℕ → Option (List ℕ)
decode [] = some []
decode (c ∷ []) = plain c (some [])
decode (c ∷ (x ∷ [])) = plain c (decode (x ∷ []))
decode (c ∷ (x ∷ (y ∷ rest))) =
    let escaped = byte_of (hex_value x) (hex_value y) (decode rest) in
    let own = plain c (decode (x ∷ (y ∷ rest))) in if c == b'%' then escaped else own

hex_value-hex_digit : (d : ℕ) → d < 16 → hex_value (hex_digit d) ≡ some d
unfolding hex_value hex_digit
hex_value-hex_digit d h = ground arith

-- What the encoder writes: bytes that stand for themselves, and percent signs.
abbrev pub IsExtValue : ℕ → Type 0
IsExtValue c = is_attr_char c || c == b'%' ≡ true

is_attr_char-hex_digit : (d : ℕ) → d < 16 → is_attr_char (hex_digit d) ≡ true
unfolding is_attr_char hex_digit
is_attr_char-hex_digit d h = ground arith

plain_char : (b : ℕ) (rest : List ℕ) → b == b'%' ≡ false → decode (b ∷ rest) ≡ plain b (decode rest)
unfolding decode
plain_char b [] e = refl
plain_char b (x ∷ []) e = refl
plain_char b (x ∷ (y ∷ rest)) e = rw e refl

percent_is_no_attr_char : is_attr_char b'%' ≡ false
unfolding is_attr_char
percent_is_no_attr_char = refl

attr_char_is_no_percent : (b : ℕ) → is_attr_char b ≡ true → b == b'%' ≡ false
unfolding is_attr_char
attr_char_is_no_percent b e = ground arith

decode-encode_byte :
    (b : ℕ) (rest out : List ℕ)
    → b < 256
    → decode rest ≡ some out
    → decode (encode_byte b ++ rest) ≡ some (b ∷ out)
unfolding encode_byte
decode-encode_byte b rest out h e = elim (Bool-cases (is_attr_char b)) [
  | inl own ↦ rw own (plain_char b rest (attr_char_is_no_percent b own) ∙ rw e (rw own refl))
  | inr escaped ↦
      let hi = hex_value-hex_digit (b / 16) (omega arith) in
      let lo = hex_value-hex_digit (b % 16) (omega arith) in
      rw escaped (unfold decode in rw (hi, lo, e) (ap (λ (c : ℕ). some (c ∷ out)) (omega arith)))
]

encode_byte-IsExtValue : (b : ℕ) → b < 256 → All IsExtValue (encode_byte b)
unfolding encode_byte
encode_byte-IsExtValue b h = elim (Bool-cases (is_attr_char b)) [
  | inl own ↦ rw own (ground arith, tt)
  | inr escaped ↦ rw escaped (
    ground arith,
    (
      ground (arith, is_attr_char-hex_digit (b / 16)),
      (ground (arith, is_attr_char-hex_digit (b % 16)), tt),
    ),
  )
]

-- The file name that a `Content-Disposition` header carries in its extended form is read back byte
-- by byte as it was, and is written with the characters that RFC 5987 allows only.
pub decode-rfc5987_percent_encode :
    (bytes : List ℕ)
    → All (λ b. b < 256) bytes
    → (decode (rfc5987_percent_encode bytes) ≡ some bytes)
      × All IsExtValue (rfc5987_percent_encode bytes)
unfolding rfc5987_percent_encode
decode-rfc5987_percent_encode [] h = (unfold decode in refl, tt)
decode-rfc5987_percent_encode (b ∷ bs) (byte, h) =
    let (back, safe) = decode-rfc5987_percent_encode bs h in
    (
      decode-encode_byte b (rfc5987_percent_encode bs) bs byte back,
      All-append IsExtValue (encode_byte b) (rfc5987_percent_encode bs)
          (encode_byte-IsExtValue b byte) safe,
    )
