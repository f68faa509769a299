-- ===== src/Dns/Address.antt =====
-- The names of the devices: `FormatDirectDomainWithNode` and `GetNodeDomain` of
-- pkg/cert/provisioner.go write them, `parseIP` of cmd/eqt-dns/main.go reads them.
pub mod RoundTrip
use eqrcp.Base.{
  ℕ, ◌+◌, ◌*◌, ◌/◌, ◌%◌, ◌-◌, ◌≡◌, Bool, true, false, not, ◌&&◌, ◌||◌, List, [], ◌∷◌, ◌++◌, Option,
  none, some, length, leb, ltb, ◌==◌, if◌then◌else◌,
}
use mathlib.Core.List.{reverse}
use eqrcp.Base.Bytes.{Bytes, split_dots}

-- An IPv4 address, its four bytes.
pub record Ipv4 : Type 0 where
  pub b1 : ℕ
  pub b2 : ℕ
  pub b3 : ℕ
  pub b4 : ℕ

-- `strings.TrimSpace`, `strings.ToLower`, and `net.ParseIP` with `To4`.
pub record NetLibrary : Type 0 where
  pub trim_space : Bytes → Bytes
  pub to_lower : Bytes → Bytes
  pub parse_ipv4 : Bytes → Option Ipv4

-- `%d` for a byte.
unfoldable pub show_byte : ℕ → Bytes
show_byte n =
    if ltb n 10
    then (48 + n) ∷ []
    else if ltb n 100
    then (48 + n / 10) ∷ (48 + n % 10) ∷ []
    else (48 + n / 100) ∷ (48 + n / 10 % 10) ∷ (48 + n % 10) ∷ []

abbrev pub dashed : Ipv4 → Bytes
dashed ip =
    show_byte ip.b1
    ++ b'-' ∷ (show_byte ip.b2 ++ b'-' ∷ (show_byte ip.b3 ++ b'-' ∷ show_byte ip.b4))

abbrev pub is_empty : Bytes → Bool
is_empty [] = true
is_empty (b ∷ bs) = false

module _ (x : NetLibrary) (base_domain : Bytes) where
  open x use {trim_space, to_lower, parse_ipv4}

  unfoldable pub get_node_domain : Bytes → Bytes
  get_node_domain node_id =
      let clean = to_lower (trim_space node_id) in
      if is_empty clean then base_domain else clean ++ b'.' ∷ base_domain

  unfoldable pub format_direct_domain_with_node : (ip_str node_id : Bytes) → Bytes
  format_direct_domain_with_node ip_str node_id =
      let clean_node = to_lower (trim_space node_id) in
      elim (parse_ipv4 (trim_space ip_str)) [
        | none ↦ ip_str
        | some ip ↦
            if is_empty clean_node
            then dashed ip ++ b'.' ∷ base_domain
            else dashed ip ++ b'.' ∷ (clean_node ++ b'.' ∷ base_domain)
      ]

abbrev pub is_digit : ℕ → Bool
is_digit c = leb b'0' c && leb c b'9'

-- `strconv.Atoi` up to its sign and its overflow: the number that the digits make.
unfoldable pub digits_from : ℕ → Bytes → Option ℕ
digits_from acc [] = some acc
digits_from acc (c ∷ cs) =
    let rest = digits_from (acc * 10 + (c - b'0')) cs in if is_digit c then rest else none

-- `strconv.Atoi`, for what the caller uses: a number from 0 to 255. A number out of this range, one
-- that overflows, and a text that is none are all refused alike; a sign is allowed.
unfoldable pub byte_value : Bytes → Option ℕ
byte_value [] = none
byte_value (c ∷ cs) =
    let signed = if is_empty cs then none else digits_from 0 cs in
    let value = if c == b'+' || c == b'-' then signed else digits_from 0 (c ∷ cs) in
    elim value [
      | none ↦ none
      | some n ↦ if leb n (if c == b'-' then 0 else 255) then some n else none
    ]

abbrev four : Option ℕ → Option ℕ → Option ℕ → Option ℕ → Option Ipv4
four (some p) (some q) (some r) (some s) = some (record { b1 = p; b2 = q; b3 = r; b4 = s })
four _ _ _ _ = none

unfoldable pub validate_and_build_ip : (s1 s2 s3 s4 : Bytes) → Option Ipv4
validate_and_build_ip s1 s2 s3 s4 =
    four (byte_value s1) (byte_value s2) (byte_value s3) (byte_value s4)

-- `reDashedExact`, read from the end of the label, where it is anchored: a run of digits, as long as
-- it is, with what stands before it.
unfoldable pub run : Bytes → Bytes → Bytes × Bytes
run [] acc = (acc, [])
run (c ∷ cs) acc = let rest = run cs (c ∷ acc) in if is_digit c then rest else (acc, c ∷ cs)

-- One to three digits.
unfoldable pub group : Bytes → Option (Bytes × Bytes)
group reversed =
    let (digits, rest) = run reversed [] in
    if leb 1 (length digits) && leb (length digits) 3 then some (digits, rest) else none

abbrev dash : Bytes → Option Bytes
dash [] = none
dash (c ∷ cs) = if c == b'-' then some cs else none

infixl 5 ◌>>=◌
abbrev ◌>>=◌ {ℓ κ} : {A : Type ℓ} {B : Type κ} → Option A → (A → Option B) → Option B
none >>= f = none
some a >>= f = f a

unfoldable pub match_dashed : Bytes → Option Ipv4
match_dashed label = do
  (s4, r4) ← group (reverse label)
  d4 ← dash r4
  (s3, r3) ← group d4
  d3 ← dash r3
  (s2, r2) ← group d3
  d2 ← dash r2
  (s1, r1) ← group d2
  validate_and_build_ip s1 s2 s3 s4

-- Four labels in a row.
abbrev match_dotted : List Bytes → Option Ipv4
match_dotted (s1 ∷ (s2 ∷ (s3 ∷ (s4 ∷ rest)))) = validate_and_build_ip s1 s2 s3 s4
match_dotted _ = none

abbrev or_else : Option Ipv4 → Option Ipv4 → Option Ipv4
or_else (some ip) other = some ip
or_else none other = other

unfoldable pub parse_labels : List Bytes → Option Ipv4
parse_labels [] = none
parse_labels (label ∷ labels) =
    or_else (match_dashed label) (or_else (match_dotted (label ∷ labels)) (parse_labels labels))

-- `strings.TrimSuffix(s, ".")`.
unfoldable pub trim_dot : Bytes → Bytes
trim_dot [] = []
trim_dot (c ∷ []) = if c == b'.' then [] else c ∷ []
trim_dot (c ∷ (d ∷ rest)) = c ∷ trim_dot (d ∷ rest)

unfoldable pub parse_ip : NetLibrary → Bytes → Option Ipv4
parse_ip x domain = parse_labels (split_dots (trim_dot (x.to_lower domain)))
