-- ===== src/Share/Devices.antt =====
-- pkg/server/server.go: the names of devices, which become names of directories. A text is the list of its
-- code points.
use eqrcp.Base.{
  ℕ, ◌-◌, ◌<◌, ◌≤◌, ◌≡◌, refl, inl, inr, String, Bool, Bool-cases, true, false, ◌&&◌, ◌||◌, List,
  [], ◌∷◌, arith, ltb, leb, ◌==◌, length, drop, length-drop, All, All-drop, map, if◌then◌else◌,
}
use mathlib.Core.List.{reverse, reverse_aux}
use eqrcp.Base.Bytes.{bytes_eq}

abbrev pub is_safe : ℕ → Bool
is_safe c =
    (leb b'a' c && leb c b'z')
    || ((leb b'A' c && leb c b'Z') || ((leb b'0' c && leb c b'9') || (c == b'-' || c == b'_')))

abbrev pub safe_or_underscore : ℕ → ℕ
safe_or_underscore c = if is_safe c then c else b'_'

-- `strings.Trim(s, "._ ")`, on the left and on both sides.
unfoldable pub trim_left : List ℕ → List ℕ
trim_left [] = []
trim_left (c ∷ cs) =
    let rest = trim_left cs in if c == b'.' || (c == b'_' || c == b' ') then rest else c ∷ cs

unfoldable pub trim_marks : List ℕ → List ℕ
trim_marks s = reverse (trim_left (reverse (trim_left s)))

abbrev pub unknown : List ℕ
unknown = b'u' ∷ b'n' ∷ b'k' ∷ b'n' ∷ b'o' ∷ b'w' ∷ b'n' ∷ []

unfoldable pub sanitize_device_id : (trim_space : List ℕ → List ℕ) → List ℕ → List ℕ
sanitize_device_id trim_space raw =
    let id = trim_space raw in
    let res = trim_marks (map safe_or_underscore id) in
    let dots = bytes_eq res (b'.' ∷ []) || bytes_eq res (b'.' ∷ b'.' ∷ []) in
    if length id == 0 then unknown else if length res == 0 || dots then unknown else res

unfoldable pub short_device_id : List ℕ → List ℕ
short_device_id id = if ltb 4 (length id) then drop (length id - 4) id else id

-- `contains` is `strings.Contains`.
unfoldable pub parse_device_name : (contains : String → String → Bool) → (ua : String) → String
parse_device_name contains ua =
    if contains ua "iPhone"
    then "iPhone"
    else if contains ua "iPad"
    then "iPad"
    else if contains ua "Android"
    then "Android"
    else if contains ua "Macintosh"
    then "Mac"
    else if contains ua "Windows"
    then "Windows"
    else if contains ua "Linux"
    then "Linux"
    else "Mobile Device"

-- Only letters, digits, the hyphen and the underscore, and at least one of them.
abbrev pub IsSafeName : List ℕ → Type 0
IsSafeName s = All (λ c. is_safe c ≡ true) s × (0 < length s)

map-safe : (s : List ℕ) → All (λ c. is_safe c ≡ true) (map safe_or_underscore s)
map-safe [] = tt
map-safe (c ∷ s) = (ground arith, map-safe s)

trim_left-safe :
    (s : List ℕ) → All (λ c. is_safe c ≡ true) s → All (λ c. is_safe c ≡ true) (trim_left s)
unfolding trim_left
trim_left-safe [] h = tt
trim_left-safe (c ∷ cs) h = elim (Bool-cases (c == b'.' || (c == b'_' || c == b' '))) [
  | inl mark ↦ rw (mark, trim_left) (trim_left-safe cs h.1)
  | inr other ↦ rw (other, trim_left) h
]

reverse_aux-safe :
    (s acc : List ℕ)
    → All (λ c. is_safe c ≡ true) s
    → All (λ c. is_safe c ≡ true) acc
    → All (λ c. is_safe c ≡ true) (reverse_aux s acc)
reverse_aux-safe [] acc h k = k
reverse_aux-safe (c ∷ s) acc h k = reverse_aux-safe s (c ∷ acc) h.1 (h.0, k)

reverse-safe :
    (s : List ℕ) → All (λ c. is_safe c ≡ true) s → All (λ c. is_safe c ≡ true) (reverse s)
reverse-safe s h = reverse_aux-safe s [] h tt

trim_marks-safe :
    (s : List ℕ) → All (λ c. is_safe c ≡ true) s → All (λ c. is_safe c ≡ true) (trim_marks s)
unfolding trim_marks
trim_marks-safe s h =
    reverse-safe (trim_left (reverse (trim_left s)))
      (trim_left-safe (reverse (trim_left s)) (reverse-safe (trim_left s) (trim_left-safe s h)))

unknown-IsSafeName : IsSafeName unknown
unknown-IsSafeName = ((refl, (refl, (refl, (refl, (refl, (refl, (refl, tt))))))), omega arith)

unknown_if :
    (b c : Bool) (s : List ℕ)
    → (c ≡ false → IsSafeName s)
    → IsSafeName (if b then unknown else if c then unknown else s)
unknown_if true c s h = unknown-IsSafeName
unknown_if false true s h = unknown-IsSafeName
unknown_if false false s h = h refl

sanitized :
    (trim_space : List ℕ → List ℕ) (raw : List ℕ) → IsSafeName (sanitize_device_id trim_space raw)
unfolding sanitize_device_id
sanitized trim_space raw =
    let id = trim_space raw in
    let res = trim_marks (map safe_or_underscore id) in
    let dots = bytes_eq res (b'.' ∷ []) || bytes_eq res (b'.' ∷ b'.' ∷ []) in
    unknown_if (length id == 0) (length res == 0 || dots) res
      (λ e. (trim_marks-safe (map safe_or_underscore id) (map-safe id), ground arith))

short_device_id-IsSafeName :
    (id : List ℕ)
    → IsSafeName id
    → IsSafeName (short_device_id id) × (length (short_device_id id) ≤ 4)
unfolding short_device_id
short_device_id-IsSafeName id (safe, some_left) =
    let n = length-drop (length id - 4) id in
    elim (Bool-cases (ltb 4 (length id))) [
      | inl long ↦
          rw (long, short_device_id)
            (
              (All-drop (λ c. is_safe c ≡ true) (length id - 4) id safe, ground (arith, n, long)),
              ground (arith, n, long),
            )
      | inr short ↦ rw (short, short_device_id) ((safe, some_left), ground (arith, short))
    ]

-- Whatever id a client gives, its name in the directory has only letters, digits, hyphens and underscores,
-- and at least one of them; its short form has from one to four.
pub sanitize_device_id-IsSafeName :
    (trim_space : List ℕ → List ℕ) (raw : List ℕ)
    → let id = sanitize_device_id trim_space raw in
      IsSafeName id × IsSafeName (short_device_id id) × (length (short_device_id id) ≤ 4)
sanitize_device_id-IsSafeName trim_space raw =
    let safe = sanitized trim_space raw in
    let (short, four) = short_device_id-IsSafeName (sanitize_device_id trim_space raw) safe in
    (safe, short, four)
