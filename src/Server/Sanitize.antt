-- ===== src/Server/Sanitize.antt =====
-- pkg/server/util.go: `sanitizeASCIIFilename` and the quoted form of `contentDispositionFor`. A Go
-- string is the list of its bytes.
use eqrcp.Base.{
  ℕ, ◌≡◌, ◌≢◌, ◌≤◌, refl, ap, inl, inr, Bool-cases, Bool, true, false, ◌&&◌, ◌||◌, List, [], ◌∷◌,
  ◌++◌, Option, none, some, All, All-append, any, ltb, leb, ◌==◌, arith, if◌then◌else◌,
}
use mathlib.Core.Option.{map as map_option}
use mathlib.Core.List.{reverse, reverse_aux}
use eqrcp.Server.Encode.{is_alnum}

-- `b > 127 || b < 32`.
abbrev pub is_unsafe : ℕ → Bool
is_unsafe b = ltb 127 b || ltb b 32

-- The byte that the loop over the base writes, if any.
unfoldable pub clean_byte : ℕ → List ℕ
clean_byte b =
    if is_alnum b || (b == b'-' || (b == b'_' || b == b'.'))
    then b ∷ []
    else if leb b 127 && leb 32 b
    then b'_' ∷ []
    else []

unfoldable pub clean_base : List ℕ → List ℕ
clean_base [] = []
clean_base (b ∷ bs) = clean_byte b ++ clean_base bs

-- `strings.Trim(s, "_")`.
unfoldable pub trim_left : List ℕ → List ℕ
trim_left [] = []
trim_left (b ∷ bs) = let rest = trim_left bs in if b == b'_' then rest else b ∷ bs

unfoldable pub trim : List ℕ → List ℕ
trim bs = reverse (trim_left (reverse (trim_left bs)))

abbrev pub file_bytes : List ℕ
file_bytes = b'f' ∷ b'i' ∷ b'l' ∷ b'e' ∷ []

abbrev or_file : List ℕ → List ℕ
or_file [] = file_bytes
or_file (b ∷ bs) = b ∷ bs

-- `split` gives the name without its extension, and the extension (`filepath.Ext`).
unfoldable pub sanitize_ascii_filename : (List ℕ → List ℕ × List ℕ) → List ℕ → List ℕ
sanitize_ascii_filename split name =
    let (base, ext) = split name in
    let clean_ext = if any is_unsafe ext then [] else ext in
    if any is_unsafe name then or_file (trim (clean_base base)) ++ clean_ext else name

-- The escapes of the quoted form: `\` and `"`.
unfoldable pub quote_byte : ℕ → List ℕ
quote_byte b = if b == b'\\' || b == b'"' then b'\\' ∷ b ∷ [] else b ∷ []

unfoldable pub quote : List ℕ → List ℕ
quote [] = []
quote (b ∷ bs) = quote_byte b ++ quote bs

-- An ASCII byte that is none of the control characters below the blank.
abbrev pub IsPlain : ℕ → Type 0
IsPlain b = (32 ≤ b) × (b ≤ 127)

All-IsPlain : (bs : List ℕ) → any is_unsafe bs ≡ false → All IsPlain bs
All-IsPlain [] e = tt
All-IsPlain (b ∷ bs) e = (ground arith, All-IsPlain bs (ground arith))

clean_byte-IsPlain : (b : ℕ) → All IsPlain (clean_byte b)
unfolding clean_byte
clean_byte-IsPlain b = ground arith

clean_base-IsPlain : (bs : List ℕ) → All IsPlain (clean_base bs)
unfolding clean_base
clean_base-IsPlain [] = tt
clean_base-IsPlain (b ∷ bs) =
    All-append IsPlain (clean_byte b) (clean_base bs) (clean_byte-IsPlain b) (clean_base-IsPlain bs)

trim_left-All : (P : ℕ → Type 0) (bs : List ℕ) → All P bs → All P (trim_left bs)
unfolding trim_left
trim_left-All P [] h = tt
trim_left-All P (b ∷ bs) h = elim (Bool-cases (b == b'_')) [
  | inl e ↦ rw e (trim_left-All P bs h.1)
  | inr e ↦ rw e h
]

All-reverse_aux :
    (P : ℕ → Type 0) (bs cs : List ℕ) → All P bs → All P cs → All P (reverse_aux bs cs)
All-reverse_aux P [] cs h k = k
All-reverse_aux P (b ∷ bs) cs h k = All-reverse_aux P bs (b ∷ cs) h.1 (h.0, k)

trim-All : (P : ℕ → Type 0) (bs : List ℕ) → All P bs → All P (trim bs)
unfolding trim
trim-All P bs h =
    All-reverse_aux P (trim_left (reverse (trim_left bs))) []
      (trim_left-All P (reverse (trim_left bs))
        (All-reverse_aux P (trim_left bs) [] (trim_left-All P bs h) tt))
      tt

or_file-IsPlain : (bs : List ℕ) → All IsPlain bs → All IsPlain (or_file bs)
or_file-IsPlain [] h = (omega arith, (omega arith, (omega arith, (omega arith, tt))))
or_file-IsPlain (b ∷ bs) h = h

or_file_append : (bs ext : List ℕ) → or_file bs ++ ext ≢ []
or_file_append [] ext e = cc
or_file_append (b ∷ bs) ext e = cc

extension-IsPlain : (ext : List ℕ) → All IsPlain (if any is_unsafe ext then [] else ext)
extension-IsPlain ext = elim (Bool-cases (any is_unsafe ext)) [
  | inl bad ↦ rw bad tt
  | inr good ↦ rw good (All-IsPlain ext good)
]

-- What the quoted form of a name is read as: a backslash gives the byte after it, and a quote would
-- end the text.
unfoldable pub unquote : List ℕ → Option (List ℕ)
unquote [] = some []
unquote (c ∷ []) = if c == b'\\' || c == b'"' then none else some (c ∷ [])
unquote (c ∷ (x ∷ rest)) =
    let escaped = map_option (λ bs. x ∷ bs) (unquote rest) in
    let own = map_option (λ bs. c ∷ bs) (unquote (x ∷ rest)) in
    if c == b'\\' then escaped else if c == b'"' then none else own

unquote_plain :
    (c : ℕ) (rest out : List ℕ)
    → c == b'\\' || c == b'"' ≡ false
    → unquote rest ≡ some out
    → unquote (c ∷ rest) ≡ some (c ∷ out)
unfolding unquote
unquote_plain c [] out e f = rw e (ground (arith, f))
unquote_plain c (x ∷ rest) out e f =
    let no_slash : (c == b'\\') ≡ false = ground arith in
    let no_quote : (c == b'"') ≡ false = ground arith in
    rw no_slash (rw no_quote (ap (map_option (λ bs. c ∷ bs)) f))

unquote_escaped :
    (x : ℕ) (rest out : List ℕ)
    → unquote rest ≡ some out
    → unquote (b'\\' ∷ x ∷ rest) ≡ some (x ∷ out)
unfolding unquote
unquote_escaped x rest out e = ap (map_option (λ bs. x ∷ bs)) e

unquote-quote : (bs : List ℕ) → unquote (quote bs) ≡ some bs
unfolding quote quote_byte
unquote-quote [] = unfold unquote in refl
unquote-quote (b ∷ bs) = elim (Bool-cases (b == b'\\' || b == b'"')) [
  | inl special ↦ rw special (unquote_escaped b (quote bs) bs (unquote-quote bs))
  | inr own ↦ rw own (unquote_plain b (quote bs) bs own (unquote-quote bs))
]

safe_name : (name : List ℕ) → All IsPlain name → any is_unsafe name ≡ true → ⊥
safe_name [] h bad = cc
safe_name (b ∷ bs) h bad =
    let safe : is_unsafe b ≡ false = let (low, high) = h.0 in ground arith in
    safe_name bs h.1 (ground arith)

-- The plain name that a `Content-Disposition` header carries has only the bytes from 32 to 127, so it
-- has no line break and no byte beyond ASCII; it is the file's name where that has only such bytes, and
-- is empty only if the file's name is; between its quotes it is read back as it was, so no name ends
-- the text early.
pub sanitize_ascii_filename-IsPlain :
    (split : List ℕ → List ℕ × List ℕ) (name : List ℕ)
    → let plain = sanitize_ascii_filename split name in
      All IsPlain plain
      × (All IsPlain name → plain ≡ name)
      × (plain ≡ [] → name ≡ [])
      × (unquote (quote plain) ≡ some plain)
unfolding sanitize_ascii_filename
sanitize_ascii_filename-IsPlain split name = elim (Bool-cases (any is_unsafe name)) [
  | inl bad ↦
      let (base, ext) = split name in
      let shown = trim (clean_base base) in
      rw bad (
        All-append IsPlain (or_file shown) _
            (or_file-IsPlain shown (trim-All IsPlain (clean_base base) (clean_base-IsPlain base)))
            (extension-IsPlain ext),
        λ plain_name. absurd (safe_name name plain_name bad),
        λ e. absurd (or_file_append shown _ e),
        unquote-quote _,
      )
  | inr good ↦ rw good (All-IsPlain name good, λ e. refl, λ e. e, unquote-quote name)
]
