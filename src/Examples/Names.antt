-- ===== src/Examples/Names.antt =====
-- pkg/server/util.go and pkg/server/progress.go at concrete inputs.
use eqrcp.Base.{
  inl, inr, Bool-cases, ℕ, zero, suc, ◌≡◌, refl, ap, String, false, List, [], ◌∷◌, none, some, All,
  arith, eq_iff, ◌=ₛ◌,
}
use Prim.Native.String.{[] as no_text, ◌∷◌ as char_then}
use eqrcp.Server.FileName.{Naming, scan, get_file_name, Directory, create_unique_file}
use eqrcp.Server.FileName.Unique.{IsNew, create_unique_file-IsNew}
use eqrcp.Server.Percent.{IsFloor, transfer_percent-IsFloor}
use eqrcp.Server.Encode.{rfc5987_percent_encode, decode, IsExtValue, decode-rfc5987_percent_encode}
use eqrcp.Server.Sanitize.{
  sanitize_ascii_filename, IsPlain, unquote, quote, sanitize_ascii_filename-IsPlain,
}

-- A unary count in place of the decimal one.
abbrev tally : ℕ → String
tally zero = "|"
tally (suc k) = char_then "|" (tally k)

abbrev size : String → ℕ
size no_text = 0
size (char_then c s) = suc (size s)

size-tally : (k : ℕ) → size (tally k) ≡ suc k
size-tally zero = refl
size-tally (suc k) = omega (arith, size-tally k)

abbrev variant : ℕ → String
variant k = char_then "a" (tally k)

variant_new : (k : ℕ) → (variant k =ₛ "a") ≡ false
variant_new k = elim (Bool-cases (variant k =ₛ "a")) [
  | inl same ↦ absurd (omega (arith, size-tally k, ap size ((eq_iff (variant k) "a").0 same)))
  | inr other ↦ other
]

abbrev a_file : Naming
a_file = record {
  name = "a";
  numbered = variant;
  numbered_inj = λ j k e. omega (arith, size-tally j, size-tally k, ap size e);
  numbered_new = variant_new;
}

-- The first variant is there, then the name itself.
abbrev listed : List String
listed = "a||" ∷ "a" ∷ []

abbrev second : String
second = "a||"

renamed : get_file_name a_file 20 ("b" ∷ "a" ∷ []) ≡ some second
unfolding get_file_name scan
renamed = refl

-- A directory whose files the list of names does not show.
abbrev shared : Directory
shared = record { files = "a" ∷ "a|" ∷ []; error = λ name. none }

create_unique_file-IsNew_example : IsNew shared (create_unique_file a_file 4 shared [])
create_unique_file-IsNew_example = create_unique_file-IsNew a_file 4 shared [] (omega arith)

transfer_percent-IsFloor_example : (p : ℕ) × IsFloor 29 100 p
transfer_percent-IsFloor_example = transfer_percent-IsFloor 29 100 (omega arith) (omega arith)

decode-rfc5987_percent_encode_example :
    let bytes : List ℕ = b'a' ∷ b' ' ∷ b'%' ∷ 233 ∷ [] in
    (decode (rfc5987_percent_encode bytes) ≡ some bytes)
    × All IsExtValue (rfc5987_percent_encode bytes)
decode-rfc5987_percent_encode_example =
    decode-rfc5987_percent_encode (b'a' ∷ b' ' ∷ b'%' ∷ 233 ∷ [])
      (omega arith, (omega arith, (omega arith, (omega arith, tt))))

-- The part up to the last dot, and the rest: a split for names of five bytes and an extension.
abbrev split_at_five : List ℕ → List ℕ × List ℕ
split_at_five (a ∷ (b ∷ (c ∷ (d ∷ (e ∷ ext))))) = (a ∷ b ∷ c ∷ d ∷ e ∷ [], ext)
split_at_five bs = (bs, [])

abbrev accented : List ℕ
accented = b'c' ∷ b'a' ∷ b'f' ∷ 195 ∷ 169 ∷ b'.' ∷ b'p' ∷ []

sanitize_ascii_filename-IsPlain_example :
    let plain = sanitize_ascii_filename split_at_five accented in
    All IsPlain plain
    × (All IsPlain accented → plain ≡ accented)
    × (plain ≡ [] → accented ≡ [])
    × (unquote (quote plain) ≡ some plain)
sanitize_ascii_filename-IsPlain_example = sanitize_ascii_filename-IsPlain split_at_five accented
