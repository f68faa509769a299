-- ===== src/Examples/Versions.antt =====
-- pkg/version/version.go at concrete inputs.
use eqrcp.Base.{ℕ, ◌≡◌, ◌*◌, ◌+◌, ◌-◌, ◌&&◌, true, false, [], ◌∷◌, leb, if◌then◌else◌}
use eqrcp.Base.Int.{pos}
use eqrcp.Base.Bytes.{Bytes}
use eqrcp.Version.{TextLibrary, is_newer_version}
use eqrcp.Version.Order.{less, key, is_newer_version_order}

abbrev number : ℕ → Bytes → ℕ
number n [] = n
number n (b ∷ bs) =
    let rest = number (n * 10 + (b - b'0')) bs in if leb b'0' b && leb b b'9' then rest else n

abbrev text : TextLibrary
text = record { trim_space = λ v. v; scan_int = λ part. pos (number 0 part) }

abbrev v1_9 : Bytes
v1_9 = b'v' ∷ b'1' ∷ b'.' ∷ b'9' ∷ []

abbrev v1_10_beta : Bytes
v1_10_beta = b'1' ∷ b'.' ∷ b'1' ∷ b'0' ∷ b'-' ∷ b'b' ∷ []

abbrev v1_10 : Bytes
v1_10 = b'1' ∷ b'.' ∷ b'1' ∷ b'0' ∷ b'.' ∷ b'0' ∷ []

is_newer_version_order_example :
    (is_newer_version text v1_9 v1_10_beta ≡ less (key text v1_9) (key text v1_10_beta))
    × (is_newer_version text v1_9 v1_9 ≡ false)
    × (is_newer_version text v1_9 v1_10_beta ≡ true → is_newer_version text v1_10_beta v1_9 ≡ false)
    × (is_newer_version text v1_9 v1_10_beta ≡ true
        → is_newer_version text v1_10_beta v1_10 ≡ true
        → is_newer_version text v1_9 v1_10 ≡ true)
is_newer_version_order_example = is_newer_version_order text v1_9 v1_10_beta v1_10
