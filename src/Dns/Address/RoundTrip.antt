-- ===== src/Dns/Address/RoundTrip.antt =====
-- The address in the name of a device is read back by the name server: from `FormatDirectDomainWithNode` of
-- pkg/cert/provisioner.go to `parseIP` of cmd/eqt-dns/main.go.
use eqrcp.Base.{
  ℕ, ◌<◌, ◌≤◌, ◌≡◌, refl, ◌∙◌, inl, inr, Bool-cases, true, false, List, [], ◌∷◌, ◌++◌, some, All,
  length, ◌==◌, arith,
}
use mathlib.Core.List.{reverse, reverse_aux, append-nil}
use eqrcp.Base.Bytes.{Bytes, split_dots}
use eqrcp.Dns.Address.{
  Ipv4, NetLibrary, show_byte, dashed, format_direct_domain_with_node, is_digit, digits_from,
  byte_value, validate_and_build_ip, run, group, match_dashed, parse_labels, is_empty, trim_dot,
  parse_ip,
}

abbrev pub IsAddress : Ipv4 → Type 0
IsAddress ip = (ip.b1 < 256) × (ip.b2 < 256) × (ip.b3 < 256) × (ip.b4 < 256)

-- `strings.ToLower` leaves what stands before the first letter as it is.
abbrev pub KeepsPlain : NetLibrary → Type 0
KeepsPlain x = (p r : Bytes) → All (λ b. b < b'A') p → x.to_lower (p ++ r) ≡ p ++ x.to_lower r

Digits : Bytes → Type 0
Digits = All (λ b. is_digit b ≡ true)

byte_value-show_byte : (n : ℕ) → n < 256 → byte_value (show_byte n) ≡ some n
unfolding byte_value show_byte digits_from
byte_value-show_byte n h = ground arith

show_byte-Digits : (n : ℕ) → n < 256 → Digits (show_byte n)
unfolding show_byte Digits
show_byte-Digits n h = ground arith

length-show_byte : (n : ℕ) → (1 ≤ length (show_byte n)) × (length (show_byte n) ≤ 3)
unfolding show_byte
length-show_byte n = ground arith

reverse_aux-append :
    (p q acc : Bytes) → reverse_aux (p ++ q) acc ≡ reverse_aux q (reverse_aux p acc)
reverse_aux-append [] q acc = refl
reverse_aux-append (b ∷ p) q acc = reverse_aux-append p q (b ∷ acc)

run-reverse_aux :
    (p rest acc : Bytes) → Digits p → run (reverse_aux p rest) acc ≡ run rest (p ++ acc)
unfolding Digits
run-reverse_aux [] rest acc h = refl
run-reverse_aux (b ∷ p) rest acc (digit, h) =
    run-reverse_aux p (b ∷ rest) acc h ∙ unfold run in rw digit refl

group-reverse_aux :
    (n : ℕ) (rest : Bytes)
    → n < 256
    → ((acc : Bytes) → run rest acc ≡ (acc, rest))
    → group (reverse_aux (show_byte n) rest) ≡ some (show_byte n, rest)
unfolding group
group-reverse_aux n rest h ends =
    let digits = show_byte n in
    let (short, long) = length-show_byte n in
    rw (run-reverse_aux digits rest [] (show_byte-Digits n h), append-nil digits, ends digits)
      (ground (arith, short, long))

run_dash : (rest acc : Bytes) → run (b'-' ∷ rest) acc ≡ (acc, b'-' ∷ rest)
unfolding run
run_dash rest acc = refl

run_end : (acc : Bytes) → run [] acc ≡ (acc, [])
unfolding run
run_end acc = refl

abbrev between : Bytes → ℕ → Bytes
between rest n = reverse_aux (show_byte n) (b'-' ∷ rest)

reverse-dashed :
    (ip : Ipv4)
    → reverse (dashed ip)
      ≡ reverse_aux (show_byte ip.b4) (
          b'-'
          ∷ reverse_aux
              (show_byte ip.b3)
              (b'-' ∷ reverse_aux (show_byte ip.b2) (b'-' ∷ reverse_aux (show_byte ip.b1) [])))
reverse-dashed ip =
    rw
      (
        reverse_aux-append (show_byte ip.b1)
            (b'-' ∷ (show_byte ip.b2 ++ b'-' ∷ (show_byte ip.b3 ++ b'-' ∷ show_byte ip.b4))) [],
        reverse_aux-append (show_byte ip.b2) (b'-' ∷ (show_byte ip.b3 ++ b'-' ∷ show_byte ip.b4))
            (b'-' ∷ reverse_aux (show_byte ip.b1) []),
        reverse_aux-append (show_byte ip.b3) (b'-' ∷ show_byte ip.b4)
            (b'-' ∷ reverse_aux (show_byte ip.b2) (b'-' ∷ reverse_aux (show_byte ip.b1) [])),
      )
      refl

match_dashed-dashed : (ip : Ipv4) → IsAddress ip → match_dashed (dashed ip) ≡ some ip
unfolding match_dashed
match_dashed-dashed ip (h1, h2, h3, h4) =
    let g1 = group-reverse_aux ip.b1 [] h1 run_end in
    let r1 = reverse_aux (show_byte ip.b1) [] in
    let g2 = group-reverse_aux ip.b2 (b'-' ∷ r1) h2 (run_dash r1) in
    let r2 = reverse_aux (show_byte ip.b2) (b'-' ∷ r1) in
    let g3 = group-reverse_aux ip.b3 (b'-' ∷ r2) h3 (run_dash r2) in
    let r3 = reverse_aux (show_byte ip.b3) (b'-' ∷ r2) in
    let g4 = group-reverse_aux ip.b4 (b'-' ∷ r3) h4 (run_dash r3) in
    rw (reverse-dashed ip, g4, g3, g2, g1)
      (unfold validate_and_build_ip in
        rw
          (
            byte_value-show_byte ip.b1 h1,
            byte_value-show_byte ip.b2 h2,
            byte_value-show_byte ip.b3 h3,
            byte_value-show_byte ip.b4 h4,
          )
          refl)

-- Bytes of a label: none is a dot or a letter.
Plain : Bytes → Type 0
Plain = All (λ b. (b < b'A') × (b == b'.' ≡ false))

Plain-append : (p q : Bytes) → Plain p → Plain q → Plain (p ++ q)
unfolding Plain
Plain-append [] q hp hq = hq
Plain-append (b ∷ p) q (here, hp) hq = (here, Plain-append p q hp hq)

show_byte-Plain : (n : ℕ) → n < 256 → Plain (show_byte n)
unfolding show_byte Plain
show_byte-Plain n h = ground arith

dash-Plain : (q : Bytes) → Plain q → Plain (b'-' ∷ q)
unfolding Plain
dash-Plain q h = ((omega arith, refl), h)

dashed-Plain : (ip : Ipv4) → IsAddress ip → Plain (dashed ip)
dashed-Plain ip (h1, h2, h3, h4) =
    let p1 = show_byte-Plain ip.b1 h1 in
    let p2 = show_byte-Plain ip.b2 h2 in
    let p3 = show_byte-Plain ip.b3 h3 in
    let p4 = show_byte-Plain ip.b4 h4 in
    Plain-append _ _ p1
      (dash-Plain _ (Plain-append _ _ p2 (dash-Plain _ (Plain-append _ _ p3 (dash-Plain _ p4)))))

below_letters : (p : Bytes) → Plain p → All (λ b. b < b'A') p
unfolding Plain
below_letters [] h = tt
below_letters (b ∷ p) ((below, _), h) = (below, below_letters p h)

-- The first label of a name.
FirstLabel : Bytes → List Bytes → Type 0
FirstLabel p labels = (ls : List Bytes) × (labels ≡ p ∷ ls)

first_label : (p r : Bytes) → Plain p → FirstLabel p (split_dots (trim_dot (p ++ b'.' ∷ r)))
unfolding Plain FirstLabel trim_dot split_dots
first_label [] [] h = ([], refl)
first_label [] (c ∷ r) h = (split_dots (trim_dot (c ∷ r)), refl)
first_label (b ∷ []) r ((_, no_dot), h) =
    let (ls, e) = first_label [] r h in (ls, rw (no_dot, e) refl)
first_label (b ∷ (c ∷ p)) r ((_, no_dot), h) =
    let (ls, e) = first_label (c ∷ p) r h in (ls, rw (no_dot, e) refl)

parse_labels_first :
    (p : Bytes) (labels : List Bytes) (ip : Ipv4)
    → FirstLabel p labels
    → match_dashed p ≡ some ip
    → parse_labels labels ≡ some ip
unfolding FirstLabel parse_labels
parse_labels_first p labels ip (ls, e) m = rw (e, m) refl

parse_ip-dashed :
    (x : NetLibrary) (ip : Ipv4) (r : Bytes)
    → KeepsPlain x
    → IsAddress ip
    → parse_ip x (dashed ip ++ b'.' ∷ r) ≡ some ip
unfolding parse_ip
parse_ip-dashed x ip r keeps h =
    let label = dashed-Plain ip h in
    rw
      (
        keeps (dashed ip) (b'.' ∷ r) (below_letters (dashed ip) label),
        keeps (b'.' ∷ []) r (omega arith, tt),
      )
      (parse_labels_first (dashed ip) _ ip (first_label (dashed ip) (x.to_lower r) label)
        (match_dashed-dashed ip h))

direct_name :
    (x : NetLibrary) (base_domain ip_str node_id : Bytes) (ip : Ipv4)
    → x.parse_ipv4 (x.trim_space ip_str) ≡ some ip
    → (r : Bytes) × (format_direct_domain_with_node x base_domain ip_str node_id
        ≡ dashed ip ++ b'.' ∷ r)
unfolding format_direct_domain_with_node
direct_name x base_domain ip_str node_id ip e =
    let clean = x.to_lower (x.trim_space node_id) in
    elim (Bool-cases (is_empty clean)) [
      | inl empty ↦ (base_domain, rw (e, format_direct_domain_with_node) (rw empty refl))
      | inr named ↦
          (clean ++ b'.' ∷ base_domain, rw (e, format_direct_domain_with_node) (rw named refl))
    ]

-- The name server reads back the address from the direct name that was made of it, whatever the
-- domain and the device id are, with the id or without. The lower-casing of names is taken to leave
-- the bytes before the first letter as they are.
pub parse_ip-format_direct_domain_with_node :
    (x : NetLibrary) (base_domain ip_str node_id : Bytes) (ip : Ipv4)
    → KeepsPlain x
    → IsAddress ip
    → x.parse_ipv4 (x.trim_space ip_str) ≡ some ip
    → parse_ip x (format_direct_domain_with_node x base_domain ip_str node_id) ≡ some ip
parse_ip-format_direct_domain_with_node x base_domain ip_str node_id ip keeps h e =
    let (r, name) = direct_name x base_domain ip_str node_id ip e in
    rw name (parse_ip-dashed x ip r keeps h)
