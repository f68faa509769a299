-- ===== src/Examples/Records.antt =====
-- cmd/eqt-dns/main.go and the names of pkg/cert/provisioner.go at concrete inputs.
use eqrcp.Base.{
  ◌≡◌, refl, true, inl, inr, Bool-cases, eq_iff, ◌=ₛ◌, false, List, [], ◌∷◌, none, some, arith,
  if◌then◌else◌,
}
use eqrcp.Base.Bytes.{bytes_eq}
use eqrcp.Base.Assoc.{lookup}
use eqrcp.Base.Clock.{Time}
use eqrcp.Dns.Store.{new_acme_store}
use eqrcp.Dns.Store.Live.{is_live, IsValid}
use eqrcp.Dns.Store.Calls.{Call, sets, deletes, gets}
use eqrcp.Dns.Store.Refines.{AllAnswered, store_refines}
use eqrcp.Dns.Address.{Ipv4, NetLibrary, parse_ip, format_direct_domain_with_node}
use eqrcp.Base.Distinct.{has}
use eqrcp.Dns.Server.{NameLibrary, DnsHandler, type_txt, in_zone, serve_dns}
use eqrcp.Dns.Server.Challenge.{texts, serve_dns-live}
use eqrcp.Dns.Address.RoundTrip.{parse_ip-format_direct_domain_with_node}

abbrev calls : List (Time × Call)
calls =
    (10, sets "_acme.eqt." "x" 60)
    ∷ (20, sets "_acme.eqt." "y" 5)
    ∷ (25, gets "_acme.eqt.")
    ∷ (26, deletes "_acme.eqt." "x")
    ∷ (26, gets "_acme.eqt.")
    ∷ []

store_refines_example : AllAnswered (λ name. name) new_acme_store (λ name w t. false) calls
store_refines_example =
    store_refines (λ name. name) new_acme_store (λ name w t. false) 0 calls
      (λ name. unfold new_acme_store lookup in tt)
      (λ name w t le. unfold is_live new_acme_store lookup in refl)
      (omega arith, (omega arith, (omega arith, (omega arith, (omega arith, tt)))))

abbrev home : Ipv4
home = record { b1 = 192; b2 = 168; b3 = 0; b4 = 201 }

-- A library that knows the text of one address.
abbrev net : NetLibrary
net = record {
  trim_space = λ s. s;
  to_lower = λ s. s;
  parse_ipv4 = λ s. if bytes_eq s (b'x' ∷ []) then some home else none;
}

parse_ip-format_direct_domain_with_node_example :
    parse_ip net (format_direct_domain_with_node net (b'e' ∷ []) (b'x' ∷ []) (b'n' ∷ []))
    ≡ some home
parse_ip-format_direct_domain_with_node_example =
    parse_ip-format_direct_domain_with_node net (b'e' ∷ []) (b'x' ∷ []) (b'n' ∷ []) home
      (λ p r h. refl) (omega arith, omega arith, omega arith, omega arith) (unfold bytes_eq in refl)

abbrev same_text : NameLibrary
same_text = record {
  to_lower = λ s. s;
  without_dot = λ s. s;
  has_suffix = λ s t. true;
  has_prefix = λ s t. false;
  concat = λ s t. s;
  bytes_of = λ s. [];
}

-- A challenge that holds until the time 60.
abbrev handler : DnsHandler
handler = record {
  base_domain = "eqt";
  store = record { entries = ("_acme.eqt", ("x", 60) ∷ []) ∷ [] };
  ns1 = "ns1";
  ns2 = "ns2";
  soa_m_name = "ns1";
  soa_r_name = "admin";
  psl_url = "";
}

one_challenge : IsValid handler.store
unfolding lookup
one_challenge name = elim (Bool-cases (name =ₛ "_acme.eqt")) [
  | inl same ↦ rw same (refl, tt)
  | inr other ↦ rw other tt
]

serve_dns-live_example :
    has "x" (
      texts
        (serve_dns same_text net handler
          (record { name = "_acme.eqt"; qtype = type_txt } ∷ [])
          10).1.answers)
    ≡ is_live handler.store 10 "_acme.eqt" "x"
serve_dns-live_example =
    serve_dns-live same_text net handler "_acme.eqt" 10 "x" one_challenge (unfold in_zone in refl)
      (ground (arith, eq_iff "_acme.eqt" "_psl."))
