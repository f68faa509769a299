-- ===== src/Dns/Server.antt =====
-- cmd/eqt-dns/main.go: `ServeDNS`, the answer to a query, and `isValidACMERecord`, the names that the
-- server takes challenges for.
pub mod Challenge
use eqrcp.Base.{
  ℕ, ◌-◌, String, Bool, true, false, not, ◌&&◌, ◌||◌, List, [], ◌∷◌, ◌++◌, Option, none, some, leb,
  ◌==◌, ◌=ₛ◌, length, map, if◌then◌else◌,
}
use mathlib.Core.List.{reverse}
use eqrcp.Base.Bytes.{Bytes, bytes_eq, split_dots}
use eqrcp.Base.Clock.{Time}
use eqrcp.Dns.Store.{AcmeStore, get}
use eqrcp.Dns.Address.{Ipv4, NetLibrary, is_digit, trim_dot, parse_ip}

-- The functions on texts, with TrimSuffix for ".", and the bytes of a text.
pub record NameLibrary : Type 0 where
  pub to_lower : String → String
  pub without_dot : String → String
  pub has_suffix : (s suffix : String) → Bool
  pub has_prefix : (s prefix : String) → Bool
  pub concat : String → String → String
  pub bytes_of : String → Bytes

pub record DnsHandler : Type 0 where
  pub base_domain : String
  pub store : AcmeStore
  pub ns1 : String
  pub ns2 : String
  pub soa_m_name : String
  pub soa_r_name : String
  pub psl_url : String

pub data QueryType : Type 0 where
  type_a : QueryType
  type_txt : QueryType
  type_ns : QueryType
  type_soa : QueryType
  other_type : QueryType

pub record Question : Type 0 where
  pub name : String
  pub qtype : QueryType

-- A resource record with its name and its time to live; that of SOA has fixed numbers.
pub data Answer : Type 0 where
  address : (name : String) (ttl : ℕ) → Ipv4 → Answer
  text : (name : String) (ttl : ℕ) (txt : String) → Answer
  name_server : (name : String) (ttl : ℕ) (host : String) → Answer
  authority : (name : String) (ttl : ℕ) (m_name r_name : String) → Answer

pub data Rcode : Type 0 where
  success : Rcode
  name_error : Rcode
  refused_query : Rcode

pub record Message : Type 0 where
  pub rcode : Rcode
  pub answers : List Answer

module _ (x : NameLibrary) (net : NetLibrary) where
  open x use {to_lower, without_dot, has_suffix, has_prefix, concat, bytes_of}

  -- The name under which the store keeps a record.
  abbrev pub canonical_name : String → String
  canonical_name name = concat (to_lower (without_dot name)) "."

  abbrev pub clean_base : DnsHandler → String
  clean_base h = canonical_name h.base_domain

  abbrev pub psl_name : DnsHandler → String
  psl_name h = concat "_psl." (clean_base h)

  abbrev pub address_of : String → Option Ipv4
  address_of q = parse_ip net (bytes_of q)

  unfoldable pub answer_a : Question → (q : String) → Message
  answer_a question q = elim (address_of q) [
    | none ↦ record { rcode = name_error; answers = [] }
    | some ip ↦ record { rcode = success; answers = address question.name 300 ip ∷ [] }
  ]

  -- The answer to a query for a text where there is no challenge.
  unfoldable pub answer_no_challenge : DnsHandler → Question → (q : String) → Message
  answer_no_challenge h question q =
      let known : Bool = elim (address_of q) [ none ↦ false | some ip ↦ true ] in
      if q =ₛ psl_name h && not (h.psl_url =ₛ "")
      then record { rcode = success; answers = text question.name 300 h.psl_url ∷ [] }
      else if has_prefix q "_acme-challenge." || (q =ₛ clean_base h || (q =ₛ psl_name h || known))
      then record { rcode = success; answers = [] }
      else record { rcode = name_error; answers = [] }

  unfoldable pub answer_txt :
      DnsHandler → Question → (q : String) → (challenges : List String) → Message
  answer_txt h question q [] = answer_no_challenge h question q
  answer_txt h question q (v ∷ vs) = record {
    rcode = success;
    answers = map (λ w. text question.name 60 w) (v ∷ vs);
  }

  unfoldable pub answer_in_zone :
      DnsHandler → Question → QueryType → (q : String) → Time → AcmeStore × Message
  answer_in_zone h question type_a q now = (h.store, answer_a question q)
  answer_in_zone h question type_txt q now =
      let (store, challenges) = get canonical_name h.store q now in
      (store, answer_txt h question q challenges)
  answer_in_zone h question type_ns q now = (
    h.store,
    record {
      rcode = success;
      answers = name_server (clean_base h) 3600 h.ns1 ∷ name_server (clean_base h) 3600 h.ns2 ∷ [];
    },
  )
  answer_in_zone h question type_soa q now = (
    h.store,
    record {
      rcode = success;
      answers = authority (clean_base h) 3600 h.soa_m_name h.soa_r_name ∷ [];
    },
  )
  answer_in_zone h question other_type q now = (h.store, record { rcode = success; answers = [] })

  unfoldable pub in_zone : DnsHandler → (q : String) → Bool
  in_zone h q = has_suffix q (clean_base h) || q =ₛ clean_base h

  unfoldable pub serve_dns : DnsHandler → List Question → Time → AcmeStore × Message
  serve_dns h [] now = (h.store, record { rcode = success; answers = [] })
  serve_dns h (question ∷ questions) now =
      let q = to_lower question.name in
      if not (in_zone h q)
      then (h.store, record { rcode = refused_query; answers = [] })
      else answer_in_zone h question question.qtype q now

-- `strings.TrimPrefix` with whether there was the prefix.
unfoldable pub strip_prefix : (prefix s : Bytes) → Option Bytes
strip_prefix [] s = some s
strip_prefix (b ∷ prefix) [] = none
strip_prefix (b ∷ prefix) (c ∷ s) =
    let rest = strip_prefix prefix s in if b == c then rest else none

-- The same at the end.
unfoldable pub strip_suffix : (suffix s : Bytes) → Option Bytes
strip_suffix suffix s = elim (strip_prefix (reverse suffix) (reverse s)) [
  | none ↦ none
  | some rest ↦ some (reverse rest)
]

abbrev pub is_label_char : ℕ → Bool
is_label_char c = (leb b'a' c && leb c b'z') || (is_digit c || c == b'-')

unfoldable pub all_label_chars : Bytes → Bool
all_label_chars [] = true
all_label_chars (c ∷ cs) = is_label_char c && all_label_chars cs

abbrev starts_with_dash : Bytes → Bool
starts_with_dash [] = false
starts_with_dash (c ∷ cs) = c == b'-'

unfoldable pub valid_label : Bytes → Bool
valid_label label =
    leb 1 (length label)
    && (leb (length label) 63
        && (all_label_chars label
            && (not (starts_with_dash label) && not (starts_with_dash (reverse label)))))

unfoldable pub valid_labels : List Bytes → Bool
valid_labels [] = true
valid_labels (label ∷ labels) = valid_label label && valid_labels labels

-- The prefixes are `_acme-challenge.` and `_psl.`.
module _ (net : NetLibrary) (acme psl : Bytes) where
  -- A name in the middle, when the prefix and the suffix do not overlap.
  unfoldable pub middle_valid : Bytes → (suffix : Bytes) → Bool
  middle_valid record_name suffix = elim (strip_prefix acme record_name) [
    | none ↦ false
    | some sub ↦ elim (strip_suffix suffix record_name) [
      | none ↦ false
      | some front ↦ elim (strip_suffix suffix sub) [
        | none ↦ sub_valid sub
        | some middle ↦ sub_valid middle
      ]
    ]
  ]
    where
      sub_valid : Bytes → Bool
      sub_valid [] = false
      sub_valid (c ∷ cs) = valid_labels (split_dots (c ∷ cs))

  unfoldable pub is_valid_acme_record : (record_name default_domain : Bytes) → Bool
  is_valid_acme_record record_name default_domain =
      let domain = net.to_lower (trim_dot default_domain) ++ b'.' ∷ [] in
      bytes_eq record_name (acme ++ domain)
      || (bytes_eq record_name (psl ++ domain) || middle_valid record_name (b'.' ∷ domain))
