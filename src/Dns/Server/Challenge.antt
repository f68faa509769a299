-- ===== src/Dns/Server/Challenge.antt =====
-- cmd/eqt-dns/main.go: `ServeDNS` answers a query for a challenge by what its store holds for live.
use eqrcp.Base.{◌≡◌, refl, ap, ◌∙◌, String, true, false, List, [], ◌∷◌, map, arith, ◌=ₛ◌}
use eqrcp.Base.Clock.{Time}
use eqrcp.Base.Distinct.{has}
use eqrcp.Dns.Store.{get}
use eqrcp.Dns.Store.Live.{is_live, IsValid}
use eqrcp.Dns.Store.Calls.{gets}
use eqrcp.Dns.Store.Refines.{get-IsAnswered}
use eqrcp.Dns.Address.{NetLibrary}
use eqrcp.Dns.Server.{
  NameLibrary, DnsHandler, Question, type_txt, Answer, text, canonical_name, psl_name,
  answer_no_challenge, answer_txt, answer_in_zone, in_zone, serve_dns,
}

abbrev pub texts : List Answer → List String
texts [] = []
texts (text name ttl txt ∷ answers) = txt ∷ texts answers
texts (_ ∷ answers) = texts answers

texts-map : (name : String) (vs : List String) → texts (map (λ w. text name 60 w) vs) ≡ vs
texts-map name [] = refl
texts-map name (v ∷ vs) = ap (λ ws. v ∷ ws) (texts-map name vs)

module _ (x : NameLibrary) (net : NetLibrary) where
  texts-answer_no_challenge :
      (h : DnsHandler) (question : Question) (q : String)
      → q =ₛ psl_name x net h ≡ false
      → texts (answer_no_challenge x net h question q).answers ≡ []
  unfolding answer_no_challenge
  texts-answer_no_challenge h question q other =
      let empty : (answer_no_challenge x net h question q).answers ≡ [] = ground arith in
      ap texts empty

  texts-answer_txt :
      (h : DnsHandler) (question : Question) (q : String) (vs : List String)
      → q =ₛ psl_name x net h ≡ false
      → texts (answer_txt x net h question q vs).answers ≡ vs
  unfolding answer_txt
  texts-answer_txt h question q [] other = texts-answer_no_challenge h question q other
  texts-answer_txt h question q (v ∷ vs) other = texts-map question.name (v ∷ vs)

  -- A query for the texts of a name in the zone, but the one of the public suffix list, is answered by exactly
  -- the values that the store holds for live at this time, if no value stands twice in a record.
  pub serve_dns-live :
      (h : DnsHandler) (name : String) (now : Time) (w : String)
      → IsValid h.store
      → in_zone x net h (x.to_lower name) ≡ true
      → x.to_lower name =ₛ psl_name x net h ≡ false
      → has w
          (texts (serve_dns x net h (record { name = name; qtype = type_txt } ∷ []) now).1.answers)
        ≡ is_live h.store now (canonical_name x net (x.to_lower name)) w
  unfolding serve_dns answer_in_zone
  serve_dns-live h name now w valid inside other =
      let q = x.to_lower name in
      let canonical = canonical_name x net in
      let challenges = (get canonical h.store q now).1 in
      let live =
        get-IsAnswered canonical (gets q) now now h.store (λ n v t. is_live h.store t n v) valid
          (omega arith) (λ n v t le. refl) in
      rw inside (
        ap (has w)
          (texts-answer_txt h (record { name = name; qtype = type_txt }) q challenges other)
        ∙ live w)
