-- ===== src/Upload/Network/Tests.antt =====
-- A server with two addresses, at a list with one address and one range.
use achgateway.Base.{
  ℕ, Text, txt, text_contains, any, nat_eq, leb, ok, err, new_error, true, none, some, List, [],
  ◌∷◌, ◌≡◌, ◌↔◌, ◌⊎◌, refl,
}
use achgateway.Upload.Network.{Net, host_of, reject_outbound_ip_range}
use achgateway.Upload.Network.Laws.{fits, reject_outbound_iff}

-- Addresses are numbers, and a range holds those from its start on.
abbrev numbers : Net
numbers = record {
  Ip = ℕ;
  IpNet = ℕ;
  split_host_port = λ h. err (new_error (txt "no port"));
  lookup_ip = λ h. (7 ∷ 12 ∷ [], none);
  parse_cidr = λ entry. ok (10, 10);
  parse_ip = λ entry. some 5;
  equal = nat_eq;
  net_contains = leb;
  show_ip = λ ip. txt "7";
  unresolved = λ n host e. txt "unable to resolve";
}

abbrev allowed : List Text
allowed = txt "10.0.0.5" ∷ txt "10.0.0.10/24" ∷ []

reject_outbound_iff_example : (reject_outbound_ip_range numbers allowed (txt "bank") ≡ none) ↔ (
    (allowed ≡ [])
    ⊎ (any (λ addr. any (λ entry. fits numbers entry addr) allowed) (7 ∷ 12 ∷ []) ≡ true))
unfolding host_of text_contains
reject_outbound_iff_example =
    reject_outbound_iff numbers allowed (txt "bank") (txt "bank") 7 (12 ∷ []) refl refl
      ((λ h. ((10, 10), refl)), ((λ h. ((10, 10), refl)), tt))
