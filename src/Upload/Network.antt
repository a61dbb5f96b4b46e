-- ===== src/Upload/Network.antt =====
-- internal/upload/network_security.go: which servers an agent may connect to.
pub mod Laws
mod Tests
use achgateway.Base.{
  ℕ, Text, txt, text_contains, length, any, is_some, Error, Result, ok, err, new_error, Bool, false,
  ◌||◌, Option, none, some, List, [], ◌∷◌, ◌++◌, if◌then◌else◌,
}

-- What package net answers. `unresolved` is the message of the error for a host with its addresses
-- and the error of the lookup.
pub record Net : Type 1 where
  pub Ip : Type 0
  pub IpNet : Type 0
  pub split_host_port : Text → Result Text
  pub lookup_ip : Text → List Ip × Option Error
  pub parse_cidr : Text → Result (Ip × IpNet)
  pub parse_ip : Text → Option Ip
  pub equal : Ip → Ip → Bool
  pub net_contains : IpNet → Ip → Bool
  pub show_ip : Ip → Text
  pub unresolved : ℕ → Text → Option Error → Text

module _ (net : Net) where
  unfoldable pub host_of : Text → Result Text
  unfolding text_contains
  host_of hostname =
      if text_contains hostname (txt ":") then net.split_host_port hostname else ok hostname

  -- Whether one entry of the list lets some address pass.
  unfoldable pub entry_allows : List net.Ip → Text → Result Bool
  unfolding text_contains
  entry_allows addrs entry =
      if text_contains entry (txt "/")
      then (elim (net.parse_cidr entry) [
        | err e ↦ err e
        | ok (ip, ipnet) ↦ ok (any (λ a. net.equal ip a || net.net_contains ipnet a) addrs)
      ])
      else ok
          (any (λ a. elim (net.parse_ip entry) [ none ↦ false | some ip ↦ net.equal ip a ]) addrs)

  unfoldable pub check_entries : net.Ip → List net.Ip → List Text → Option Error
  unfolding entry_allows
  check_entries first addrs [] = some (new_error (net.show_ip first ++ txt " is not whitelisted"))
  check_entries first addrs (entry ∷ entries) =
      let rest = check_entries first addrs entries in
      elim (entry_allows addrs entry) [
        | err e ↦ some e
        | ok allowed ↦ if allowed then none else rest
      ]

  abbrev no_addresses : Text → List net.Ip → Option Error → Option Error
  no_addresses host addrs failed = some (new_error (net.unresolved (length addrs) host failed))

  abbrev check_addresses : List Text → Text → List net.Ip → Option Error → Option Error
  check_addresses allowed host [] failed = no_addresses host [] failed
  check_addresses allowed host (a ∷ addrs) (some e) = no_addresses host (a ∷ addrs) (some e)
  check_addresses [] host (a ∷ addrs) none = none
  check_addresses (entry ∷ entries) host (a ∷ addrs) none =
      check_entries a (a ∷ addrs) (entry ∷ entries)

  unfoldable pub reject_outbound_ip_range : List Text → Text → Option Error
  unfolding host_of check_entries
  reject_outbound_ip_range allowed hostname = elim (host_of hostname) [
    | err e ↦ some e
    | ok host ↦
        let (addrs, failed) = net.lookup_ip host in check_addresses allowed host addrs failed
  ]
