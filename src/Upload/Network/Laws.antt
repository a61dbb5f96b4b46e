-- ===== src/Upload/Network/Laws.antt =====
-- Which servers pass the list of allowed addresses.
use achgateway.Base.{
  Text, txt, text_contains, any, ok, err, Bool-cases, inl, inr, Bool, true, false, ◌||◌, none, some,
  List, [], ◌∷◌, All, ◌≡◌, ◌↔◌, ◌⊎◌, refl, sym, ap, ◌∙◌, arith, if◌then◌else◌,
}
use achgateway.Upload.Network.{Net, host_of, entry_allows, check_entries, reject_outbound_ip_range}

any-or :
    {A : Type 0} (p q : A → Bool) (xs : List A) → any (λ x. p x || q x) xs ≡ any p xs || any q xs
any-or p q [] = refl
any-or p q (x ∷ xs) = ground (arith, any-or p q xs)

any-false : {A : Type 0} (xs : List A) → any (λ x. false) xs ≡ false
any-false [] = refl
any-false (x ∷ xs) = any-false xs

any-swap :
    {A B : Type 0} (r : A → B → Bool) (xs : List A) (ys : List B)
    → any (λ x. any (r x) ys) xs ≡ any (λ y. any (λ x. r x y) xs) ys
any-swap r [] ys = sym (any-false ys)
any-swap r (x ∷ xs) ys =
    ap (λ b. any (r x) ys || b) (any-swap r xs ys)
    ∙ sym (any-or (r x) (λ y. any (λ x'. r x' y) xs) ys)

module _ (net : Net) where
  -- An address fits an entry: it is the entry's own, or lies in its range.
  unfoldable pub fits : Text → net.Ip → Bool
  unfolding text_contains
  fits entry addr =
      if text_contains entry (txt "/")
      then (elim (net.parse_cidr entry) [
        | err e ↦ false
        | ok (ip, ipnet) ↦ net.equal ip addr || net.net_contains ipnet addr
      ])
      else (elim (net.parse_ip entry) [ none ↦ false | some ip ↦ net.equal ip addr ])

  -- An entry with a slash is an address range that can be parsed.
  abbrev pub IsEntry : Text → Type 0
  IsEntry entry =
      text_contains entry (txt "/") ≡ true
      → (r : net.Ip × net.IpNet) × (net.parse_cidr entry ≡ ok r)

  entry_allows-fits :
      (addrs : List net.Ip) (entry : Text)
      → IsEntry entry
      → entry_allows net addrs entry ≡ ok (any (fits entry) addrs)
  unfolding entry_allows fits
  entry_allows-fits addrs entry good = elim (Bool-cases (text_contains entry (txt "/"))) [
    | inl range ↦ let (r, e) = good range in ground (arith, range, e)
    | inr single ↦ ground (arith, single)
  ]

  check_entries-fits :
      (first : net.Ip) (addrs : List net.Ip) (entries : List Text)
      → All IsEntry entries
      → (check_entries net first addrs entries ≡ none)
        ↔ (any (λ e. any (fits e) addrs) entries ≡ true)
  unfolding check_entries
  check_entries-fits first addrs [] good = (λ h. cc h, λ h. cc h)
  check_entries-fits first addrs (entry ∷ entries) good =
      ground
        (arith, entry_allows-fits addrs entry good.0, check_entries-fits first addrs entries good.1)

  -- For a host that resolves to some addresses with no error, and a list whose ranges can be
  -- parsed: the connection is let through exactly if the list is empty or some address of the host
  -- fits some entry.
  pub reject_outbound_iff :
      (allowed : List Text) (hostname host : Text) (a : net.Ip) (addrs : List net.Ip)
      → host_of net hostname ≡ ok host
      → net.lookup_ip host ≡ (a ∷ addrs, none)
      → All IsEntry allowed
      → (reject_outbound_ip_range net allowed hostname ≡ none) ↔ (
          (allowed ≡ [])
          ⊎ (any (λ addr. any (λ entry. fits entry addr) allowed) (a ∷ addrs) ≡ true))
  unfolding reject_outbound_ip_range
  reject_outbound_iff [] hostname host a addrs h found good = ground (arith, h, found)
  reject_outbound_iff (x ∷ allowed) hostname host a addrs h found good = ground (
    arith,
    h,
    found,
    check_entries-fits a (a ∷ addrs) (x ∷ allowed) good,
    any-swap fits (x ∷ allowed) (a ∷ addrs),
  )
