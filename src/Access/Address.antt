-- ===== src/Access/Address.antt =====
-- The addresses, written out without the null that is filtered away.
use pb_launcher.Prelude.{
  Text, codes, text_eq, List, [], ◌∷◌, ◌++◌, Bool, true, false, Option, none, some, any, filter,
  map, ◌≡◌, refl, ap, arith, Bool-cases, inl, inr, if◌then◌else◌,
}
use pb_launcher.Url.{is_truthy, or_empty, port_segment}
use pb_launcher.Collections.{ServiceDto}
use pb_launcher.Collections.Records.{DomainDto}
use pb_launcher.Access.{
  ProxyConfigs, auto_domain, domains_or_auto, url_with, url_of, present, get_service_urls,
}

abbrev pub scheme : Bool → Text
scheme https = if https then codes "https:" else codes "http:"

abbrev pub port_of : ProxyConfigs → Bool → Text
port_of p https = or_empty (if https then p.https_port else p.http_port)

abbrev pub page_of : Text → Text
page_of [] = codes "/_/"
page_of (c ∷ s) = codes "/_/#/pbinstal/" ++ (c ∷ s)

-- The address of a domain: its scheme and port, and the page of the install link if there is one.
abbrev pub address_with : Bool → Text → ProxyConfigs → Text → Text
address_with https install p domain =
    (scheme https ++ (codes "//" ++ (domain ++ port_segment (scheme https) (port_of p https))))
    ++ page_of install

-- The domains of a service that have a name, in their order.
abbrev pub named : List DomainDto → List Text
named [] = []
named (d ∷ ds) = elim d.domain [ [] ↦ named ds | c ∷ t ↦ (c ∷ t) ∷ named ds ]

-- HTTPS is what the first domain of that name says, and the proxy's choice where there is none.
abbrev pub https_of : List DomainDto → Bool → Text → Bool
https_of [] choice name = choice
https_of (d ∷ ds) choice name =
    let rest = https_of ds choice name in
    if text_eq d.domain name then text_eq d.use_https (codes "yes") else rest

abbrev pub https_choice : Option Bool → Bool
https_choice none = false
https_choice (some b) = b

abbrev pub address : ServiceDto → ProxyConfigs → Text → Text
address s p domain =
    address_with (https_of s.domains (https_choice p.use_https) domain) s.pb_install p domain

-- The name of a service below a base domain, where there is one.
abbrev pub below : Text → Option Text → List Text
below name none = []
below name (some []) = []
below name (some (c ∷ base)) = (name ++ b'.' ∷ (c ∷ base)) ∷ []

-- The names at which a service is reached: its own, or else the one below the base domain.
abbrev pub names : ServiceDto → ProxyConfigs → List Text
names s p = elim (named s.domains) [ [] ↦ below s.name p.base_domain | n ∷ ns ↦ n ∷ ns ]

abbrev pub with_base : Option Text → ProxyConfigs → ProxyConfigs
with_base base p = record {
  use_https = p.use_https;
  http_port = p.http_port;
  https_port = p.https_port;
  base_domain = base;
  server_ip = p.server_ip;
}

any_custom :
    (ds : List DomainDto) (auto more : List Text)
    → any (λ d. is_truthy d.domain) ds ≡ true
    → domains_or_auto (filter is_truthy (map (λ d. d.domain) ds)) auto
      ≡ domains_or_auto (filter is_truthy (map (λ d. d.domain) ds)) more
any_custom [] auto more h = cc
any_custom (d ∷ ds) auto more h = elim (Bool-cases (is_truthy d.domain)) [
  | inl e ↦ rw e refl
  | inr e ↦ rw e (any_custom ds auto more (ground arith))
]

-- A service with a domain of its own has the same addresses with any base domain and with none.
pub get_service_urls_custom :
    (s : ServiceDto) (p : ProxyConfigs) (base : Option Text)
    → any (λ d. is_truthy d.domain) s.domains ≡ true
    → get_service_urls (some s) (with_base base p) ≡ get_service_urls (some s) p
unfolding get_service_urls url_of url_with
get_service_urls_custom s p base h =
    ap (λ ds. present (map (url_of s p) ds))
      (any_custom s.domains (auto_domain s base) (auto_domain s p.base_domain) h)
