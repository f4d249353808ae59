-- ===== src/Access.antt =====
-- ui/src/hooks/useServiceUrls.ts: the addresses at which a service is administered.
pub mod Address
use pb_launcher.Prelude.{
  Text, codes, List, [], ◌∷◌, ◌++◌, Bool, true, false, ◌&&◌, not, Option, none, some, text_eq, find,
  filter, map, if◌then◌else◌,
}
use pb_launcher.Url.{is_truthy, format_url}
use pb_launcher.Collections.{ServiceDto, or_default}
use pb_launcher.Collections.Records.{DomainDto}

-- `ProxyConfigsResponse` of ui/src/services/config.ts, whose fields may be missing.
pub record ProxyConfigs : Type 0 where
  pub use_https : Option Bool
  pub http_port : Option Text
  pub https_port : Option Text
  pub base_domain : Option Text
  pub server_ip : Option Text

-- The domains that are not empty, or the service's own name below the base domain.
abbrev pub custom_domains : ServiceDto → List Text
custom_domains service = filter is_truthy (map (λ (d : DomainDto). d.domain) service.domains)

abbrev pub auto_domain : ServiceDto → Option Text → List Text
auto_domain service none = []
auto_domain service (some []) = []
auto_domain service (some (c ∷ base)) = (service.name ++ (codes "." ++ (c ∷ base))) ∷ []

abbrev pub domains_or_auto : List Text → List Text → List Text
domains_or_auto [] auto = auto
domains_or_auto (d ∷ ds) auto = d ∷ ds

abbrev pub all_domains : ServiceDto → ProxyConfigs → List Text
all_domains service proxy_info =
    domains_or_auto (custom_domains service) (auto_domain service proxy_info.base_domain)

abbrev pub uses_https : ServiceDto → ProxyConfigs → Text → Bool
uses_https service proxy_info domain =
    elim (find (λ (d : DomainDto). text_eq d.domain domain) service.domains) [
      | some custom_dom ↦ text_eq custom_dom.use_https (codes "yes")
      | none ↦ or_default proxy_info.use_https false
    ]

-- The address of a domain for a choice of HTTPS and a `_pb_install`: `none` stands for null.
unfoldable pub url_with : Bool → Text → ProxyConfigs → Text → Option Text
url_with use_https install proxy_info domain =
    let url_str =
      format_url (some (if use_https then codes "https" else codes "http")) (some domain)
        (if use_https then proxy_info.https_port else proxy_info.http_port) in
    if not (is_truthy url_str)
    then none
    else if is_truthy install
    then some (url_str ++ (codes "/_/#/pbinstal/" ++ install))
    else some (url_str ++ codes "/_/")

-- The function that is mapped over the domains.
unfoldable pub url_of : ServiceDto → ProxyConfigs → Text → Option Text
url_of service proxy_info domain =
    url_with (uses_https service proxy_info domain) service.pb_install proxy_info domain

-- `filter(url => url !== null && url !== "/_/")`
unfoldable pub present : List (Option Text) → List Text
present [] = []
present (none ∷ us) = present us
present (some u ∷ us) = if text_eq u (codes "/_/") then present us else u ∷ present us

unfoldable pub get_service_urls : Option ServiceDto → ProxyConfigs → List Text
get_service_urls none proxy_info = []
get_service_urls (some service) proxy_info =
    present (map (url_of service proxy_info) (all_domains service proxy_info))
