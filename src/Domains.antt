-- ===== src/Domains.antt =====
-- The domains of a service: ui/src/pages/internal/details_section/DomainsSection.tsx with the card of
-- a domain (ui/src/pages/internal/components/DomainCard.tsx) and the submission of its form
-- (ui/src/pages/internal/forms/DomainForm.tsx). `toLowerCase` is a parameter.
pub mod Shown
use pb_launcher.Prelude.{
  Text, codes, List, [], ◌∷◌, ◌++◌, Bool, true, false, not, ◌&&◌, Option, none, some, text_eq, find,
  filter, if◌then◌else◌,
}
use pb_launcher.Url.{is_truthy, join_urls, format_url}
use pb_launcher.Http.{Outcome}
use pb_launcher.Collections.{or_default}
use pb_launcher.Collections.Records.{DomainDto, DomainService, one_service, Sdk}
use pb_launcher.Collections.Writes.{create_domain, update_domain}
use pb_launcher.Access.{ProxyConfigs}

abbrev pub system_name : Text → Option Text → Text
system_name service_name none = codes "--"
system_name service_name (some []) = codes "--"
system_name service_name (some (c ∷ base)) = service_name ++ (codes "." ++ (c ∷ base))

abbrev pub yes_if : Bool → Text
yes_if b = if b then codes "yes" else codes "no"

-- The card of the system's own domain, with what the record of it has, if there is one.
abbrev pub domain_of : Text → Text → Option DomainDto → DomainDto
domain_of name use_https none = record {
  id = codes "__";
  use_https = use_https;
  domain = name;
  service = one_service [];
  cert_status = none;
  x_cert_request_state = none;
  x_has_valid_ssl_cert = none;
  x_reached_max_attempt = none;
  x_failed_error_message = none;
}
domain_of name use_https (some r) = record r { use_https = use_https; domain = name }

module _ (lower : Text → Text) where
  abbrev pub same_name : Text → DomainDto → Bool
  same_name name d = text_eq (lower d.domain) (lower name)

  unfoldable pub proxy_domain : Text → ProxyConfigs → List DomainDto → DomainDto
  proxy_domain service_name proxy ds =
      let name = system_name service_name proxy.base_domain in
      domain_of name (yes_if (or_default proxy.use_https false)) (find (same_name name) ds)

  unfoldable pub custom_domains : Text → ProxyConfigs → List DomainDto → List DomainDto
  custom_domains service_name proxy ds =
      filter (λ d. not (same_name (proxy_domain service_name proxy ds).domain d)) ds

pub record FmtDomain : Type 0 where
  pub name : Text
  pub protocol : Text
  pub status : Text
  pub has_valid_ssl_cert : Bool
  pub reached_max_attempt : Bool
  pub failed_error_message : Option Text

abbrev pub is_secure : DomainDto → Bool
is_secure d = text_eq d.use_https (codes "yes")

-- `a || b` of texts that may be missing, the empty text where both are.
abbrev pub either_text : Option Text → Option Text → Text
either_text (some (c ∷ t)) b = c ∷ t
either_text (some []) b = or_default b []
either_text none b = or_default b []

unfoldable pub fmt_domain : DomainDto → FmtDomain
fmt_domain d =
    let first = either_text d.x_cert_request_state d.cert_status in
    let second = if not (is_truthy first) && is_secure d then codes "pending" else first in
    let reached = or_default d.x_reached_max_attempt false in
    record {
      name = d.domain;
      protocol = if is_secure d then codes "https" else codes "http";
      status = if text_eq second (codes "failed") && not reached then codes "pending" else second;
      has_valid_ssl_cert = or_default d.x_has_valid_ssl_cert false;
      reached_max_attempt = reached;
      failed_error_message = d.x_failed_error_message;
    }

-- `url` is given for the system's domain only.
unfoldable pub str_url : Option Text → FmtDomain → Text → Text
str_url (some (c ∷ url)) f suffix = join_urls ((c ∷ url) ∷ suffix ∷ [])
str_url other f suffix = join_urls ((f.protocol ++ (codes "://" ++ f.name)) ∷ suffix ∷ [])

-- The status is written for HTTPS only.
unfoldable pub shown_status : FmtDomain → Option Text
shown_status f =
    if is_truthy f.status && text_eq f.protocol (codes "https") then some f.status else none

-- The button that asks for a certificate again.
unfoldable pub can_validate : Bool → FmtDomain → Bool
can_validate readonly f =
    not readonly
    && (f.reached_max_attempt
        && (not (text_eq f.status (codes "pending"))
            && (text_eq f.protocol (codes "https") && not f.has_valid_ssl_cert)))

-- The form of a domain creates one, or changes whether that of a record is served over HTTPS.
unfoldable pub submit_domain : Sdk → Text → Option DomainDto → Text → Bool → Outcome (Unit {0})
submit_domain sdk service_id none domain use_https = create_domain sdk use_https domain service_id
submit_domain sdk service_id (some r) domain use_https = update_domain sdk r.id use_https
