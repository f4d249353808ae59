-- ===== src/Examples/Access.antt =====
-- The addresses of a service at concrete domains.
use pb_launcher.Prelude.{codes, [], ◌∷◌, none, some, true, ◌≡◌, refl}
use pb_launcher.Url.{format_url, normalize_protocol, port_segment, is_default_port}
use pb_launcher.Collections.{ServiceDto, listed}
use pb_launcher.Access.{ProxyConfigs, get_service_urls, url_of, url_with, present}
use pb_launcher.Examples.Database.{web, web_domain}

abbrev own : ServiceDto
own = listed [] (web_domain ∷ []) web

abbrev proxy : ProxyConfigs
proxy = record {
  use_https = some true;
  http_port = some (codes "80");
  https_port = some (codes "9443");
  base_domain = some (codes "example.net");
  server_ip = none;
}

own_run : get_service_urls (some own) proxy ≡ codes "https://web.example.org:9443/_/" ∷ []
unfolding get_service_urls present url_of url_with format_url normalize_protocol port_segment
    is_default_port
own_run = refl

auto_run :
    get_service_urls (some (listed [] [] web)) proxy ≡ codes "https://web.example.net:9443/_/" ∷ []
unfolding get_service_urls present url_of url_with format_url normalize_protocol port_segment
    is_default_port
auto_run = refl
