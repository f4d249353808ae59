-- ===== src/Examples/Pages.antt =====
-- The routes and the status page at concrete inputs.
use pb_launcher.Prelude.{ℕ, codes, Text, true, false, none, some, ◌≡◌, refl}
use pb_launcher.Collections.Records.{DomainDto, one_service}
use pb_launcher.Access.{ProxyConfigs}
use pb_launcher.Routes.{elsewhere, render}
use pb_launcher.Routes.Settled.{allowed, render_settles}
use pb_launcher.Status.{uptime_parts, format_uptime, days, hours, minutes}

render_settles_example : render true false 1 elsewhere ≡ some (allowed true false elsewhere)
render_settles_example = render_settles true false 0 elsewhere

abbrev show : ℕ → Text
show n = codes "1"

format_uptime_run : format_uptime show 90061 ≡ codes "1d 1h 1m"
unfolding format_uptime uptime_parts days hours minutes
format_uptime_run = refl

abbrev web_domain : DomainDto
web_domain = record {
  id = codes "d1";
  use_https = codes "yes";
  domain = codes "web.org";
  service = one_service (codes "s");
  cert_status = some (codes "failed");
  x_cert_request_state = none;
  x_has_valid_ssl_cert = none;
  x_reached_max_attempt = some true;
  x_failed_error_message = none;
}

abbrev lower : Text → Text
lower t = t

abbrev proxy : ProxyConfigs
proxy = record {
  use_https = some true;
  http_port = none;
  https_port = none;
  base_domain = some (codes "org");
  server_ip = none;
}
