-- ===== src/Examples/Urls.antt =====
-- The URL functions at concrete inputs.
use pb_launcher.Prelude.{Text, codes, [], ◌∷◌, ◌≡◌, refl, some}
use pb_launcher.Url.{
  UrlFields, join_urls, clean_parts, strip_leading, strip_trailing, format_url, normalize_protocol,
  port_segment, is_default_port,
}
use pb_launcher.Url.Join.{IsBare}

joined_run :
    join_urls (codes "http://h/" ∷ codes "/a/" ∷ [] ∷ codes "/b/" ∷ []) ≡ codes "http://h/a/b/"
unfolding join_urls clean_parts strip_leading strip_trailing
joined_run = refl

formatted_run :
    format_url (some (codes "https")) (some (codes "h.io")) (some (codes "8080"))
    ≡ codes "https://h.io:8080"
unfolding format_url normalize_protocol port_segment is_default_port
formatted_run = refl

abbrev origin : Text
origin = codes "http://h"

origin-IsBare : IsBare origin
origin-IsBare = record { some_text = λ e. cc; no_leading = refl; no_trailing = refl }

abbrev local : UrlFields
local = record { protocol = codes "http:"; hostname = codes "localhost"; port = codes "7080" }
