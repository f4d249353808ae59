-- ===== src/Url.antt =====
-- ui/src/utils/url.ts: joining URL parts, formatting a URL, and splitting one for display.
-- A regular expression that strips slashes at one end is a function by clauses.
pub mod Join
pub mod Format
use pb_launcher.Prelude.{
  ℕ, Text, codes, List, [], ◌∷◌, ◌++◌, reverse, Bool, true, false, ◌&&◌, ◌||◌, not, Option, none,
  some, ◌==◌, text_eq, starts_with, ends_with, join, filter, if◌then◌else◌,
}

abbrev pub slash : ℕ
slash = b'/'

-- `part.replace(/^\/+/, "")`
unfoldable pub strip_leading : Text → Text
strip_leading [] = []
strip_leading (c ∷ s) = if c == slash then strip_leading s else c ∷ s

-- `part.replace(/\/+$/, "")`
unfoldable pub strip_trailing : Text → Text
strip_trailing s = reverse (strip_leading (reverse s))

-- The `map` over the parts: the last part keeps its trailing slashes.
unfoldable pub clean_parts : List Text → List Text
clean_parts [] = []
clean_parts (p ∷ []) = strip_leading p ∷ []
clean_parts (p ∷ q ∷ ps) = strip_trailing (strip_leading p) ∷ clean_parts (q ∷ ps)

-- `Boolean` of a string.
abbrev pub is_truthy : Text → Bool
is_truthy [] = false
is_truthy (c ∷ s) = true

-- `parts[0]?.startsWith("/") ?? false`
abbrev pub has_leading_slash : List Text → Bool
has_leading_slash [] = false
has_leading_slash (p ∷ ps) = starts_with p (slash ∷ [])

unfoldable pub join_urls : List Text → Text
join_urls parts =
    let result = join (filter is_truthy (clean_parts parts)) slash in
    if has_leading_slash parts then slash ∷ result else result

-- `protocol.endsWith(":") ? protocol : protocol + ":"`
unfoldable pub normalize_protocol : Text → Text
normalize_protocol protocol =
    if ends_with protocol (codes ":") then protocol else protocol ++ codes ":"

-- `isDefaultPort` of `formatUrl` and of `extractParts`.
unfoldable pub is_default_port : Text → Text → Bool
is_default_port protocol port =
    (text_eq protocol (codes "http:") && (text_eq port (codes "80") || text_eq port (codes "7080")))
    || (text_eq protocol (codes "https:")
        && (text_eq port (codes "443") || text_eq port (codes "8443")))

-- `port && !isDefaultPort ? ":" + port : ""`
unfoldable pub port_segment : Text → Text → Text
port_segment protocol port =
    if is_truthy port && not (is_default_port protocol port) then codes ":" ++ port else []

-- A parameter `protocol?: string` that is not given is `none`.
abbrev pub or_empty : Option Text → Text
or_empty none = []
or_empty (some t) = t

unfoldable pub format_url : Option Text → Option Text → Option Text → Text
format_url protocol hostname port =
    if is_truthy (or_empty protocol) && is_truthy (or_empty hostname)
    then (let normalized = normalize_protocol (or_empty protocol) in
        normalized
        ++ (codes "//" ++ (or_empty hostname ++ port_segment normalized (or_empty port))))
    else []

-- The fields of the browser's `URL` that the code reads.
pub record UrlFields : Type 0 where
  pub protocol : Text
  pub hostname : Text
  pub port : Text

pub record UrlParts : Type 0 where
  pub protocol : Text
  pub hostname : Text
  pub port_part : Text

unfoldable pub extract_parts : UrlFields → UrlParts
extract_parts url = record {
  protocol = url.protocol;
  hostname = url.hostname;
  port_part = port_segment url.protocol url.port;
}
