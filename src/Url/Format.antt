-- ===== src/Url/Format.antt =====
-- `formatUrl`: its agreement with `extractParts`, the protocol with or without its colon, and the
-- ports that are left out.
use mathlib.Core.List.{reverse-append, append_cancel_left}
use pb_launcher.Prelude.{
  Text, codes, [], ◌∷◌, ◌++◌, true, false, ◌≡◌, ◌≢◌, ◌↔◌, ◌⊎◌, inl, inr, refl, Option, none, some,
  ends_with, text_eq, text_eq_iff, text_eq→eq, or_true, and_true, arith, ◌||◌,
}
use pb_launcher.Url.{
  UrlFields, normalize_protocol, is_default_port, port_segment, format_url, extract_parts,
  is_truthy,
}

truthy_of_ends : (s : Text) → ends_with s (codes ":") ≡ true → is_truthy s ≡ true
truthy_of_ends [] h = cc
truthy_of_ends (c ∷ s) h = refl

truthy_of_ne : (s : Text) → s ≢ [] → is_truthy s ≡ true
truthy_of_ne [] h = absurd (h refl)
truthy_of_ne (c ∷ s) h = refl

-- A URL that the browser parsed is formatted from the very parts that are shown for it.
pub format_url-extract_parts :
    (url : UrlFields)
    → ends_with url.protocol (codes ":") ≡ true
    → url.hostname ≢ []
    → format_url (some url.protocol) (some url.hostname) (some url.port)
      ≡ (extract_parts url).protocol
        ++ (codes "//" ++ ((extract_parts url).hostname ++ (extract_parts url).port_part))
unfolding format_url extract_parts normalize_protocol
format_url-extract_parts url h hn =
    rw (truthy_of_ends url.protocol h, truthy_of_ne url.hostname hn, h)

ends_with_colon : (p : Text) → ends_with (p ++ codes ":") (codes ":") ≡ true
ends_with_colon p = rw (reverse-append p (codes ":"))

-- A protocol without its colon is formatted as with it.
pub format_url_colon :
    (protocol : Text) (hostname port : Option Text)
    → protocol ≢ []
    → ends_with protocol (codes ":") ≡ false
    → format_url (some protocol) hostname port
      ≡ format_url (some (protocol ++ codes ":")) hostname port
unfolding format_url normalize_protocol
format_url_colon [] hostname port hp h = absurd (hp refl)
format_url_colon (c ∷ p) hostname port hp h = rw (h, ends_with_colon (c ∷ p))

-- The protocols and ports for which a URL shows no port.
abbrev pub Hidden : Text → Text → Type 0
Hidden protocol port =
    (port ≡ [])
    ⊎ ((protocol ≡ codes "http:") × ((port ≡ codes "80") ⊎ (port ≡ codes "7080")))
    ⊎ ((protocol ≡ codes "https:") × ((port ≡ codes "443") ⊎ (port ≡ codes "8443")))

default-Hidden :
    (protocol port : Text) → is_default_port protocol port ≡ true → Hidden protocol port
unfolding is_default_port
default-Hidden protocol port h = elim (or_true _ _ h) [
  | inl http ↦
      let (p, q) = and_true _ _ http in inr (inl ((text_eq_iff _ _).0 p, either port _ _ q))
  | inr https ↦
      let (p, q) = and_true _ _ https in inr (inr ((text_eq_iff _ _).0 p, either port _ _ q))
]
  where
    either : (t a b : Text) → (text_eq t a || text_eq t b) ≡ true → (t ≡ a) ⊎ (t ≡ b)
    either t a b h = elim (or_true _ _ h) [
      | inl e ↦ inl (text_eq→eq _ _ e)
      | inr e ↦ inr (text_eq→eq _ _ e)
    ]

segment-Hidden : (protocol port : Text) → port_segment protocol port ≡ [] → Hidden protocol port
unfolding port_segment
segment-Hidden protocol [] h = inl refl
segment-Hidden protocol (c ∷ s) h = default-Hidden protocol (c ∷ s) (ground arith)

Hidden-segment : (protocol port : Text) → Hidden protocol port → port_segment protocol port ≡ []
unfolding port_segment is_default_port
Hidden-segment protocol port (inl e) = rw e
Hidden-segment protocol port (inr (inl (e, inl f))) = rw (e, f)
Hidden-segment protocol port (inr (inl (e, inr f))) = rw (e, f)
Hidden-segment protocol port (inr (inr (e, inl f))) = rw (e, f)
Hidden-segment protocol port (inr (inr (e, inr f))) = rw (e, f)

same_segment :
    (p hostname port : Text)
    → p ++ (codes "//" ++ (hostname ++ port_segment p port))
      ≡ p ++ (codes "//" ++ (hostname ++ port_segment p []))
    → port_segment p port ≡ []
unfolding port_segment
same_segment p hostname port e =
    append_cancel_left hostname _ _
      (append_cancel_left (codes "//") _ _ (append_cancel_left p _ _ e))

-- A URL shows no port exactly if none was given, or 80 or 7080 was with HTTP, or 443 or 8443 with
-- HTTPS.
pub format_url-Hidden :
    (protocol hostname port : Text)
    → protocol ≢ []
    → hostname ≢ []
    → (format_url (some protocol) (some hostname) (some port)
        ≡ format_url (some protocol) (some hostname) none)
      ↔ Hidden (normalize_protocol protocol) port
unfolding format_url normalize_protocol port_segment
format_url-Hidden protocol hostname port hp hh =
    rw (truthy_of_ne protocol hp, truthy_of_ne hostname hh)
      (
        λ e. segment-Hidden _ port (same_segment _ hostname port e),
        λ h. rw (Hidden-segment _ port h),
      )
