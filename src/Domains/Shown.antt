-- ===== src/Domains/Shown.antt =====
-- Which domains the section shows, and which certificates can be asked for again.
use pb_launcher.Prelude.{
  Text, codes, List, [], ◌∷◌, ◌++◌, Bool, true, false, not, ◌&&◌, ◌||◌, ◌⊎◌, inl, inr, Option, some,
  none, any, find, filter, All, text_eq, text_eq_refl, text_eq→eq, ◌≡◌, refl, ap, ◌∙◌, sym, arith,
  Bool-cases, if◌then◌else◌,
}
use pb_launcher.Url.{is_truthy}
use pb_launcher.Collections.{or_default}
use pb_launcher.Collections.Records.{DomainDto}
use pb_launcher.Access.{ProxyConfigs}
use pb_launcher.Domains.{
  same_name, system_name, proxy_domain, custom_domains, domain_of, fmt_domain, shown_status,
  can_validate, is_secure, either_text, yes_if,
}

-- Whether a record is among some.
abbrev pub has_record : Text → List DomainDto → Bool
has_record id ds = any (λ (d : DomainDto). text_eq d.id id) ds

or_true : (b : Bool) → b || true ≡ true
or_true true = refl
or_true false = refl

find_behind :
    (p : DomainDto → Bool) (pre post : List DomainDto) (d : DomainDto)
    → All (λ e. p e ≡ false) pre
    → p d ≡ true
    → find p (pre ++ d ∷ post) ≡ some d
find_behind p [] post d h k = rw k refl
find_behind p (e ∷ pre) post d h k = rw (h.0) (find_behind p pre post d h.1 k)

kept_record :
    (p : DomainDto → Bool) (pre post : List DomainDto) (d : DomainDto)
    → p d ≡ true
    → has_record d.id (filter p (pre ++ d ∷ post)) ≡ true
kept_record p [] post d k = rw (k, text_eq_refl d.id) refl
kept_record p (e ∷ pre) post d k = elim (Bool-cases (p e)) [
  | inl h ↦ rw (h, kept_record p pre post d k) (or_true (text_eq e.id d.id))
  | inr h ↦ rw h (kept_record p pre post d k)
]

module _ (lower : Text → Text) where
  others :
      (name other : Text) (pre : List DomainDto)
      → lower other ≡ lower name
      → All (λ e. same_name lower other e ≡ false) pre
      → All (λ e. same_name lower name e ≡ false) pre
  others name other [] h k = tt
  others name other (e ∷ pre) h k =
      (ap (text_eq (lower e.domain)) (sym h) ∙ k.0, others name other pre h k.1)

  named :
      (name : Text) (use_https : Text) (o : Option DomainDto)
      → (domain_of name use_https o).domain ≡ name
  named name use_https none = refl
  named name use_https (some r) = refl

  is_custom :
      (name : Text) (proxy : ProxyConfigs) (pre post : List DomainDto) (d : DomainDto)
      → same_name lower (system_name name proxy.base_domain) d ≡ false
      → has_record d.id (custom_domains lower name proxy (pre ++ d ∷ post)) ≡ true
  unfolding custom_domains proxy_domain
  is_custom name proxy pre post d e = kept_record _ pre post d (
      ap (λ n. not (same_name lower n d)) (named _ _ (find (same_name lower _) (pre ++ d ∷ post)))
      ∙ ap not e)

  is_system :
      (name : Text) (proxy : ProxyConfigs) (pre post : List DomainDto) (d : DomainDto)
      → All (λ e. same_name lower d.domain e ≡ false) pre
      → same_name lower (system_name name proxy.base_domain) d ≡ true
      → (proxy_domain lower name proxy (pre ++ d ∷ post)).id ≡ d.id
  unfolding proxy_domain
  is_system name proxy pre post d h e =
      let same = text_eq→eq (lower d.domain) (lower (system_name name proxy.base_domain)) e in
      ap
        (λ o.
          (domain_of (system_name name proxy.base_domain)
            (yes_if (or_default proxy.use_https false)) o).id)
        (find_behind (same_name lower (system_name name proxy.base_domain)) pre post d
          (others (system_name name proxy.base_domain) d.domain pre same h) e)

  -- The record of a domain that is fetched, unless one in front of it has the same name but for
  -- case, is shown: as a custom domain, or as the system's domain, whose card has its id.
  pub domain_shown :
      (name : Text) (proxy : ProxyConfigs) (pre post : List DomainDto) (d : DomainDto)
      → All (λ e. same_name lower d.domain e ≡ false) pre
      → (has_record d.id (custom_domains lower name proxy (pre ++ d ∷ post)) ≡ true)
        ⊎ ((proxy_domain lower name proxy (pre ++ d ∷ post)).id ≡ d.id)
  domain_shown name proxy pre post d h =
      let system = system_name name proxy.base_domain in
      elim (Bool-cases (same_name lower system d)) [
        | inl e ↦ inr (is_system name proxy pre post d h e)
        | inr e ↦ inl (is_custom name proxy pre post d e)
      ]

some-inj : (s t : Text) → Option.some s ≡ some t → s ≡ t
some-inj s t h = cc

-- The last status that a card computes, of the one before and the attempts.
abbrev last_status : Text → Bool → Text
last_status s reached = if text_eq s (codes "failed") && not reached then codes "pending" else s

was_shown :
    (t : Text) (b : Bool) (u : Text)
    → (if is_truthy t && b then some t else none) ≡ some u
    → (t ≡ u) × (b ≡ true)
was_shown t b u h = ground (arith, some-inj t u)

exhausted : (s : Text) (reached : Bool) → last_status s reached ≡ codes "failed" → reached ≡ true
exhausted s true h = refl
exhausted s false h = elim (Bool-cases (text_eq s (codes "failed"))) [
  | inl e ↦ cc (rw e at h)
  | inr e ↦ cc (e, ap (λ t. text_eq t (codes "failed")) (rw e at h))
]

is_reached : (o : Option Bool) → or_default o false ≡ true → o ≡ some true
is_reached none h = cc
is_reached (some b) h = ap some h

-- The status of the record, pending where it has none and is served over HTTPS.
abbrev first_status : DomainDto → Text
first_status d =
    let first = either_text d.x_cert_request_state d.cert_status in
    if not (is_truthy first) && is_secure d then codes "pending" else first

all_of :
    {reached https valid : Bool} {status : Text}
    → reached ≡ true
    → status ≡ codes "failed"
    → https ≡ true
    → valid ≡ false
    → reached && (not (text_eq status (codes "pending")) && (https && not valid)) ≡ true
all_of r s h v = rw (r, s, h, v) refl

-- A domain without a valid certificate, of which the card says that it failed, has no attempt left,
-- and its certificate can be asked for again.
pub failed-retry :
    (d : DomainDto)
    → shown_status (fmt_domain d) ≡ some (codes "failed")
    → or_default d.x_has_valid_ssl_cert false ≡ false
    → (d.x_reached_max_attempt ≡ some true) × (can_validate false (fmt_domain d) ≡ true)
unfolding shown_status fmt_domain can_validate
failed-retry d h v =
    let (failed, https) =
      was_shown (fmt_domain d).status (text_eq (fmt_domain d).protocol (codes "https"))
        (codes "failed") h in
    let reached = exhausted (first_status d) (or_default d.x_reached_max_attempt false) failed in
    (is_reached d.x_reached_max_attempt reached, all_of reached failed https v)
