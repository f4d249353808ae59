-- ===== src/Operations/Section.antt =====
-- The history of one service, ui/src/pages/internal/details_section/OperationHistorySection.tsx: its
-- filters, beside those of the page of all services. The pages are of the same size and turn alike.
use pb_launcher.Prelude.{
  Text, codes, List, [], ◌∷◌, Bool, true, false, ◌&&◌, ◌||◌, All, text_eq, includes, filter, ◌≡◌,
  refl, ap, if◌then◌else◌, arith,
}
use pb_launcher.Collections.{or_default}
use pb_launcher.Operations.{
  OperationLog, StatusFilter, matches_status, Page, filtered_operations, is_listed,
}

module _ (lower : Text → Text) where
  abbrev pub matches_text : Text → OperationLog → Bool
  matches_text search op =
      text_eq search []
      || (includes (lower op.operation) (lower search)
          || includes (lower (or_default op.message [])) (lower search))

  abbrev pub section_filtered : Text → StatusFilter → List OperationLog → List OperationLog
  section_filtered search status_filter ops =
      filter (λ op. matches_text search op && matches_status status_filter op.status) ops

  -- The list that the request for one service gives.
  abbrev pub of_service : Text → List OperationLog → List OperationLog
  of_service id ops = filter (λ op. text_eq op.service id) ops

  -- A log whose service's name has no part of the search.
  abbrev pub IsUnnamed : Text → OperationLog → Type 0
  IsUnnamed search op = includes (lower (or_default op.service_name [])) (lower search) ≡ false

  same_test :
      (p : Page) (op : OperationLog)
      → IsUnnamed p.search op
      → text_eq p.selected_service_id (codes "all") ≡ false
      → is_listed lower p op ≡ (
          text_eq op.service p.selected_service_id
          && (matches_text p.search op && matches_status p.status_filter op.status))
  same_test p op h k = ground (arith, h, k)

  filter_both :
      (p q r : OperationLog → Bool) (ops : List OperationLog)
      → All (λ op. p op ≡ (q op && r op)) ops
      → filter r (filter q ops) ≡ filter p ops
  filter_both p q r [] h = refl
  filter_both p q r (op ∷ ops) h = both (p op) (q op) op (filter_both p q r ops h.1) (r op) refl h.0
    where
      both :
          (a b : Bool) (op : OperationLog)
          → filter r (filter q ops) ≡ filter p ops
          → (c : Bool) → r op ≡ c
          → a ≡ (b && c)
          → filter r (if b then op ∷ filter q ops else filter q ops)
            ≡ (if a then op ∷ filter p ops else filter p ops)
      both a true op h true e k = rw (k, e) (ap (λ t. op ∷ t) h)
      both a true op h false e k = rw (k, e) h
      both a false op h c e k = rw k h

  same_tests :
      (p : Page) (ops : List OperationLog)
      → All (IsUnnamed p.search) ops
      → text_eq p.selected_service_id (codes "all") ≡ false
      → All
          (λ op. is_listed lower p op ≡ (
            text_eq op.service p.selected_service_id
            && (matches_text p.search op && matches_status p.status_filter op.status)))
          ops
  same_tests p [] h k = tt
  same_tests p (op ∷ ops) h k = (same_test p op h.0 k, same_tests p ops h.1 k)

  -- The history of one service lists what the page of all services does where this service is
  -- chosen, provided that no name of a service has the search in it, since the page searches the
  -- names too.
  pub section_lists :
      (p : Page) (ops : List OperationLog)
      → text_eq p.selected_service_id (codes "all") ≡ false
      → All (IsUnnamed p.search) ops
      → section_filtered p.search p.status_filter (of_service p.selected_service_id ops)
        ≡ filtered_operations lower p ops
  section_lists p ops k h =
      filter_both (is_listed lower p) (λ op. text_eq op.service p.selected_service_id)
        (λ op. matches_text p.search op && matches_status p.status_filter op.status) ops
        (same_tests p ops h k)
