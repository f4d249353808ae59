-- ===== src/Bulk/Targets.antt =====
-- Which service and path a key is split into.
use pb_launcher.Prelude.{
  ℕ, Text, [], ◌∷◌, ◌++◌, false, ◌&&◌, ◌==◌, ◌≡◌, ◌≢◌, refl, ap, ◌∙◌, arith, All, or_false,
  push_head, includes,
}
use pb_launcher.Bulk.{colon, full_path_key, split_colons, target_of}

-- A text without a colon, as the ids of services are.
abbrev pub IsId : Text → Type 0
IsId = All (λ c. c ≢ colon)

-- A path without two colons in a row.
abbrev pub IsPath : Text → Type 0
IsPath path = includes path (colon ∷ colon ∷ []) ≡ false

split_here : (s : Text) → split_colons (colon ∷ colon ∷ s) ≡ [] ∷ split_colons s
unfolding split_colons
split_here s = refl

split_later :
    (c d : ℕ) (s : Text)
    → ((c == colon) && (d == colon)) ≡ false
    → split_colons (c ∷ d ∷ s) ≡ push_head c (split_colons (d ∷ s))
unfolding split_colons
split_later c d s e = rw e refl

other : (c d : ℕ) → c ≢ colon → ((c == colon) && (d == colon)) ≡ false
other c d h = ground arith

split_colons-id :
    (id rest : Text) → IsId id → split_colons (id ++ colon ∷ colon ∷ rest) ≡ id ∷ split_colons rest
split_colons-id [] rest h = split_here rest
split_colons-id (c ∷ []) rest (hc, h) =
    split_later c colon (colon ∷ rest) (other c colon hc) ∙ ap (push_head c) (split_here rest)
split_colons-id (c ∷ d ∷ id) rest (hc, h) =
    split_later c d (id ++ colon ∷ colon ∷ rest) (other c d hc)
    ∙ ap (push_head c) (split_colons-id (d ∷ id) rest h)

not_here : (c d : ℕ) (s : Text) → IsPath (c ∷ d ∷ s) → ((c == colon) && (d == colon)) ≡ false
not_here c d s h = ground arith

IsPath-behind : (c : ℕ) (s : Text) → IsPath (c ∷ s) → IsPath s
IsPath-behind c s h = (or_false _ _ h).1

split_colons-path : (path : Text) → IsPath path → split_colons path ≡ path ∷ []
split_colons-path [] h = unfold split_colons in refl
split_colons-path (c ∷ []) h = unfold split_colons in refl
split_colons-path (c ∷ d ∷ path) h =
    split_later c d path (not_here c d path h)
    ∙ ap (push_head c) (split_colons-path (d ∷ path) (IsPath-behind c (d ∷ path) h))

-- A key gives back the service and the path it was made of.
pub target_of-full_path_key :
    (id path : Text) → IsId id → IsPath path → target_of (full_path_key id path) ≡ (id, path)
unfolding target_of
target_of-full_path_key id path h k = rw (split_colons-id id path h, split_colons-path path k) refl

-- A path of which a part ends where two colons follow.
split_colons-front :
    (a b : Text)
    → IsPath (a ++ colon ∷ [])
    → split_colons (a ++ colon ∷ colon ∷ b) ≡ a ∷ split_colons b
split_colons-front [] b h = split_here b
split_colons-front (c ∷ []) b h =
    split_later c colon (colon ∷ b) (not_here c colon [] h) ∙ ap (push_head c) (split_here b)
split_colons-front (c ∷ d ∷ a) b h =
    split_later c d (a ++ colon ∷ colon ∷ b) (not_here c d (a ++ colon ∷ []) h)
    ∙ ap (push_head c) (split_colons-front (d ∷ a) b (IsPath-behind c (d ∷ (a ++ colon ∷ [])) h))

pub target_of_front :
    (id a b : Text)
    → IsId id
    → IsPath (a ++ colon ∷ [])
    → target_of (full_path_key id (a ++ colon ∷ colon ∷ b)) ≡ (id, a)
unfolding target_of
target_of_front id a b h k =
    rw (split_colons-id id (a ++ colon ∷ colon ∷ b) h, split_colons-front a b k) refl
