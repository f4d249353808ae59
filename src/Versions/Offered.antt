-- ===== src/Versions/Offered.antt =====
-- The versions that the form of a service offers.
use pb_launcher.Prelude.{
  Text, List, [], ◌∷◌, Bool, true, false, ◌||◌, ◌⊎◌, some, text_eq, any, map, ◌≡◌, refl, sym,
  Bool-cases, inl, inr, text_eq→eq,
}
use pb_launcher.Collections.Writes.{ReleaseOption}
use pb_launcher.Versions.{SelectOption, Installed, form_option, form_options}

abbrev pub offers : List SelectOption → Text → Bool
offers options id = any (λ o. text_eq o.value id) options

abbrev pub lists : List ReleaseOption → Text → Bool
lists releases id = any (λ r. text_eq r.id id) releases

value_of_option : (s : Installed) (r : ReleaseOption) → (form_option s r).value ≡ r.id
value_of_option s r = elim (Bool-cases (text_eq r.id s.release_id)) [
  | inl e ↦ rw e refl
  | inr e ↦ rw e refl
]

offers-map :
    (s : Installed) (rs : List ReleaseOption) (id : Text)
    → offers (map (form_option s) rs) id ≡ lists rs id
offers-map s [] id = refl
offers-map s (r ∷ rs) id = rw (value_of_option s r, offers-map s rs id) refl

same_lists :
    (rs : List ReleaseOption) (a id : Text)
    → lists rs a ≡ true
    → text_eq a id ≡ true
    → lists rs id ≡ true
same_lists rs a id h e = rw (sym (text_eq→eq a id e)) h

-- Whatever releases are loaded, none while they load, the form offers exactly their ids and that of
-- the installed release.
pub form_options_offered :
    (s : Installed) (rs : List ReleaseOption) (id : Text)
    → offers (form_options (some s) rs) id ≡ text_eq s.release_id id || lists rs id
unfolding form_options
form_options_offered s rs id = elim (Bool-cases (lists rs s.release_id)) [
  | inl e ↦ rw (e, offers-map s rs id) (absorbed id (Bool-cases (text_eq s.release_id id)) e)
  | inr e ↦ rw (e, offers-map s rs id) refl
]
  where
    absorbed :
        (id : Text)
        → (text_eq s.release_id id ≡ true) ⊎ (text_eq s.release_id id ≡ false)
        → lists rs s.release_id ≡ true
        → lists rs id ≡ text_eq s.release_id id || lists rs id
    absorbed id (inl t) e = rw t (same_lists rs s.release_id id e t)
    absorbed id (inr f) e = rw f refl
