-- ===== src/Dialogs/Submitted.antt =====
-- What the page is told of a submission, and what the server was asked for.
use mathlib.Core.List.{reverse-append, reverse-reverse, append_assoc}
use pb_launcher.Prelude.{
  Text, codes, any, split, [], ◌∷◌, ◌++◌, reverse, ◌≡◌, ◌≢◌, refl, ap, ◌∙◌, sym, trim, text_eq,
  text_eq_refl, true, false, Bool, arith, if◌then◌else◌, ℕ, ◌-◌, zero, suc, starts_with, length,
  ltb,
}
use pb_launcher.Http.{Fetch, Client, Outcome, done, thrown, Thrown}
use pb_launcher.Http.Values.{Json}
use pb_launcher.Services.Files.{save_file, create_folder, rename_file}
use pb_launcher.Tree.{slash}
use pb_launcher.Url.Join.{slashes, IsBare, reverse-slashes}
use pb_launcher.Dialogs.Below.{IsBelow, final_path-IsBelow}
use pb_launcher.Dialogs.{
  Told, told, asked_again, settle, final_path, strip_slash, clean_sub, dest_path, submit_new_file,
  submit_new_folder, submit_rename,
}

told-inj : (a b : Text) → told a ≡ told b → a ≡ b
told-inj a b e = cc

module _ (native : Thrown → Json) where
  settle_told :
      (o : Outcome (Unit {0})) (path p : Text)
      → settle native o path ≡ told p
      → (p ≡ path) × (o ≡ done tt)
  unfolding settle
  settle_told (done tt) path p h = (cc, refl)
  settle_told (thrown e) path p h = cc

  -- A form whose test asks again where it is true.
  guarded_told :
      (b : Bool) (m : Text) (o : Outcome (Unit {0})) (path p : Text)
      → (if b then asked_again m else settle native o path) ≡ told p
      → (b ≡ false) × (p ≡ path) × (o ≡ done tt)
  guarded_told true m o path p h = cc
  guarded_told false m o path p h = let (same, did) = settle_told o path p h in (refl, same, did)

  guarded_twice_told :
      (b c : Bool) (m n : Text) (o : Outcome (Unit {0})) (path p : Text)
      → (if b then asked_again m else (if c then asked_again n else settle native o path)) ≡ told p
      → (b ≡ false) × (c ≡ false) × (p ≡ path) × (o ≡ done tt)
  guarded_twice_told true c m n o path p h = cc
  guarded_twice_told false c m n o path p h =
      let (d, same, did) = guarded_told c n o path p h in (refl, d, same, did)

differs : (s t : Text) → text_eq s t ≡ false → s ≢ t
differs s t h e = cc (h, e, text_eq_refl t)

-- The two forms for something new.
pub data Form : Type 0 where
  file_form folder_form : Form

module _ (encode : Text → Text) (pb : Client) (fetch : Fetch) (native : Thrown → Json) where
  -- The two forms that make something new, and what each asks the server for.
  abbrev pub submit_new : Form → Text → Text → Text → Told
  submit_new file_form = submit_new_file encode pb fetch native
  submit_new folder_form = submit_new_folder encode pb fetch native

  abbrev pub make_new : Form → Text → Text → Outcome (Unit {0})
  make_new file_form id path = save_file encode pb fetch id path []
  make_new folder_form id path = create_folder encode pb fetch id path

  submit_new_told :
      (form : Form) (id folder typed p : Text)
      → submit_new form id folder typed ≡ told p
      → (p ≡ final_path folder (trim typed))
        × (make_new form id (final_path folder (trim typed)) ≡ done tt)
  unfolding submit_new_file submit_new_folder
  submit_new_told file_form id folder typed p h =
      let (full, same, saved) = guarded_told native _ _ _ _ p h in (same, saved)
  submit_new_told folder_form id folder typed p h =
      let (full, same, saved) = guarded_told native _ _ _ _ p h in (same, saved)

  -- A path that the page is told to be created, as a file or as a folder, lies below the folder that
  -- was chosen, once empty, `.` and `..` segments are resolved, if the typed path has no segment
  -- `..`; and it is the one that the server has accepted.
  pub submit_new-IsBelow :
      (form : Form) (id folder typed p : Text)
      → any (text_eq (codes "..")) (split (trim typed) slash) ≡ false
      → submit_new form id folder typed ≡ told p
      → IsBelow folder p × (make_new form id p ≡ done tt)
  submit_new-IsBelow form id folder typed p n h =
      let (same, made) = submit_new_told form id folder typed p h in
      rw same (final_path-IsBelow folder (trim typed) n, made)

  -- A rename of which the page is told was done, from the current path to another one, the text
  -- that was submitted without the blanks around it; the page is told the text that the field has
  -- when the call succeeds, with its blanks.
  pub submit_rename_told :
      (id current typed now p : Text)
      → submit_rename encode pb fetch native id current typed now ≡ told p
      → (rename_file encode pb fetch id current (trim typed) ≡ done tt)
        × (trim typed ≢ current)
        × (p ≡ now)
  unfolding submit_rename
  submit_rename_told id current typed now p h =
      let (full, other, same, renamed) = guarded_twice_told native _ _ _ _ _ _ p h in
      (renamed, (λ e. differs (trim typed) current other e), same)

suc_less : (k : ℕ) → k ≡ suc k - 1
suc_less k = omega arith

strip_slash-slashes :
    (k : ℕ) (r : Text)
    → starts_with r (slash ∷ []) ≡ false
    → strip_slash (slashes k ++ r) ≡ slashes (k - 1) ++ r
unfolding strip_slash
strip_slash-slashes zero [] h = refl
strip_slash-slashes zero (c ∷ r) h = rw h refl
strip_slash-slashes (suc k) r h = ap (λ i. slashes i ++ r) (suc_less k)

starts_append :
    (s t : Text) → s ≢ [] → starts_with (s ++ t) (slash ∷ []) ≡ starts_with s (slash ∷ [])
starts_append [] t h = absurd (h refl)
starts_append (c ∷ s) t h = refl

reversed :
    (k : ℕ) (s t : Text) → reverse (slashes k ++ (s ++ t)) ≡ reverse t ++ (reverse s ++ slashes k)
reversed k s t =
    rw (reverse-append, reverse-append, reverse-slashes k)
      (append_assoc (reverse t) (reverse s) (slashes k))

reverse-ne-nil : (s : Text) → s ≢ [] → reverse s ≢ []
reverse-ne-nil s h e = h (sym (reverse-reverse s) ∙ ap reverse e)

strip_slash_end :
    (a n : ℕ) (s : Text)
    → IsBare s
    → reverse (strip_slash (reverse (slashes a ++ (s ++ slashes n))))
      ≡ slashes a ++ (s ++ slashes (n - 1))
strip_slash_end a n s b =
    ap (λ t. reverse (strip_slash t))
      (reversed a s (slashes n) ∙ ap (λ t. t ++ (reverse s ++ slashes a)) (reverse-slashes n))
    ∙ ap reverse (
        strip_slash-slashes n (reverse s ++ slashes a)
          (starts_append (reverse s) (slashes a) (reverse-ne-nil s b.some_text) ∙ b.no_trailing))
    ∙ reversed (n - 1) (reverse s) (slashes a)
    ∙ ap (λ t. t ++ (reverse (reverse s) ++ slashes (n - 1))) (reverse-slashes a)
    ∙ ap (λ t. slashes a ++ (t ++ slashes (n - 1))) (reverse-reverse s)

clean_sub-slashes :
    (typed s : Text) (m n : ℕ)
    → IsBare s
    → trim typed ≡ slashes m ++ (s ++ slashes n)
    → clean_sub typed ≡ slashes (m - 1) ++ (s ++ slashes (n - 1))
unfolding clean_sub
clean_sub-slashes typed s m n b e =
    ap (λ t. reverse (strip_slash (reverse (strip_slash t)))) e
    ∙ ap (λ t. reverse (strip_slash (reverse t)))
        (strip_slash-slashes m (s ++ slashes n)
          (starts_append s (slashes n) b.some_text ∙ b.no_leading))
    ∙ strip_slash_end (m - 1) n s b

filled : (m n : ℕ) (s : Text) → s ≢ [] → ltb 0 (length (slashes m ++ (s ++ slashes n))) ≡ true
filled zero n [] h = absurd (h refl)
filled zero n (c ∷ s) h = ground arith
filled (suc m) n s h = ground arith

-- Of the slashes around a subfolder that has none at its ends, an upload takes one away at each
-- side.
pub dest_path-slashes :
    (folder typed s : Text) (m n : ℕ)
    → IsBare s
    → trim typed ≡ slashes m ++ (s ++ slashes n)
    → dest_path folder typed ≡ folder ++ slash ∷ (slashes (m - 1) ++ (s ++ slashes (n - 1)))
unfolding dest_path
dest_path-slashes folder typed s m n b e =
    rw (clean_sub-slashes typed s m n b e, filled (m - 1) (n - 1) s b.some_text) refl
