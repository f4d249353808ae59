-- ===== src/Services/Laws/Filename.antt =====
-- The name of a download, read from the `Content-Disposition` header.
use pb_launcher.Prelude.{
  ℕ, Text, codes, [], ◌∷◌, ◌++◌, true, false, ◌||◌, some, ◌≡◌, ◌≢◌, refl, ◌∙◌, arith, All, ◌==◌,
}
use pb_launcher.Services.Hooks.{
  quote, semicolon, name_chars, match_at, match_filename, parse_filename_or,
}

-- A name that the expression takes whole.
abbrev pub IsPlainName : Text → Type 0
IsPlainName = All (λ c. (c ≢ quote) × (c ≢ semicolon))

name_chars-plain :
    (name rest : Text) (d : ℕ)
    → IsPlainName name
    → ((d == quote) || (d == semicolon)) ≡ true
    → name_chars (name ++ d ∷ rest) ≡ name
unfolding name_chars
name_chars-plain [] rest d h e = rw e
name_chars-plain (c ∷ name) rest d h e = ground (arith, name_chars-plain name rest d h.1 e)

name_chars_all : (name : Text) → IsPlainName name → name_chars name ≡ name
unfolding name_chars
name_chars_all [] h = refl
name_chars_all (c ∷ name) h = ground (arith, name_chars_all name h.1)

-- The three ways a server writes the name.
abbrev pub quoted : Text → Text → Text
quoted name rest = codes "filename=\"" ++ (name ++ quote ∷ rest)

abbrev pub unquoted : Text → Text → Text
unquoted name rest = codes "filename=" ++ (name ++ semicolon ∷ rest)

match_quoted :
    (c : ℕ) (name rest : Text)
    → IsPlainName (c ∷ name)
    → match_at (quoted (c ∷ name) rest) ≡ some (c ∷ name)
unfolding match_at
match_quoted c name rest h = rw (name_chars-plain (c ∷ name) rest quote h refl)

match_unquoted :
    (c : ℕ) (name rest : Text)
    → IsPlainName (c ∷ name)
    → match_at (unquoted (c ∷ name) rest) ≡ some (c ∷ name)
unfolding match_at
match_unquoted c name rest h =
    rw (no_quote c h.0.0, name_chars-plain (c ∷ name) rest semicolon h refl)
  where
    no_quote : (c : ℕ) → c ≢ quote → (c == quote) ≡ false
    no_quote c h = ground arith

match_skip : (c : ℕ) (s : Text) → c ≢ b'f' → match_filename (c ∷ s) ≡ match_filename s
unfolding match_filename match_at
match_skip c s h = ground arith

match_head : (c : ℕ) (s t : Text) → match_at (c ∷ s) ≡ some t → match_filename (c ∷ s) ≡ some t
unfolding match_filename
match_head c s t h = rw (h, match_filename)

parse_match :
    (fallback d t : Text) → match_filename d ≡ some t → parse_filename_or fallback (some d) ≡ t
unfolding parse_filename_or
parse_match fallback d t h = rw (h, parse_filename_or)

skip-All : (b s : Text) → All (λ d. d ≢ b'f') b → match_filename (b ++ s) ≡ match_filename s
skip-All [] s h = refl
skip-All (d ∷ b) s h = match_skip d (b ++ s) h.0 ∙ skip-All b s h.1

-- Behind a text without the letter `f`, such as `attachment; `, the name is read as it was written,
-- in quotes or up to a semicolon.
pub parse_filename_round_trip :
    (fallback before : Text) (c : ℕ) (name rest : Text)
    → All (λ d. d ≢ b'f') before
    → IsPlainName (c ∷ name)
    → (parse_filename_or fallback (some (before ++ quoted (c ∷ name) rest)) ≡ c ∷ name)
      × (parse_filename_or fallback (some (before ++ unquoted (c ∷ name) rest)) ≡ c ∷ name)
parse_filename_round_trip fallback before c name rest h plain = (
  parse_match fallback _ _ (
      skip-All before (quoted (c ∷ name) rest) h
      ∙ match_head _ _ _ (match_quoted c name rest plain)),
  parse_match fallback _ _ (
      skip-All before (unquoted (c ∷ name) rest) h
      ∙ match_head _ _ _ (match_unquoted c name rest plain)),
)
