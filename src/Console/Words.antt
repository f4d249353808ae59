-- ===== src/Console/Words.antt =====
-- The arguments that a command is split into.
use pb_launcher.Prelude.{
  Text, List, [], ◌∷◌, ◌++◌, true, false, ◌≡◌, ◌≢◌, refl, ap, ◌∙◌, sym, All, join, is_blank,
  append-nil,
}
use pb_launcher.Console.{split_blanks}

-- A text that is not empty and has no blank.
pub record IsWord (w : Text) : Type 0 where
  pub some_text : w ≢ []
  pub no_blank : All (λ c. is_blank c ≡ false) w

-- A word in front goes onto the first part.
split_false-word :
    (w rest first : Text) (others : List Text)
    → All (λ c. is_blank c ≡ false) w
    → split_blanks false rest ≡ first ∷ others
    → split_blanks false (w ++ rest) ≡ (w ++ first) ∷ others
unfolding split_blanks
split_false-word [] rest first others h e = e
split_false-word (c ∷ w) rest first others h e =
    rw (h.0, split_false-word w rest first others h.1 e) refl

split_true-word :
    (w rest : Text) → IsWord w → split_blanks true (w ++ rest) ≡ split_blanks false (w ++ rest)
unfolding split_blanks
split_true-word [] rest h = absurd (h.some_text refl)
split_true-word (c ∷ w) rest h = rw (h.no_blank.0) refl

split_true-join :
    (w : Text) (ws : List Text)
    → IsWord w
    → split_blanks true (join (w ∷ ws) b' ') ≡ split_blanks false (join (w ∷ ws) b' ')
split_true-join w [] h =
    ap (split_blanks true) (sym (append-nil w))
    ∙ split_true-word w [] h
    ∙ ap (split_blanks false) (append-nil w)
split_true-join w (v ∷ ws) h = split_true-word w (b' ' ∷ join (v ∷ ws) b' ') h

-- Words with a blank between them are split into the words.
pub split-join :
    (w : Text) (ws : List Text)
    → All IsWord (w ∷ ws)
    → split_blanks false (join (w ∷ ws) b' ') ≡ w ∷ ws
unfolding split_blanks is_blank
split-join w [] h =
    ap (split_blanks false) (sym (append-nil w))
    ∙ split_false-word w [] [] [] h.0.no_blank refl
    ∙ ap (λ v. v ∷ []) (append-nil w)
split-join w (v ∷ ws) h =
    split_false-word w (b' ' ∷ join (v ∷ ws) b' ') [] (v ∷ ws) h.0.no_blank
      (ap (λ ps. [] ∷ ps) (split_true-join v ws h.1.0 ∙ split-join v ws h.1))
    ∙ ap (λ u. u ∷ v ∷ ws) (append-nil w)
