-- ===== src/Editor/Calm.antt =====
-- The editor where a content is loaded and a save is answered before the user goes on.
use mathlib.Core.Path.{subst}
use pb_launcher.Prelude.{
  Text, List, [], ◌∷◌, Bool, true, false, ◌||◌, Option, none, some, if◌then◌else◌, ◌≡◌, refl, ◌↔◌,
  Bool-cases, inl, inr, text_eq→eq, text_eq_refl, ap, arith, ◌∙◌,
}
use pb_launcher.Editor.{
  Target, same_target, is_binary_path, Editor, closed_editor, has_changes, is_loaded, is_selected,
  settle, select, arrived, typed, save, save_done, can_save, next, is_some, on_saved, handle_save,
}

-- The files of the server.
abbrev pub Store : Type 0
Store = Target → Text

abbrev pub put : Target → Text → Store → Store
put t text s u = if same_target t u then text else s u

pub record Desk : Type 0 where
  pub editor : Editor
  pub files : Store

pub data Act : Type 0 where
  open_file : Target → Bool → Option Text → Act
  edit : Bool → Text → Act
  keep : Bool → Act

same_target_refl : (t : Target) → same_target t t ≡ true
same_target_refl t = rw (text_eq_refl t.service_id, text_eq_refl t.path) refl

same_target→eq : (s t : Target) → same_target s t ≡ true → s ≡ t
same_target→eq s t h =
    ground (arith, text_eq→eq s.service_id t.service_id, text_eq→eq s.path t.path)

-- What is shown of a text: its original is the file of the server.
abbrev pub Faithful : Editor → Store → Type 0
Faithful e s =
    (t : Target)
    → e.selected ≡ some t
    → e.is_dir ≡ false
    → e.is_binary ≡ false
    → e.contents.original ≡ s t

settle-original :
    (e : Editor) (t : Target) (x : Text) (changed : Bool)
    → is_binary_path t.path ≡ false
    → (changed ≡ false → e.is_dir ≡ false → e.is_binary ≡ false → e.contents.original ≡ x)
    → (settle e t false (some x) changed).contents.original ≡ x
unfolding settle
settle-original e t x changed h f = ground (arith, f, h)

some-inj : {A : Type 0} (a b : A) → Option.some a ≡ some b → a ≡ b
some-inj a b h = cc

is_loaded→eq : (o : Option Text) (x : Text) → is_loaded o x ≡ true → o ≡ some x
is_loaded→eq none x h = cc
is_loaded→eq (some t) x h = ap some (text_eq→eq t x h)

put_same : (t : Target) (text : Text) (s : Store) (u : Target) → t ≡ u → text ≡ put t text s u
put_same t text s u e = subst (λ v. text ≡ put t text s v) e (rw (same_target_refl t) refl)

-- The save that is pending, done by the server.
abbrev pub answered : Option (Target × Text) → Store → Store
answered none s = s
answered (some (t, text)) s = put t text s

changes_iff : (e : Editor) → (has_changes e ≡ false) ↔ (e.contents.editor ≡ e.contents.original)
changes_iff e = (
  λ h. text_eq→eq e.contents.editor e.contents.original (ground (arith, h)),
  λ h. rw (h, text_eq_refl e.contents.original) refl,
)

module _ (lower : Text → Text) (seen : Text → Text → Text) where
  -- The content of a file comes after its row is clicked; a save that was sent succeeds.
  abbrev pub perform : Desk → Act → Desk
  perform k (open_file t d cached) =
      let e = next lower seen k.editor (select t d cached) in
      record k {
        editor = if d || is_binary_path t.path then e else next lower seen e (arrived (k.files t));
      }
  perform k (edit is_stopped text) = record k {
    editor = next lower seen k.editor (typed is_stopped text);
  }
  perform k (keep is_stopped) =
      let e = next lower seen k.editor (save is_stopped) in
      record { editor = next lower seen e save_done; files = answered e.saving k.files }

  unfoldable pub performs : Desk → List Act → Desk
  performs k [] = k
  performs k (a ∷ acts) = performs (perform k a) acts

  -- What a page that has just been opened is brought to.
  abbrev pub worked : Store → List Act → Desk
  worked files acts = performs (record { editor = closed_editor; files = files }) acts

  -- A row that is clicked: the content comes if the row is a text.
  abbrev opened : Editor → Target → Bool → Store → Editor
  opened e t d s = if d || is_binary_path t.path then e else next lower seen e (arrived (s t))

  settled-Faithful :
      (e : Editor) (t : Target) (d : Bool) (data_ : Option Text) (changed : Bool) (s : Store)
      → (data_ ≡ some (s t)
          → changed ≡ false
          → e.is_dir ≡ false
          → e.is_binary ≡ false
          → e.contents.original ≡ s t)
      → Faithful (opened (settle e t d data_ changed) t d s) s
  unfolding next settle
  settled-Faithful e t d data_ changed s f u at not_dir not_binary =
      ground (arith, f, is_loaded→eq data_ (s t), some-inj t u, settle-original e t (s t) changed)

  selected-some : (o : Option Target) (t : Target) → is_selected o t ≡ true → o ≡ some t
  selected-some none t h = cc
  selected-some (some u) t h = ap some (same_target→eq u t h)

  opened-Faithful :
      (e : Editor) (t : Target) (d : Bool) (cached : Option Text) (s : Store)
      → Faithful e s
      → Faithful (opened (next lower seen e (select t d cached)) t d s) s
  unfolding next
  opened-Faithful e t d cached s h = elim (Bool-cases (is_selected e.selected t)) [
    | inl same ↦ rw same (
        settled-Faithful e t d e.loaded false s
          (λ loaded keeps. h t (selected-some e.selected t same)))
    | inr other ↦ rw other (
        settled-Faithful e t d cached (is_some e.loaded || is_some cached) s
          (λ loaded keeps. ground (arith, loaded, keeps)))
  ]

  opened-saving :
      (e : Editor) (t : Target) (d : Bool) (cached : Option Text) (s : Store)
      → e.saving ≡ none
      → (opened (next lower seen e (select t d cached)) t d s).saving ≡ none
  unfolding next settle
  opened-saving e t d cached s h = ground (arith, h)

  typed-Faithful :
      (e : Editor) (s : Store) (is_stopped : Bool) (text : Text)
      → Faithful e s
      → Faithful (next lower seen e (typed is_stopped text)) s
  unfolding next
  typed-Faithful e s is_stopped text h t at not_dir not_binary = ground (arith, h t)

  abbrev pub Kept : Desk → Type 0
  Kept k = Faithful k.editor k.files × (k.editor.saving ≡ none)

  module _ (reads : (a : Text) → seen a a ≡ a) where
    saved-Kept :
        (e : Editor) (s : Store) (o : Option Target) (b : Bool)
        → e.selected ≡ o
        → Faithful e s
        → e.saving ≡ none
        → Kept (record {
          editor = on_saved lower seen (if b then handle_save lower seen e else e);
          files = answered (if b then handle_save lower seen e else e).saving s;
        })
    saved-Kept e s none true at h idle = rw (at, idle) ((λ t u. cc), refl)
    saved-Kept e s (some t) true at h idle = rw at (
      (λ u same not_dir not_binary.
          reads e.contents.editor ∙ put_same t e.contents.editor s u (some-inj t u same)),
      refl,
    )
    saved-Kept e s o false at h idle = rw idle (h, refl)

    perform-Kept : (k : Desk) (a : Act) → Kept k → Kept (perform k a)
    unfolding next
    perform-Kept k (open_file t d cached) (h, idle) = (
      opened-Faithful k.editor t d cached k.files h,
      opened-saving k.editor t d cached k.files idle,
    )
    perform-Kept k (edit is_stopped text) (h, idle) =
        (typed-Faithful k.editor k.files is_stopped text h, ground (arith, idle))
    perform-Kept k (keep is_stopped) (h, idle) =
        saved-Kept k.editor k.files k.editor.selected (can_save lower seen is_stopped k.editor) refl
          h idle

    performs-Kept : (k : Desk) (acts : List Act) → Kept k → Kept (performs k acts)
    unfolding performs
    performs-Kept k [] h = h
    performs-Kept k (a ∷ acts) h = performs-Kept (perform k a) acts (perform-Kept k a h)

    -- Acts that wait for the content of a file and for the answer of a save: of a text that is
    -- selected, the page says that nothing has changed exactly if the editor has what the server has.
    pub performs_saved :
        (acts : List Act) (files : Store) (t : Target)
        → (worked files acts).editor.selected ≡ some t
        → (worked files acts).editor.is_dir ≡ false
        → (worked files acts).editor.is_binary ≡ false
        → (has_changes (worked files acts).editor ≡ false)
          ↔ ((worked files acts).editor.contents.editor ≡ (worked files acts).files t)
    performs_saved acts files t at not_dir not_binary =
        let start : Desk = record { editor = closed_editor; files = files } in
        rw⁻¹ ((performs-Kept start acts ((λ u e. cc), refl)).0 t at not_dir not_binary)
          (changes_iff (worked files acts).editor)
