-- ===== src/Editor/Agree.antt =====
-- The editor of the section of one service does what the editor of the page does on that service.
use pb_launcher.Prelude.{
  Text, List, [], ◌∷◌, Bool, true, false, ◌&&◌, ◌||◌, not, Option, Option-cases, none, some, ◌≡◌,
  refl, sym, ap, ◌∙◌, Option-cases, Bool-cases, inl, inr, text_eq_refl, text_eq→eq, map, arith,
}
use pb_launcher.Editor.{
  Target, Editor, no_contents, closed_editor, Event, select, listed, arrived, typed, save,
  save_done, save_failed, deleted, differ, is_selected, settle, is_binary_path, next, run,
}
use pb_launcher.Editor.Section.{
  SectionEditor, closed_section, Click, select_path, listed_as, content_arrived, typed_text,
  save_clicked, file_saved, save_refused, file_deleted, is_path, section_effects, section_next,
  section_run,
}

abbrev pub target_of : Text → Text → Target
target_of service_id p = record { service_id = service_id; path = p }

abbrev pub target? : Text → Option Text → Option Target
target? service_id none = none
target? service_id (some p) = some (target_of service_id p)

abbrev pub on_page : Text → SectionEditor → Editor
on_page service_id e = record {
  selected = target? service_id e.selected_path;
  is_dir = e.is_dir_selected;
  is_binary = e.is_binary_file;
  loaded = e.loaded;
  contents = e.contents;
  saving = e.saving;
  requests = e.requests;
}

abbrev pub event_of : Text → Click → Event
event_of service_id (select_path p d data_) = select (target_of service_id p) d data_
event_of service_id (listed_as d) = listed d
event_of service_id (content_arrived t) = arrived t
event_of service_id (typed_text s t) = typed s t
event_of service_id (save_clicked s) = save s
event_of service_id file_saved = save_done
event_of service_id save_refused = save_failed
event_of service_id file_deleted = deleted

-- A path that is selected is known as what it says.
abbrev IsKnown : SectionEditor → Type 0
IsKnown e =
    (p : Text)
    → e.selected_path ≡ some p
    → (not e.is_dir_selected && is_binary_path p) ≡ e.is_binary_file

-- A row that is clicked again is a folder as before, or none, and what is not shown as text has
-- left no text in the editor.
abbrev pub IsSteady : SectionEditor → Click → Type 0
IsSteady e (select_path p d data_) =
    e.selected_path ≡ some p
    → (d ≡ e.is_dir_selected)
      × ((e.is_binary_file || e.is_dir_selected) ≡ true → e.contents ≡ no_contents)
IsSteady e _ = Unit

effects_agree :
    (service_id : Text) (e : SectionEditor) (p : Text) (d : Bool) (data_ : Option Text)
    (changed : Bool)
    → on_page service_id (section_effects e p d data_ changed)
      ≡ settle (on_page service_id e) (target_of service_id p) d data_ changed
unfolding section_effects settle
effects_agree service_id e p d data_ changed = refl

effects-IsKnown :
    (e : SectionEditor) (p : Text) (d : Bool) (data_ : Option Text) (changed : Bool)
    → IsKnown (section_effects e p d data_ changed)
unfolding section_effects
effects-IsKnown e p d data_ changed q h = ground (arith, h)

is_path→eq : (o : Option Text) (p : Text) → is_path o p ≡ true → o ≡ some p
is_path→eq none p h = cc
is_path→eq (some s) p h = ap some (text_eq→eq s p h)

is_selected-target? :
    (service_id : Text) (o : Option Text) (p : Text)
    → is_selected (target? service_id o) (target_of service_id p) ≡ is_path o p
is_selected-target? service_id none p = refl
is_selected-target? service_id (some s) p = rw (text_eq_refl service_id) refl

-- The effects of a click on the row that is selected change nothing.
settle_again :
    (service_id : Text) (e : SectionEditor) (p : Text)
    → e.selected_path ≡ some p
    → (not e.is_dir_selected && is_binary_path p) ≡ e.is_binary_file
    → ((e.is_binary_file || e.is_dir_selected) ≡ true → e.contents ≡ no_contents)
    → settle (on_page service_id e) (target_of service_id p) e.is_dir_selected e.loaded false
      ≡ on_page service_id e
unfolding settle
settle_again service_id e p s k b = ground (arith, s, k, b)

module _ (service_id : Text) (lower : Text → Text) (seen : Text → Text → Text) where
  abbrev pub Steady : SectionEditor → List Click → Type 0
  Steady e [] = Unit
  Steady e (c ∷ cs) = IsSteady e c × Steady (section_next service_id lower seen e c) cs

  listed-IsKnown :
      (e : SectionEditor) (d : Bool)
      → IsKnown e
      → IsKnown (section_next service_id lower seen e (listed_as d))
  unfolding section_next
  listed-IsKnown e d k = elim (Option-cases e.selected_path) [
    | inl n ↦ rw (n, section_next) k
    | inr (p, n) ↦ elim (Bool-cases (differ e.is_dir_selected d)) [
      | inl h ↦ rw (n, section_next) (rw h (effects-IsKnown e p d e.loaded false))
      | inr h ↦ rw (n, section_next) (rw h k)
    ]
  ]

  select-IsKnown :
      (e : SectionEditor) (p : Text) (d : Bool) (data_ : Option Text)
      → IsKnown e
      → IsKnown (section_next service_id lower seen e (select_path p d data_))
  unfolding section_next
  select-IsKnown e p d data_ k = elim (Bool-cases (is_path e.selected_path p)) [
    | inl h ↦ rw h k
    | inr h ↦ rw h (effects-IsKnown e p d data_ _)
  ]

  next-IsKnown :
      (e : SectionEditor) (c : Click) → IsKnown e → IsKnown (section_next service_id lower seen e c)
  unfolding section_next
  next-IsKnown e (select_path p d data_) k q h = select-IsKnown e p d data_ k q h
  next-IsKnown e (listed_as d) k q h = listed-IsKnown e d k q h
  next-IsKnown e (content_arrived t) k q h = ground (arith, h, k q)
  next-IsKnown e (typed_text s t) k q h = ground (arith, h, k q)
  next-IsKnown e (save_clicked s) k q h = ground (arith, h, k q)
  next-IsKnown e file_saved k q h = ground (arith, h, k q)
  next-IsKnown e save_refused k q h = k q h
  next-IsKnown e file_deleted k q h = cc

  clicked_again :
      (e : SectionEditor) (p : Text) (d : Bool) (data_ : Option Text)
      → IsKnown e
      → IsSteady e (select_path p d data_)
      → e.selected_path ≡ some p
      → is_path e.selected_path p ≡ true
      → on_page service_id (section_next service_id lower seen e (select_path p d data_))
        ≡ next lower seen (on_page service_id e) (select (target_of service_id p) d data_)
  unfolding section_next next
  clicked_again e p d data_ k s c h =
      rw (is_selected-target? service_id e.selected_path p, h, (s c).0)
        (sym (settle_again service_id e p c (k p c) (s c).1))

  listed_agrees :
      (e : SectionEditor) (d : Bool)
      → on_page service_id (section_next service_id lower seen e (listed_as d))
        ≡ next lower seen (on_page service_id e) (listed d)
  unfolding section_next next
  listed_agrees e d = elim (Option-cases e.selected_path) [
    | inl n ↦ rw (n, section_next, next) refl
    | inr (p, n) ↦ elim (Bool-cases (differ e.is_dir_selected d)) [
      | inl h ↦ rw (n, section_next, next) (rw h (effects_agree service_id e p d e.loaded false))
      | inr h ↦ rw (n, section_next, next) (rw h refl)
    ]
  ]

  next_agrees :
      (e : SectionEditor) (c : Click)
      → IsKnown e
      → IsSteady e c
      → on_page service_id (section_next service_id lower seen e c)
        ≡ next lower seen (on_page service_id e) (event_of service_id c)
  unfolding section_next next
  next_agrees e (select_path p d data_) k s = elim (Bool-cases (is_path e.selected_path p)) [
    | inl h ↦ clicked_again e p d data_ k s (is_path→eq e.selected_path p h) h
    | inr h ↦
        rw (is_selected-target? service_id e.selected_path p, h)
          (effects_agree service_id e p d data_ _)
  ]
  next_agrees e (listed_as d) k s = listed_agrees e d
  next_agrees e (content_arrived t) k s = ground arith
  next_agrees e (typed_text c t) k s = ground arith
  next_agrees e (save_clicked c) k s = ground arith
  next_agrees e file_saved k s = ground arith
  next_agrees e save_refused k s = refl
  next_agrees e file_deleted k s = refl

  run_agrees :
      (e : SectionEditor) (cs : List Click)
      → IsKnown e
      → Steady e cs
      → on_page service_id (section_run service_id lower seen e cs)
        ≡ run lower seen (on_page service_id e) (map (event_of service_id) cs)
  unfolding section_run run
  run_agrees e [] k s = refl
  run_agrees e (c ∷ cs) k s =
      run_agrees (section_next service_id lower seen e c) cs (next-IsKnown e c k) s.1
      ∙ ap (λ u. run lower seen u (map (event_of service_id) cs)) (next_agrees e c k s.0)

  -- From the empty editor on, the section of one service has at each moment the texts and the
  -- requests that the page of all services has after the same clicks on that service, provided that
  -- a row is clicked again only as the folder or file that it was, and with no text where it is not
  -- shown as text.
  pub section_run_agrees :
      (cs : List Click)
      → Steady closed_section cs
      → on_page service_id (section_run service_id lower seen closed_section cs)
        ≡ run lower seen closed_editor (map (event_of service_id) cs)
  section_run_agrees cs s = run_agrees closed_section cs (λ p h. cc) s
