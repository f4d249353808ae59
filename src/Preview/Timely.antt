-- ===== src/Preview/Timely.antt =====
-- What the preview of ui/src/pages/internal/FilesPage.tsx shows where each answer is for the latest
-- click.
use pb_launcher.Prelude.{
  ℕ, ◌+◌, ◌≤◌, ◌<◌, Text, List, [], ◌∷◌, true, Option, none, some, ◌≡◌, refl, ap, arith, find, All,
  Bool-cases, inl, inr, ◌⊎◌, Option-cases,
}
use pb_launcher.Editor.{is_image_file}
use pb_launcher.Preview.{
  ObjectUrl, Preview, Event, select, answered, failed, same_run, without, cleanup, asked,
  no_preview, on_blob, on_failure, run_effect, next, run_events,
}

abbrev pub as_list : Option ObjectUrl → List ObjectUrl
as_list none = []
as_list (some u) = u ∷ []

record IsFresh (p : Preview) : Type 0 where
  pub one_live : p.live ≡ as_list p.url
  pub own_path : (u : ObjectUrl) → p.url ≡ some u → p.selected ≡ some u.path
  pub asked_path : (u : ObjectUrl) → asked p p.run ≡ some u → p.selected ≡ some u.path
  pub bounded : All (λ u. u.number ≤ p.run) p.waiting
  pub shown :
      (u : ObjectUrl)
      → p.image_preview_url ≡ some u
      → (p.url ≡ some u) ⊎ ((v : ObjectUrl) × (asked p p.run ≡ some v))
  pub not_yet : (v : ObjectUrl) → asked p p.run ≡ some v → p.url ≡ none

-- Each answer is for the latest click.
abbrev pub IsTimely : Preview → Event → Type 0
IsTimely p (select s) = Unit
IsTimely p (answered n) = n ≡ p.run
IsTimely p (failed n) = n ≡ p.run

find-number :
    (n : ℕ) (us : List ObjectUrl) (u : ObjectUrl) → find (same_run n) us ≡ some u → n ≡ u.number
find-number n [] u h = cc
find-number n (v ∷ us) u h = ground (arith, find-number n us u)

find-without :
    (n : ℕ) (u : ObjectUrl) (us : List ObjectUrl)
    → n ≡ u.number
    → find (same_run n) (without u us) ≡ none
find-without n u [] e = refl
find-without n u (v ∷ us) e = ground (arith, find-without n u us e)

find-above :
    (n r : ℕ) (us : List ObjectUrl)
    → All (λ u. u.number ≤ r) us
    → r < n
    → find (same_run n) us ≡ none
find-above n r [] b h = refl
find-above n r (v ∷ us) b h = ground (arith, find-above n r us b.1 h)

bounded-suc :
    (r : ℕ) (us : List ObjectUrl) → All (λ u. u.number ≤ r) us → All (λ u. u.number ≤ r + 1) us
bounded-suc r [] b = tt
bounded-suc r (u ∷ us) b = (omega arith, bounded-suc r us b.1)

bounded-without :
    (r : ℕ) (v : ObjectUrl) (us : List ObjectUrl)
    → All (λ u. u.number ≤ r) us
    → All (λ u. u.number ≤ r) (without v us)
bounded-without r v [] b = tt
bounded-without r v (u ∷ us) b = elim (Bool-cases (same_run v.number u)) [
  | inl e ↦ rw e (bounded-without r v us b.1)
  | inr e ↦ rw e (b.0, bounded-without r v us b.1)
]

cleanup-own : (url : Option ObjectUrl) → cleanup url (as_list url) ≡ []
cleanup-own none = refl
cleanup-own (some u) = ground arith

cleanup-fresh :
    (url : Option ObjectUrl) (us : List ObjectUrl) → us ≡ as_list url → cleanup url us ≡ []
cleanup-fresh url us h = rw h (cleanup-own url)

asked-new :
    (n : ℕ) (path : Text) (us : List ObjectUrl)
    → find (same_run n) (record { number = n; path = path } ∷ us)
      ≡ some (record { number = n; path = path })
asked-new n path us = ground arith

-- A click on no image, or on nothing.
blank-IsFresh :
    (p : Preview) (s : Option Text)
    → IsFresh p
    → IsFresh (record p {
      run = p.run + 1;
      selected = s;
      url = none;
      image_preview_url = none;
      live = cleanup p.url p.live;
    })
blank-IsFresh p s f =
    let nothing : find (same_run (p.run + 1)) p.waiting ≡ none =
      find-above (p.run + 1) p.run p.waiting f.bounded (omega arith) in
    record {
      one_live = cleanup-fresh p.url p.live f.one_live;
      own_path = λ u h. cc;
      asked_path = λ u h. cc nothing;
      bounded = bounded-suc p.run p.waiting f.bounded;
      shown = λ u h. cc;
      not_yet = λ v h. refl;
    }

image-IsFresh :
    (p : Preview) (path : Text)
    → IsFresh p
    → IsFresh (record p {
      run = p.run + 1;
      selected = some path;
      url = none;
      waiting = record { number = p.run + 1; path = path } ∷ p.waiting;
      live = cleanup p.url p.live;
    })
image-IsFresh p path f =
    let new = asked-new (p.run + 1) path p.waiting in
    record {
      one_live = cleanup-fresh p.url p.live f.one_live;
      own_path = λ u h. cc;
      asked_path = λ u h. cc new;
      bounded = (omega arith, bounded-suc p.run p.waiting f.bounded);
      shown = λ u h. inr (record { number = p.run + 1; path = path }, new);
      not_yet = λ v h. refl;
    }

blob-IsFresh :
    (p : Preview) (u : ObjectUrl) → asked p p.run ≡ some u → IsFresh p → IsFresh (on_blob p u)
unfolding on_blob
blob-IsFresh p u a f =
    let e : p.run ≡ u.number = find-number p.run p.waiting u a in
    let same : same_run p.run u ≡ true = ground arith in
    let gone = find-without p.run u p.waiting e in
    rw same (record {
      one_live = ap (◌∷◌ u) (rw (f.not_yet u a) at f.one_live);
      own_path = λ v h. ground (arith, f.asked_path u a);
      asked_path = λ v h. cc gone;
      bounded = bounded-without p.run u p.waiting f.bounded;
      shown = λ v h. inl h;
      not_yet = λ v h. cc gone;
    })

failure-IsFresh :
    (p : Preview) (u : ObjectUrl) → asked p p.run ≡ some u → IsFresh p → IsFresh (on_failure p u)
unfolding on_failure
failure-IsFresh p u a f =
    let gone = find-without p.run u p.waiting (find-number p.run p.waiting u a) in
    record {
      one_live = f.one_live;
      own_path = f.own_path;
      asked_path = λ v h. cc gone;
      bounded = bounded-without p.run u p.waiting f.bounded;
      shown = λ v h. cc;
      not_yet = λ v h. cc gone;
    }

module _ (lower : Text → Text) where
  abbrev pub Timely : Preview → List Event → Type 0
  Timely p [] = Unit
  Timely p (e ∷ es) = IsTimely p e × Timely (next lower p e) es

  run_effect-IsFresh : (p : Preview) (s : Option Text) → IsFresh p → IsFresh (run_effect lower p s)
  unfolding run_effect
  run_effect-IsFresh p none f = blank-IsFresh p none f
  run_effect-IsFresh p (some path) f = elim (Bool-cases (is_image_file lower path)) [
    | inl e ↦ rw e (image-IsFresh p path f)
    | inr e ↦ rw e (blank-IsFresh p (some path) f)
  ]

  next-IsFresh : (p : Preview) (e : Event) → IsTimely p e → IsFresh p → IsFresh (next lower p e)
  unfolding next
  next-IsFresh p (select s) t f = run_effect-IsFresh p s f
  next-IsFresh p (answered n) t f = elim (Option-cases (asked p p.run)) [
    | inl e ↦ rw t (rw (e, next) f)
    | inr (u, e) ↦ rw t (rw (e, next) (blob-IsFresh p u e f))
  ]
  next-IsFresh p (failed n) t f = elim (Option-cases (asked p p.run)) [
    | inl e ↦ rw t (rw (e, next) f)
    | inr (u, e) ↦ rw t (rw (e, next) (failure-IsFresh p u e f))
  ]

  run_events-IsFresh :
      (p : Preview) (es : List Event) → Timely p es → IsFresh p → IsFresh (run_events lower p es)
  unfolding run_events
  run_events-IsFresh p [] t f = f
  run_events-IsFresh p (e ∷ es) t f =
      run_events-IsFresh (next lower p e) es t.1 (next-IsFresh p e t.0 f)

  start-IsFresh : IsFresh no_preview
  start-IsFresh = record {
    one_live = refl;
    own_path = λ u h. cc;
    asked_path = λ u h. cc;
    bounded = tt;
    shown = λ u h. cc;
    not_yet = λ v h. cc;
  }

  -- From an empty page on, where each answer is for the latest click, the object URLs that are not
  -- revoked are the one of the latest run, if it has one; and an image that is shown while the
  -- latest click waits for no answer is the selected one.
  pub run_events_shown :
      (es : List Event) (u : ObjectUrl)
      → Timely no_preview es
      → let p = run_events lower no_preview es in
        p.live ≡ as_list p.url
        × (asked p p.run ≡ none → p.image_preview_url ≡ some u → p.selected ≡ some u.path)
  run_events_shown es u t =
      let f = run_events-IsFresh no_preview es t start-IsFresh in
      (f.one_live, λ a h. elim (f.shown u h) [ inl e ↦ f.own_path u e | inr (v, e) ↦ cc ])
