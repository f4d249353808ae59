-- ===== src/Preview.antt =====
-- The preview of an image in ui/src/pages/internal/FilesPage.tsx: the effect that downloads the
-- selected image and makes an object URL of it, and its cleanup. Every click on a row sets a new
-- object as the selection, so the effect runs each time; the answers come in any order. The URLs
-- that `createObjectURL` gives are told apart by the run that made them. The files are those of one
-- service: the selection is the path, without the id of the service.
pub mod Prompt
pub mod Timely
use pb_launcher.Prelude.{
  ℕ, ◌+◌, Text, List, [], ◌∷◌, Bool, not, Option, none, some, ◌==◌, filter, find, if◌then◌else◌,
}
use pb_launcher.Editor.{is_image_file}

-- An object URL: the run that made it, and the image that it shows.
pub record ObjectUrl : Type 0 where
  pub number : ℕ
  pub path : Text

-- `run` counts the runs of the effect, and `url` is the variable of the latest. `live` has the
-- URLs that are made and not revoked; `waiting` the downloads that have no answer yet.
pub record Preview : Type 0 where
  pub run : ℕ
  pub selected : Option Text
  pub url : Option ObjectUrl
  pub waiting : List ObjectUrl
  pub image_preview_url : Option ObjectUrl
  pub live : List ObjectUrl

pub data Event : Type 0 where
  select : Option Text → Event
  answered failed : ℕ → Event

abbrev pub same_run : ℕ → ObjectUrl → Bool
same_run n u = n == u.number

abbrev pub without : ObjectUrl → List ObjectUrl → List ObjectUrl
without u us = filter (λ v. not (same_run u.number v)) us

-- The function that the effect returns.
abbrev pub cleanup : Option ObjectUrl → List ObjectUrl → List ObjectUrl
cleanup none live = live
cleanup (some u) live = without u live

-- The download that a run of the effect has asked for, while it has no answer.
abbrev pub asked : Preview → ℕ → Option ObjectUrl
asked p n = find (same_run n) p.waiting

abbrev pub no_preview : Preview
no_preview = record {
  run = 0;
  selected = none;
  url = none;
  waiting = [];
  image_preview_url = none;
  live = [];
}

-- `then`. The variable `url` that is set is the one of the run that asked.
unfoldable pub on_blob : Preview → ObjectUrl → Preview
on_blob p u = record p {
  url = if same_run p.run u then some u else p.url;
  waiting = without u p.waiting;
  image_preview_url = some u;
  live = u ∷ p.live;
}

-- `catch`
unfoldable pub on_failure : Preview → ObjectUrl → Preview
on_failure p u = record p { waiting = without u p.waiting; image_preview_url = none }

module _ (lower : Text → Text) where
  -- The effect: `setImagePreviewUrl` is called at once only where there is no image to load.
  unfoldable pub run_effect : Preview → Option Text → Preview
  run_effect p none = record p {
    run = p.run + 1;
    selected = none;
    url = none;
    image_preview_url = none;
    live = cleanup p.url p.live;
  }
  run_effect p (some path) =
      if is_image_file lower path
      then record p {
        run = p.run + 1;
        selected = some path;
        url = none;
        waiting = record { number = p.run + 1; path = path } ∷ p.waiting;
        live = cleanup p.url p.live;
      }
      else record p {
        run = p.run + 1;
        selected = some path;
        url = none;
        image_preview_url = none;
        live = cleanup p.url p.live;
      }

  unfoldable pub next : Preview → Event → Preview
  next p (select path) = run_effect p path
  next p (answered n) = elim (asked p n) [ none ↦ p | some u ↦ on_blob p u ]
  next p (failed n) = elim (asked p n) [ none ↦ p | some u ↦ on_failure p u ]

  unfoldable pub run_events : Preview → List Event → Preview
  run_events p [] = p
  run_events p (e ∷ es) = run_events (next p e) es
