-- ===== src/Preview/Prompt.antt =====
-- What the preview of ui/src/pages/internal/FilesPage.tsx shows where an answer comes late.
use pb_launcher.Prelude.{
  ℕ, ◌+◌, ◌<◌, Text, List, [], ◌∷◌, Bool, true, Option, none, some, ◌≡◌, ◌≢◌, refl, arith, any,
  Bool-cases, inl, inr, Option-cases,
}
use pb_launcher.Editor.{is_image_file}
use pb_launcher.Preview.{
  ObjectUrl, Preview, Event, select, answered, failed, same_run, without, cleanup, asked, on_blob,
  on_failure, run_effect, next, run_events,
}

abbrev pub is_live : ℕ → Preview → Bool
is_live n p = any (same_run n) p.live

-- The variable `url` of the latest run holds nothing, or what that run made; run `n` is over.
record IsOver (n : ℕ) (p : Preview) : Type 0 where
  pub later : n < p.run
  pub own : (u : ObjectUrl) → p.url ≡ some u → u.number ≡ p.run
  pub kept : is_live n p ≡ true

any-without :
    (n : ℕ) (u : ObjectUrl) (us : List ObjectUrl)
    → n ≢ u.number
    → any (same_run n) us ≡ true
    → any (same_run n) (without u us) ≡ true
any-without n u [] k h = h
any-without n u (v ∷ us) k h = ground (arith, any-without n u us k)

cleanup-kept :
    (n r : ℕ) (url : Option ObjectUrl) (us : List ObjectUrl)
    → n < r
    → ((u : ObjectUrl) → url ≡ some u → u.number ≡ r)
    → any (same_run n) us ≡ true
    → any (same_run n) (cleanup url us) ≡ true
cleanup-kept n r none us k o h = h
cleanup-kept n r (some u) us k o h = any-without n u us (λ e. absurd (ground (arith, o u refl))) h

module _ (lower : Text → Text) where
  run_effect-IsOver :
      (n : ℕ) (p : Preview) (s : Option Text) → IsOver n p → IsOver n (run_effect lower p s)
  unfolding run_effect
  run_effect-IsOver n p none o = record {
    later = ground (arith, o.later);
    own = λ u h. cc;
    kept = cleanup-kept n p.run p.url p.live o.later o.own o.kept;
  }
  run_effect-IsOver n p (some path) o = elim (Bool-cases (is_image_file lower path)) [
    | inl e ↦ rw e (record {
      later = ground (arith, o.later);
      own = λ u h. cc;
      kept = cleanup-kept n p.run p.url p.live o.later o.own o.kept;
    })
    | inr e ↦ rw e (record {
      later = ground (arith, o.later);
      own = λ u h. cc;
      kept = cleanup-kept n p.run p.url p.live o.later o.own o.kept;
    })
  ]

  on_blob-IsOver : (n : ℕ) (p : Preview) (v : ObjectUrl) → IsOver n p → IsOver n (on_blob p v)
  unfolding on_blob
  on_blob-IsOver n p v o = record {
    later = o.later;
    own = λ u h. ground (arith, o.own u);
    kept = ground (arith, o.kept);
  }

  next-IsOver : (n : ℕ) (p : Preview) (e : Event) → IsOver n p → IsOver n (next lower p e)
  unfolding next on_failure
  next-IsOver n p (select s) o = run_effect-IsOver n p s o
  next-IsOver n p (answered m) o = elim (Option-cases (asked p m)) [
    | inl e ↦ rw (e, next) o
    | inr (u, e) ↦ rw (e, next) (on_blob-IsOver n p u o)
  ]
  next-IsOver n p (failed m) o = elim (Option-cases (asked p m)) [
    | inl e ↦ rw (e, next) o
    | inr (u, e) ↦ rw (e, next) (record { later = o.later; own = o.own; kept = o.kept })
  ]

  run_events-IsOver :
      (n : ℕ) (p : Preview) (es : List Event) → IsOver n p → IsOver n (run_events lower p es)
  unfolding run_events
  run_events-IsOver n p [] o = o
  run_events-IsOver n p (e ∷ es) o = run_events-IsOver n (next lower p e) es (next-IsOver n p e o)

  -- Two clicks, and the answers in the other order.
  abbrev pub crossed : Preview → Text → Text → Preview
  crossed p a b =
      run_events lower p
        (select (some a) ∷ select (some b) ∷ answered (p.run + 1 + 1) ∷ answered (p.run + 1) ∷ [])

  abbrev pub crossed_end : Preview → Text → Text → Preview
  crossed_end p a b = record {
    run = p.run + 1 + 1;
    selected = some b;
    url = some (record { number = p.run + 1 + 1; path = b });
    waiting =
        without (record { number = p.run + 1; path = a })
          (without (record { number = p.run + 1 + 1; path = b }) p.waiting);
    image_preview_url = some (record { number = p.run + 1; path = a });
    live =
        record { number = p.run + 1; path = a }
        ∷ record { number = p.run + 1 + 1; path = b }
        ∷ cleanup p.url p.live;
  }

  select_image :
      (p : Preview) (path : Text)
      → is_image_file lower path ≡ true
      → next lower p (select (some path)) ≡ record p {
        run = p.run + 1;
        selected = some path;
        url = none;
        waiting = record { number = p.run + 1; path = path } ∷ p.waiting;
        live = cleanup p.url p.live;
      }
  unfolding next run_effect
  select_image p path h = rw h refl

  two_answers :
      (p : Preview) (u v : ObjectUrl) (us : List ObjectUrl)
      → p.run ≡ v.number
      → v.number ≢ u.number
      → p.url ≡ none
      → p.waiting ≡ v ∷ u ∷ us
      → next lower (next lower p (answered v.number)) (answered u.number) ≡ record p {
        url = some v;
        waiting = without u (without v us);
        image_preview_url = some u;
        live = u ∷ v ∷ p.live;
      }
  unfolding next on_blob
  two_answers p u v us r n e w = ground (arith, r, n, e, w)

  crossed_lem :
      (p : Preview) (a b : Text)
      → is_image_file lower a ≡ true
      → is_image_file lower b ≡ true
      → crossed p a b ≡ crossed_end p a b
  unfolding run_events
  crossed_lem p a b ha hb = rw (select_image p a ha) (
      rw (select_image _ b hb) (
        two_answers _ (record { number = p.run + 1; path = a })
          (record { number = p.run + 1 + 1; path = b }) p.waiting refl (omega arith) refl refl))

  two_clicks-IsOver : (p : Preview) (a b : Text) → IsOver (p.run + 1) (crossed_end p a b)
  two_clicks-IsOver p a b = record {
    later = omega arith;
    own = λ u h. ground arith;
    kept = ground arith;
  }

  -- Whatever the page has shown so far, where two images are clicked in turn and the answer for the
  -- second comes before that for the first, the second is selected and the first is shown; and the
  -- object URL of the first is live after all that follows: nothing revokes it.
  pub crossed_shown :
      (p : Preview) (a b : Text) (es : List Event)
      → is_image_file lower a ≡ true
      → is_image_file lower b ≡ true
      → (crossed p a b).selected ≡ some b
        × ((crossed p a b).image_preview_url ≡ some (record { number = p.run + 1; path = a })
            × is_live (p.run + 1) (run_events lower (crossed p a b) es) ≡ true)
  crossed_shown p a b es ha hb = rw (crossed_lem p a b ha hb) (
    refl,
    (refl, (run_events-IsOver (p.run + 1) (crossed_end p a b) es (two_clicks-IsOver p a b)).kept),
  )
