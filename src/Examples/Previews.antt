-- ===== src/Examples/Previews.antt =====
-- The preview of an image at concrete clicks and answers.
use pb_launcher.Prelude.{Text, codes, List, [], ◌∷◌, some, none, true, ◌≡◌, ◌+◌, refl}
use pb_launcher.Editor.{is_image_file}
use pb_launcher.Preview.{
  Event, select, answered, no_preview, asked, next, run_effect, on_blob, run_events,
}
use pb_launcher.Preview.Prompt.{crossed, is_live, crossed_shown}
use pb_launcher.Preview.Timely.{as_list, Timely, run_events_shown}

abbrev lower : Text → Text
lower t = t

abbrev cat : Text
cat = codes "cat.png"

abbrev dog : Text
dog = codes "dog.jpg"

abbrev clicks : List Event
clicks = select (some cat) ∷ answered 1 ∷ select none ∷ select (some dog) ∷ answered 3 ∷ []

clicks-Timely : Timely lower no_preview clicks
unfolding next run_effect on_blob is_image_file
clicks-Timely = (tt, (refl, (tt, (tt, (refl, tt)))))

crossed_shown_example :
    (crossed lower no_preview cat dog).selected ≡ some dog
    × ((crossed lower no_preview cat dog).image_preview_url
          ≡ some (record { number = no_preview.run + 1; path = cat })
        × is_live
            (no_preview.run + 1)
            (run_events lower (crossed lower no_preview cat dog) (select none ∷ []))
          ≡ true)
unfolding is_image_file
crossed_shown_example = crossed_shown lower no_preview cat dog (select none ∷ []) refl refl

run_events_shown_example :
    let p = run_events lower no_preview clicks in
    p.live ≡ as_list p.url
    × (asked p p.run ≡ none
        → p.image_preview_url ≡ some (record { number = 3; path = dog })
        → p.selected ≡ some dog)
run_events_shown_example =
    run_events_shown lower clicks (record { number = 3; path = dog }) clicks-Timely
