-- ===== src/Examples/Consoles.antt =====
-- The dialogs on files and the console of commands at concrete inputs.
use pb_launcher.Prelude.{
  Text, any, false, split, text_eq, codes, List, [], ◌∷◌, ◌++◌, true, false, some, Option, ◌≡◌,
  refl, All, is_blank, trim, trim_start,
}
use pb_launcher.Http.{Response, Outcome, done, Thrown, await_fetch, require_ok}
use pb_launcher.Http.Values.{Json, null, undefined}
use pb_launcher.Services.Files.{save_file, upload_files}
use pb_launcher.Services.Laws.Failures.{answering}
use pb_launcher.Tree.{slash}
use pb_launcher.Examples.Calls.{encode, local}
use pb_launcher.Dialogs.{submit_upload, told, submit_new_file, settle, final_path, dest_path}
use pb_launcher.Dialogs.Upload
use pb_launcher.Dialogs.Upload.{choose, drop, remove, empty_form}
use pb_launcher.Dialogs.Upload.Kept.{submit_upload_kept}
use pb_launcher.Dialogs.Below.{IsBelow}
use pb_launcher.Dialogs.Submitted.{file_form, submit_new-IsBelow}
use pb_launcher.Dialogs.Stack.{
  ModalComponent, Act, open_modal, close, acts, nothing, within, acts-Balanced,
}
use pb_launcher.Console.{
  Console, opened, Event, typed, submit, answered, clear, next, run, CliResult,
}
use pb_launcher.Console.Words.{IsWord}
use pb_launcher.Console.Ready.{answered_sends}

abbrev accepted : Response
accepted = record { status = 200; body = some null; content_disposition = Option.none; blob = [] }

abbrev native : Thrown → Json
native e = undefined

abbrev typed_path : Text
typed_path = codes " css/a.css"

new_file_run :
    submit_new_file encode local
      (answering accepted)
      native
      (codes "s")
      (codes "pb_public")
      typed_path
    ≡ told (codes "pb_public/css/a.css")
unfolding submit_new_file trim trim_start is_blank settle final_path save_file await_fetch
    require_ok
new_file_run = refl

plain_path : any (text_eq (codes "..")) (split (trim typed_path) slash) ≡ false
unfolding trim trim_start is_blank
plain_path = refl

submit_new-IsBelow_example :
    IsBelow (codes "pb_public") (codes "pb_public/css/a.css")
    × (save_file encode local (answering accepted) (codes "s") (codes "pb_public/css/a.css") []
        ≡ done tt)
submit_new-IsBelow_example =
    submit_new-IsBelow encode local (answering accepted) native file_form (codes "s")
      (codes "pb_public") typed_path (codes "pb_public/css/a.css") plain_path new_file_run

abbrev modal : Text → ModalComponent Text
modal title = record { content = title; close_on_backdrop_click = false }

abbrev script : List (Act Text)
script =
    open_modal (modal (codes "Zona")) ∷ (open_modal (modal (codes "CLI")) ∷ close ∷ [])
    ++ close ∷ []

acts-Balanced_example : acts Text [] script ≡ []
acts-Balanced_example = acts-Balanced Text [] script (
    within (modal (codes "Zona")) (open_modal (modal (codes "CLI")) ∷ close ∷ []) []
      (within (modal (codes "CLI")) [] [] nothing nothing) nothing)

abbrev message_of : Thrown → Text
message_of e = codes "failed"

abbrev events : List Event
events = typed (codes "version") ∷ submit ∷ clear ∷ []

abbrev before : Console
before = run message_of (opened (codes "s")) events

abbrev result : Outcome CliResult
result = done (record { success = true; output = [] })

words-IsWord : All IsWord (codes "migrate" ∷ codes "history" ∷ [])
unfolding is_blank
words-IsWord = (
  record {
    some_text = λ e. cc;
    no_blank = (refl, (refl, (refl, (refl, (refl, (refl, (refl, tt)))))));
  },
  (
    record {
      some_text = λ e. cc;
      no_blank = (refl, (refl, (refl, (refl, (refl, (refl, (refl, tt)))))));
    },
    tt,
  ),
)

answered_sends_example :
    ((next message_of before (answered result)).loading ≡ false)
    × ((next message_of
          (next message_of
            (next message_of before (answered result))
            (typed (codes " migrate history")))
          submit).running
        ≡ some (codes "migrate" ∷ codes "history" ∷ []))
    × ((next message_of
          (next message_of
            (next message_of before (answered result))
            (typed (codes " migrate history")))
          submit).calls
        ≡ before.calls ++ (codes "migrate" ∷ codes "history" ∷ []) ∷ [])
unfolding trim trim_start is_blank
answered_sends_example =
    answered_sends message_of (codes "s") events result (codes " migrate history") (codes "migrate")
      (codes "history" ∷ []) words-IsWord refl

abbrev chosen : List Upload.Event
chosen = choose (codes "a" ∷ codes "b" ∷ []) ∷ drop (codes "c" ∷ []) ∷ remove 1 ∷ []

chosen_run : (Upload.run empty_form chosen).files ≡ codes "a" ∷ codes "c" ∷ []
unfolding Upload.run Upload.next
chosen_run = refl

submit_upload_kept_example :
    submit_upload encode local
      (answering accepted)
      native
      (codes "s")
      (codes "pb_public")
      (codes "css")
      (Upload.run empty_form chosen).files
    ≡ settle native
        (upload_files local
          (answering accepted)
          (codes "s")
          (dest_path (codes "pb_public") (codes "css"))
          (codes "a" ∷ codes "c" ∷ []))
        (dest_path (codes "pb_public") (codes "css"))
submit_upload_kept_example =
    submit_upload_kept encode local (answering accepted) native (codes "s") (codes "pb_public")
      (codes "css") chosen
