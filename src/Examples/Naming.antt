-- ===== src/Examples/Naming.antt =====
-- The forms that ask for a name or a password at concrete inputs.
use pb_launcher.Prelude.{
  Text, codes, [], Option, some, trim, trim_start, is_blank, length, ◌≡◌, ◌≢◌, ◌≤◌, refl,
}
use pb_launcher.Http.{Outcome}
use pb_launcher.Http.Values.{Json}
use pb_launcher.Services.Backup.{restore_backup, clone_service, create_snapshot}
use pb_launcher.Services.System.{upsert_superuser}
use pb_launcher.Forms.{
  calls, submit_snapshot, submit_restore, submit_clone, submit_password, with_name,
}
use pb_launcher.Forms.Sent.{SendsName, forms_sent}
use pb_launcher.Examples.Calls.{local, one_file}

abbrev answer : Outcome Json
answer = clone_service local one_file (codes "s") (codes "b")

clone_run : submit_clone local one_file (codes "s") (codes " b ") ≡ calls answer
unfolding submit_clone with_name trim trim_start is_blank
clone_run = refl

forms_sent_example :
    (submit_snapshot local one_file (codes "s") (codes " b ") [] ≡ calls answer
      → SendsName (λ n. create_snapshot local one_file (codes "s") n (some (trim []))) answer)
    × (submit_clone local one_file (codes "s") (codes " b ") ≡ calls answer
        → SendsName (clone_service local one_file (codes "s")) answer)
    × (submit_restore local one_file (some (codes "z")) (codes " b ") ≡ calls answer
        → (f : Text) × ((Option.some (codes "z") ≡ some f)
            × SendsName (restore_backup local one_file f) answer))
    × (submit_password local one_file (codes "s") (codes "password") (codes "password")
          ≡ calls answer
        → (8 ≤ length (codes "password"))
          × (codes "password" ≢ [] → codes "password" ≡ codes "password")
          × (answer ≡ upsert_superuser local one_file (codes "s") (some (codes "password"))))
forms_sent_example =
    forms_sent local one_file (codes "s") (codes " b ") [] (codes "password") (codes "password")
      (some (codes "z")) answer
