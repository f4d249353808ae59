-- ===== src/Limits/Creation.antt =====
-- What ui/src/pages/internal/forms/ServiceForm.tsx does to create a service, `createInstanceMutation`:
-- the record is created and then its administrator. The text of a JSON value and the messages of
-- the engine's own errors are parameters.
use pb_launcher.Prelude.{
  Text, codes, [], ◌∷◌, ◌++◌, Bool, true, false, ◌&&◌, some, starts_with, ◌≡◌, refl, ap, ◌∙◌,
  if◌then◌else◌, arith, Bool-cases, inl, inr,
}
use pb_launcher.Http.{Fetch, Client, Outcome, done, thrown, Thrown, plain_error, ◌>>=◌, ◌>>◌}
use pb_launcher.Http.Values.{Json, string, field_of}
use pb_launcher.Url.{is_truthy}
use pb_launcher.Collections.Records.{Sdk}
use pb_launcher.Collections.Writes.{ServiceData, create_service_instance}
use pb_launcher.Services.System.{upsert_superuser}
use pb_launcher.Dialogs.{get_error_message}

-- The message of a service that is there without its administrator.
abbrev pub created_but : Text
created_but =
    codes "El servicio se creó, pero no se pudo configurar la contraseña del administrador: "

starts_nil : (t : Text) → starts_with t [] ≡ true
starts_nil [] = refl
starts_nil (c ∷ t) = refl

module _ (native : Thrown → Json) (text_of : Json → Text) where
  -- `catch (e)`
  unfoldable pub or_created_but : Outcome Json → Outcome Json
  or_created_but (done j) = done j
  or_created_but (thrown e) =
      thrown (plain_error (string (created_but ++ text_of (get_error_message native e))))

  -- `newService?.id`
  abbrev pub id_of : Json → Text
  id_of service = text_of (field_of service (codes "id"))

  unfoldable pub create_instance : Sdk → Client → Fetch → ServiceData → Text → Outcome Json
  create_instance sdk pb fetch data_ superuser_password = do
    new_service ← create_service_instance sdk data_
    if is_truthy superuser_password && is_truthy (id_of new_service)
        then or_created_but
            (upsert_superuser pb fetch (id_of new_service) (some superuser_password))
          >> done new_service
        else done new_service

  -- What the toast of a failure says.
  abbrev pub toast : Outcome Json → Text
  toast (done j) = []
  toast (thrown e) = text_of (get_error_message native e)

  abbrev pub is_done : Outcome Json → Bool
  is_done (done j) = true
  is_done (thrown e) = false

  module _ (writes : (t : Text) → text_of (string t) ≡ t) where
    starts_self : (s t : Text) → starts_with (s ++ t) s ≡ true
    starts_self [] t = starts_nil t
    starts_self (c ∷ s) t = ground (arith, starts_self s t)

    -- The second step fails with the words in front, if it fails.
    second_toast :
        (o : Outcome Json) (s : Json)
        → is_done (or_created_but o >> done s) ≡ false
        → starts_with (toast (or_created_but o >> done s)) created_but ≡ true
    unfolding or_created_but get_error_message
    second_toast (done j) s h = cc
    second_toast (thrown e) s h =
        ap (λ t. starts_with t created_but)
          (writes (created_but ++ text_of (get_error_message native e)))
        ∙ starts_self created_but (text_of (get_error_message native e))

    steps_toast :
        (o : Outcome Json) (upsert : Json → Outcome Json) (b : Json → Bool)
        → starts_with (toast o) created_but ≡ false
        → let all = o >>= λ s. if b s then or_created_but (upsert s) >> done s else done s in
          is_done all ≡ false → starts_with (toast all) created_but ≡ is_done o
    steps_toast (thrown e) upsert b k h = k
    steps_toast (done s) upsert b k h = elim (Bool-cases (b s)) [
      | inl e ↦ rw e (second_toast (upsert s) s (rw e at h))
      | inr e ↦ cc (rw e at h)
    ]

    -- A creation that fails says that the service was created exactly if it was, provided that no
    -- error of the creation of the record itself begins with these words.
    pub create_instance-toast :
        (sdk : Sdk) (pb : Client) (fetch : Fetch) (data_ : ServiceData) (password : Text)
        → is_done (create_instance sdk pb fetch data_ password) ≡ false
        → starts_with (toast (create_service_instance sdk data_)) created_but ≡ false
        → starts_with (toast (create_instance sdk pb fetch data_ password)) created_but
          ≡ is_done (create_service_instance sdk data_)
    unfolding create_instance
    create_instance-toast sdk pb fetch data_ password h k =
        steps_toast (create_service_instance sdk data_)
          (λ s. upsert_superuser pb fetch (id_of s) (some password))
          (λ s. is_truthy password && is_truthy (id_of s)) k h
