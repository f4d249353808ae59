-- ===== src/Services/Laws/Reported.antt =====
-- What a call tells of a response that is not ok, read from its body, and the error that
-- ui/src/services/client/errors.tsx makes of it.
use pb_launcher.Prelude.{
  ℕ, zero, suc, Text, codes, [], ◌∷◌, true, false, Option, none, some, text_eq, ◌==◌, ◌≡◌, refl, ap,
  ◌∙◌, arith, Bool-cases, inl, inr, if◌then◌else◌,
}
use pb_launcher.Prelude.Int.{pos, negsuc}
use pb_launcher.Http.{Response, Outcome, thrown, http_error, json_or_null, message_or}
use pb_launcher.Http.Values.{
  Json, Fields, end, field, null, undefined, boolean, number, string, array, object, lookup_field,
  is_truthy,
}

-- What is told of a message: a text, a number or another value that is not empty stands for itself,
-- and anything else for the message of the call.
abbrev pub told_of : Text → Json → Json
told_of fallback (string (c ∷ t)) = string (c ∷ t)
told_of fallback (number (pos (suc n))) = number (pos (suc n))
told_of fallback (number (negsuc n)) = number (negsuc n)
told_of fallback (boolean true) = boolean true
told_of fallback (array xs) = array xs
told_of fallback (object fs) = object fs
told_of fallback _ = string fallback

-- What the field `message` of an object tells.
abbrev pub message_in : Text → Fields → Json
message_in fallback end = string fallback
message_in fallback (field name v fs) =
    let rest = message_in fallback fs in
    if text_eq name (codes "message") then told_of fallback v else rest

-- What a body tells: the message that it has, if it is a JSON object.
abbrev pub told_message : Option Json → Text → Json
told_message (some (object fs)) fallback = message_in fallback fs
told_message _ fallback = string fallback

-- The body as it was sent, and null where it is no JSON.
abbrev pub told_body : Option Json → Json
told_body none = null
told_body (some j) = j

-- The call throws the HTTP error of the response, with the server's message or the given one.
abbrev pub Reports {ℓ} : {A : Type ℓ} → Response → Text → Outcome A → Type ℓ
Reports r fallback m =
    m ≡ thrown (http_error r.status (told_message r.body fallback) (told_body r.body))

suc_not_zero : (n : ℕ) → (suc n == 0) ≡ false
suc_not_zero n = ground arith

told_of_lem :
    (fallback : Text) (j : Json) → (if is_truthy j then j else string fallback) ≡ told_of fallback j
told_of_lem fallback null = refl
told_of_lem fallback undefined = refl
told_of_lem fallback (boolean true) = refl
told_of_lem fallback (boolean false) = refl
told_of_lem fallback (number (pos zero)) = refl
told_of_lem fallback (number (pos (suc n))) = rw (suc_not_zero n) refl
told_of_lem fallback (number (negsuc n)) = refl
told_of_lem fallback (string []) = refl
told_of_lem fallback (string (c ∷ t)) = refl
told_of_lem fallback (array xs) = refl
told_of_lem fallback (object fs) = refl

message_in_lem :
    (fallback : Text) (fs : Fields)
    → told_of fallback (lookup_field fs (codes "message")) ≡ message_in fallback fs
message_in_lem fallback end = refl
message_in_lem fallback (field name v fs) = elim (Bool-cases (text_eq name (codes "message"))) [
  | inl e ↦ rw e refl
  | inr e ↦ rw e (message_in_lem fallback fs)
]

message_or-told :
    (body : Option Json) (fallback : Text)
    → message_or (told_body body) fallback ≡ told_message body fallback
unfolding message_or
message_or-told none fallback = refl
message_or-told (some null) fallback = refl
message_or-told (some undefined) fallback = refl
message_or-told (some (boolean b)) fallback = refl
message_or-told (some (number n)) fallback = refl
message_or-told (some (string t)) fallback = refl
message_or-told (some (array xs)) fallback = refl
message_or-told (some (object fs)) fallback =
    told_of_lem fallback (lookup_field fs (codes "message")) ∙ message_in_lem fallback fs

json_or_null-told : (r : Response) → json_or_null r ≡ told_body r.body
unfolding json_or_null
json_or_null-told r = go r.body
  where
    go : (b : Option Json) → (elim b [ none ↦ null | some j ↦ j ]) ≡ told_body b
    go none = refl
    go (some j) = refl

-- The error that the code makes of the response.
pub reported {ℓ} :
    {A : Type ℓ} (r : Response) (fallback : Text) (m : Outcome A)
    → m ≡ thrown (http_error r.status (message_or (json_or_null r) fallback) (json_or_null r))
    → Reports r fallback m
reported r fallback m e =
    e
    ∙ ap (λ j. thrown (http_error r.status (message_or j fallback) j)) (json_or_null-told r)
    ∙ ap (λ k. thrown (http_error r.status k (told_body r.body))) (message_or-told r.body fallback)
