-- ===== src/Http.antt =====
-- What the services under ui/src/services share: the request that a call of `fetch` makes, the
-- response that comes back, and the error that a call throws (ui/src/services/client/errors.tsx).
-- `fetch` itself is a parameter of every operation: `none` stands for a call that rejects.
pub mod Values
use pb_launcher.Prelude.{
  ℕ, Text, codes, List, [], ◌∷◌, Bool, true, false, ◌&&◌, Option, none, some, leb, text_eq,
  if◌then◌else◌,
}
use pb_launcher.Http.Values.{Json, Items, Fields, null, string, array, field_of, is_truthy}
use pb_launcher.Url.{join_urls}

pub data Method : Type 0 where
  get post put patch delete : Method

-- The values of a `FormData`: texts and files.
pub data FormValue : Type 0 where
  form_text : Text → FormValue
  form_file : Text → FormValue

pub data Body : Type 0 where
  no_body : Body
  json_body : Json → Body
  form_body : List (Text × FormValue) → Body

pub record Request : Type 0 where
  pub method : Method
  pub url : Text
  pub authorization : Option Text
  pub content_type : Option Text
  pub body : Body

-- `body` is what `response.json()` gives, `none` where it rejects.
pub record Response : Type 0 where
  pub status : ℕ
  pub body : Option Json
  pub content_disposition : Option Text
  pub blob : List ℕ

-- `response.ok`
abbrev pub is_ok : Response → Bool
is_ok r = leb 200 r.status && leb r.status 299

abbrev pub Fetch : Type 0
Fetch = Request → Option Response

-- What a call may throw: an `HttpError`, an `Error` with a message, the rejection of `fetch`, that of
-- `response.json()`, or the error of reading a field of null.
pub data Thrown : Type 0 where
  http_error : ℕ → Json → Json → Thrown
  plain_error : Json → Thrown
  network_error : Thrown
  type_error : Thrown
  syntax_error : Thrown

pub data Outcome {ℓ} (A : Type ℓ) : Type ℓ where
  done : A → Outcome A
  thrown : Thrown → Outcome A

infixl 5 ◌>>=◌ ◌>>◌
abbrev pub ◌>>=◌ {ℓ κ} : {A : Type ℓ} {B : Type κ} → Outcome A → (A → Outcome B) → Outcome B
done a >>= f = f a
thrown e >>= f = thrown e

abbrev pub ◌>>◌ {ℓ κ} : {A : Type ℓ} {B : Type κ} → Outcome A → Outcome B → Outcome B
m >> n = m >>= λ _. n

-- `await fetch(...)`
unfoldable pub await_fetch : Fetch → Request → Outcome Response
await_fetch fetch r = elim (fetch r) [ none ↦ thrown network_error | some s ↦ done s ]

-- `await response.json()`
unfoldable pub await_json : Response → Outcome Json
await_json r = elim r.body [ none ↦ thrown syntax_error | some j ↦ done j ]

-- `await response.json().catch(() => null)`
unfoldable pub json_or_null : Response → Json
json_or_null r = elim r.body [ none ↦ null | some j ↦ j ]

-- `json?.message || fallback`
unfoldable pub message_or : Json → Text → Json
message_or j fallback =
    let m = field_of j (codes "message") in if is_truthy m then m else string fallback

-- `if (!response.ok) throw new HttpError(response.status, json?.message || fallback, json)`
unfoldable pub require_ok : Response → Json → Text → Outcome (Unit {0})
require_ok r j fallback =
    if is_ok r then done tt else thrown (http_error r.status (message_or j fallback) j)

-- `Array.isArray(json) ? json : []`
unfoldable pub array_or_empty : Json → Items
array_or_empty (array xs) = xs
array_or_empty j = Items.nil

-- `pb.baseURL` and `pb.authStore.token` of the PocketBase client.
pub record Client : Type 0 where
  pub base_url : Text
  pub token : Text

-- `joinUrls(pb.baseURL, path)`
abbrev pub url_for : Client → Text → Text
url_for pb path = join_urls (pb.base_url ∷ path ∷ [])

abbrev pub json_type : Option Text
json_type = some (codes "application/json")
