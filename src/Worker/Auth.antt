-- ===== src/Worker/Auth.antt =====
-- worker/auth/client.py: AuthClient, which falls back to made-up contacts.
use notification_service_kaf.Prelude.{ℕ, String, cat, Option, none, some, Bool, true, if◌then◌else◌}
use notification_service_kaf.Schemas.{
  Json, null, bool, number, text, array, object, get_member, is_blank,
}
use notification_service_kaf.Runtime.{
  attribute_error, is_exception, Worker, HttpReply, failed, answered,
}
use notification_service_kaf.Runtime.Monad.{Action, pure, raise, tick}

-- class UserContacts. A contact is what the JSON held; None is `null`.
pub record UserContacts : Type 0 where
  pub user_id : ℕ
  pub email : Json
  pub push_token : Json
  pub ws_session_id : Json

unfoldable pub fake_contacts : Worker → ℕ → UserContacts
fake_contacts k user = record {
  user_id = user;
  email = text (cat "user-" (cat (k.libs.uuid_text user) "@example.com"));
  push_token = text (cat "push-" (k.libs.uuid_text user));
  ws_session_id = text (cat "ws-" (k.libs.uuid_text user));
}

-- `not settings.auth_base_url`
abbrev pub is_unset : Option String → Bool
is_unset none = true
is_unset (some url) = is_blank url

abbrev pub no_get : {A : Type 0} → String → Action A
no_get type = raise (attribute_error (cat "'" (cat type "' object has no attribute 'get'")))

-- The contacts in the body; a body that is no object has no `get`.
abbrev pub contacts_of : ℕ → Json → Action UserContacts
contacts_of user (object ms) = pure (record {
  user_id = user;
  email = get_member "email" ms;
  push_token = get_member "push_token" ms;
  ws_session_id = get_member "ws_session_id" ms;
})
contacts_of user null = no_get "NoneType"
contacts_of user (bool b) = no_get "bool"
contacts_of user (number s z) = no_get "number"
contacts_of user (text s) = no_get "str"
contacts_of user (array xs) = no_get "list"

abbrev pub read_reply : Worker → ℕ → HttpReply → Action UserContacts
read_reply k user (failed e) = if is_exception e then pure (fake_contacts k user) else raise e
read_reply k user (answered body) = contacts_of user body

-- The GET of `{auth_base_url}/api/v1/users/{user_id}`.
abbrev pub fetch_contacts : Worker → ℕ → Action UserContacts
fetch_contacts k user w = read_reply k user (k.env.auth_reply w.calls) (tick k w)

unfoldable pub get_user_contacts : Worker → ℕ → Action UserContacts
get_user_contacts k user =
    if is_unset k.settings.auth_base_url
    then pure (fake_contacts k user)
    else if k.has_http
    then fetch_contacts k user
    else pure (fake_contacts k user)
