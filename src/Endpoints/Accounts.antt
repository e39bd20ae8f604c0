-- ===== src/Endpoints/Accounts.antt =====
-- client.ts: sign-in, users, passwords and administration.
use together.Base.{ℕ, String, true, Option, [], ◌∷◌, ◌++◌}
use together.Endpoints.{
  Request, fixed, value, ask, get, post, patch, delete, given, object, text_param, number_param,
}

module _ {ℓ} {D : Type ℓ} where
  abbrev pub register : (payload : D) → Request D
  register payload = record (ask post (fixed "auth" ∷ fixed "register" ∷ [])) {
    body = given payload;
    skip_refresh = true;
  }

  abbrev pub login : (payload : D) → Request D
  login payload = record (ask post (fixed "auth" ∷ fixed "login" ∷ [])) {
    body = given payload;
    skip_refresh = true;
  }

  abbrev pub get_current_user : Request D
  get_current_user = ask get (fixed "users" ∷ fixed "@me" ∷ [])

  abbrev pub update_current_user : (payload : D) → Request D
  update_current_user payload = record (ask patch (fixed "users" ∷ fixed "@me" ∷ [])) {
    body = given payload;
  }

  abbrev pub get_user_profile : (user_id : String) → Request D
  get_user_profile user_id = ask get (fixed "users" ∷ value user_id ∷ [])

  abbrev pub forgot_password : (email : String) → Request D
  forgot_password email = record (ask post (fixed "auth" ∷ fixed "forgot-password" ∷ [])) {
    body = object (("email", email) ∷ []);
  }

  abbrev pub reset_password : (payload : D) → Request D
  reset_password payload = record (ask post (fixed "auth" ∷ fixed "reset-password" ∷ [])) {
    body = given payload;
  }

  abbrev pub get_admin_stats : Request D
  get_admin_stats = ask get (fixed "admin" ∷ fixed "stats" ∷ [])

  abbrev pub get_admin_users :
      (page : Option ℕ) (per_page : Option ℕ) (search_text : Option String)
      (sort_by : Option String)
      → Request D
  get_admin_users page per_page search_text sort_by =
      record (ask get (fixed "admin" ∷ fixed "users" ∷ [])) {
        query =
            number_param "page" page
            ++ number_param "per_page" per_page
            ++ text_param "search" search_text
            ++ text_param "sort_by" sort_by;
      }

  abbrev pub update_admin_user : (user_id : String) (payload : D) → Request D
  update_admin_user user_id payload =
      record (ask patch (fixed "admin" ∷ fixed "users" ∷ value user_id ∷ [])) {
        body = given payload;
      }

  abbrev pub delete_admin_user : (user_id : String) → Request D
  delete_admin_user user_id = ask delete (fixed "admin" ∷ fixed "users" ∷ value user_id ∷ [])

  abbrev pub get_admin_servers :
      (page : Option ℕ) (per_page : Option ℕ) (search_text : Option String)
      (sort_by : Option String)
      → Request D
  get_admin_servers page per_page search_text sort_by =
      record (ask get (fixed "admin" ∷ fixed "servers" ∷ [])) {
        query =
            number_param "page" page
            ++ number_param "per_page" per_page
            ++ text_param "search" search_text
            ++ text_param "sort_by" sort_by;
      }

  abbrev pub delete_admin_server : (server_id : String) → Request D
  delete_admin_server server_id =
      ask delete (fixed "admin" ∷ fixed "servers" ∷ value server_id ∷ [])

  abbrev pub get_admin_settings : Request D
  get_admin_settings = ask get (fixed "admin" ∷ fixed "settings" ∷ [])

  abbrev pub update_admin_settings : (payload : D) → Request D
  update_admin_settings payload = record (ask patch (fixed "admin" ∷ fixed "settings" ∷ [])) {
    body = given payload;
  }

  abbrev pub get_registration_mode : Request D
  get_registration_mode = record (ask get (fixed "instance" ∷ fixed "registration-mode" ∷ [])) {
    skip_refresh = true;
  }
