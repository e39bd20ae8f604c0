-- ===== src/Endpoints/Delivery/Table.antt =====
-- client.ts: the methods, each with the handler of the server that is meant (server/src/main.rs), and with what
-- it is meant to get of the path, in the order of its parameters.
use together.Base.{ℕ, String, Option, List, [], ◌∷◌}
use together.Endpoints.{Request}
use together.Endpoints.Accounts.{
  register, login, get_current_user, update_current_user, get_user_profile, forgot_password,
  reset_password, get_admin_stats, get_admin_users, update_admin_user, delete_admin_user,
  get_admin_servers, delete_admin_server, get_admin_settings, update_admin_settings,
  get_registration_mode,
}
use together.Endpoints.Servers.{
  create_server, list_servers, get_server, update_server, delete_server, join_server, leave_server,
  browse_servers, list_templates, list_members, create_channel, list_channels, get_channel,
  update_channel, delete_channel, list_channel_overrides, set_channel_override,
  delete_channel_override, list_invites, create_invite, delete_invite, preview_invite,
  accept_invite, list_webhooks, create_webhook, update_webhook, delete_webhook, test_webhook,
  get_audit_logs, list_roles, create_role, update_role, delete_role, assign_role, remove_role,
}

-- What the methods are called with.
pub record Arguments {ℓ} (D : Type ℓ) : Type ℓ where
  pub action : Option String
  pub actor_id : Option String
  pub before : Option String
  pub bot_id : String
  pub channel_id : String
  pub code : String
  pub content : String
  pub email : String
  pub emoji : String
  pub emoji_id : String
  pub file : D
  pub files : List D
  pub invite_id : String
  pub limit : Option ℕ
  pub message_id : String
  pub name : String
  pub only_channel_id : Option String
  pub option_id : String
  pub optional_payload : Option D
  pub override_id : String
  pub page : Option ℕ
  pub payload : D
  pub per_page : Option ℕ
  pub poll_id : String
  pub q : String
  pub role_id : String
  pub search_text : Option String
  pub server_id : String
  pub sort_by : Option String
  pub target_type : Option String
  pub url : String
  pub user_id : String
  pub webhook_id : String
  pub word : String

pub record Sent {ℓ} (D : Type ℓ) : Type ℓ where
  pub handler : String
  pub request : Request D
  pub params : List String

module _ {ℓ} {D : Type ℓ} where
  abbrev pub sent : String → Request D → List String → Sent D
  sent handler request params = record { handler = handler; request = request; params = params }

  abbrev pub account_calls : Arguments D → List (Sent D)
  account_calls a =
      sent "auth::register" (register a.payload) []
      ∷ sent "auth::login" (login a.payload) []
      ∷ sent "users::get_current_user" get_current_user []
      ∷ sent "users::update_current_user" (update_current_user a.payload) []
      ∷ sent "users::get_user_profile" (get_user_profile a.user_id) (a.user_id ∷ [])
      ∷ sent "auth::forgot_password" (forgot_password a.email) []
      ∷ sent "auth::reset_password" (reset_password a.payload) []
      ∷ sent "admin::get_stats" get_admin_stats []
      ∷ sent "admin::list_users" (get_admin_users a.page a.per_page a.search_text a.sort_by) []
      ∷ sent "admin::update_user" (update_admin_user a.user_id a.payload) (a.user_id ∷ [])
      ∷ sent "admin::delete_user" (delete_admin_user a.user_id) (a.user_id ∷ [])
      ∷ sent "admin::list_servers" (get_admin_servers a.page a.per_page a.search_text a.sort_by) []
      ∷ sent "admin::delete_server" (delete_admin_server a.server_id) (a.server_id ∷ [])
      ∷ sent "admin::get_settings" get_admin_settings []
      ∷ sent "admin::update_settings" (update_admin_settings a.payload) []
      ∷ sent "auth::get_registration_mode" get_registration_mode []
      ∷ []

  abbrev pub server_calls : Arguments D → List (Sent D)
  server_calls a =
      sent "servers::create_server" (create_server a.payload) []
      ∷ sent "servers::list_servers" list_servers []
      ∷ sent "servers::get_server" (get_server a.server_id) (a.server_id ∷ [])
      ∷ sent "servers::update_server" (update_server a.server_id a.payload) (a.server_id ∷ [])
      ∷ sent "servers::delete_server" (delete_server a.server_id) (a.server_id ∷ [])
      ∷ sent "servers::join_server" (join_server a.server_id) (a.server_id ∷ [])
      ∷ sent "servers::leave_server" (leave_server a.server_id) (a.server_id ∷ [])
      ∷ sent "servers::browse_servers" browse_servers []
      ∷ sent "templates::list_templates" list_templates []
      ∷ sent "servers::list_members" (list_members a.server_id) (a.server_id ∷ [])
      ∷ sent "channels::create_channel" (create_channel a.server_id a.payload) (a.server_id ∷ [])
      ∷ sent "channels::list_channels" (list_channels a.server_id) (a.server_id ∷ [])
      ∷ sent "channels::get_channel" (get_channel a.server_id a.channel_id)
          (a.server_id ∷ a.channel_id ∷ [])
      ∷ sent "channels::update_channel" (update_channel a.server_id a.channel_id a.payload)
          (a.server_id ∷ a.channel_id ∷ [])
      ∷ sent "channels::delete_channel" (delete_channel a.server_id a.channel_id)
          (a.server_id ∷ a.channel_id ∷ [])
      ∷ sent "channel_overrides::list_overrides" (list_channel_overrides a.channel_id)
          (a.channel_id ∷ [])
      ∷ sent "channel_overrides::set_override" (set_channel_override a.channel_id a.payload)
          (a.channel_id ∷ [])
      ∷ sent "channel_overrides::delete_override"
          (delete_channel_override a.channel_id a.override_id) (a.channel_id ∷ a.override_id ∷ [])
      ∷ sent "invites::list_invites" (list_invites a.server_id) (a.server_id ∷ [])
      ∷ sent "invites::create_invite" (create_invite a.server_id a.payload) (a.server_id ∷ [])
      ∷ sent "invites::delete_invite" (delete_invite a.server_id a.invite_id)
          (a.server_id ∷ a.invite_id ∷ [])
      ∷ sent "invites::preview_invite" (preview_invite a.code) (a.code ∷ [])
      ∷ sent "invites::accept_invite" (accept_invite a.code) (a.code ∷ [])
      ∷ sent "webhooks::list_webhooks" (list_webhooks a.server_id) (a.server_id ∷ [])
      ∷ sent "webhooks::create_webhook" (create_webhook a.server_id a.payload) (a.server_id ∷ [])
      ∷ sent "webhooks::update_webhook" (update_webhook a.server_id a.webhook_id a.payload)
          (a.server_id ∷ a.webhook_id ∷ [])
      ∷ sent "webhooks::delete_webhook" (delete_webhook a.server_id a.webhook_id)
          (a.server_id ∷ a.webhook_id ∷ [])
      ∷ sent "webhooks::test_webhook" (test_webhook a.server_id a.webhook_id)
          (a.server_id ∷ a.webhook_id ∷ [])
      ∷ sent "audit::list_audit_logs"
          (get_audit_logs a.server_id a.action a.actor_id a.target_type a.before a.limit)
          (a.server_id ∷ [])
      ∷ sent "roles::list_roles" (list_roles a.server_id) (a.server_id ∷ [])
      ∷ sent "roles::create_role" (create_role a.server_id a.payload) (a.server_id ∷ [])
      ∷ sent "roles::update_role" (update_role a.server_id a.role_id a.payload)
          (a.server_id ∷ a.role_id ∷ [])
      ∷ sent "roles::delete_role" (delete_role a.server_id a.role_id) (a.server_id ∷ a.role_id ∷ [])
      ∷ sent "roles::assign_role" (assign_role a.server_id a.user_id a.role_id)
          (a.server_id ∷ a.user_id ∷ a.role_id ∷ [])
      ∷ sent "roles::remove_role" (remove_role a.server_id a.user_id a.role_id)
          (a.server_id ∷ a.user_id ∷ a.role_id ∷ [])
      ∷ []
