-- ===== src/Endpoints/Servers.antt =====
-- client.ts: servers, channels, overrides, roles, invites, webhooks and audit logs.
use together.Base.{ℕ, String, Option, [], ◌∷◌, ◌++◌}
use together.Endpoints.{
  Request, fixed, value, ask, get, post, patch, put, delete, given, text_param, number_param,
}

module _ {ℓ} {D : Type ℓ} where
  abbrev pub create_server : (payload : D) → Request D
  create_server payload = record (ask post (fixed "servers" ∷ [])) { body = given payload }

  abbrev pub list_servers : Request D
  list_servers = ask get (fixed "servers" ∷ [])

  abbrev pub get_server : (id : String) → Request D
  get_server id = ask get (fixed "servers" ∷ value id ∷ [])

  abbrev pub update_server : (id : String) (payload : D) → Request D
  update_server id payload = record (ask patch (fixed "servers" ∷ value id ∷ [])) {
    body = given payload;
  }

  abbrev pub delete_server : (id : String) → Request D
  delete_server id = ask delete (fixed "servers" ∷ value id ∷ [])

  abbrev pub join_server : (id : String) → Request D
  join_server id = ask post (fixed "servers" ∷ value id ∷ fixed "join" ∷ [])

  abbrev pub leave_server : (id : String) → Request D
  leave_server id = ask delete (fixed "servers" ∷ value id ∷ fixed "leave" ∷ [])

  abbrev pub browse_servers : Request D
  browse_servers = ask get (fixed "servers" ∷ fixed "browse" ∷ [])

  abbrev pub list_templates : Request D
  list_templates = ask get (fixed "server-templates" ∷ [])

  abbrev pub list_members : (server_id : String) → Request D
  list_members server_id = ask get (fixed "servers" ∷ value server_id ∷ fixed "members" ∷ [])

  abbrev pub create_channel : (server_id : String) (payload : D) → Request D
  create_channel server_id payload =
      record (ask post (fixed "servers" ∷ value server_id ∷ fixed "channels" ∷ [])) {
        body = given payload;
      }

  abbrev pub list_channels : (server_id : String) → Request D
  list_channels server_id = ask get (fixed "servers" ∷ value server_id ∷ fixed "channels" ∷ [])

  abbrev pub get_channel : (server_id : String) (channel_id : String) → Request D
  get_channel server_id channel_id =
      ask get (fixed "servers" ∷ value server_id ∷ fixed "channels" ∷ value channel_id ∷ [])

  abbrev pub update_channel : (server_id : String) (channel_id : String) (payload : D) → Request D
  update_channel server_id channel_id payload =
      record (ask patch
        (fixed "servers" ∷ value server_id ∷ fixed "channels" ∷ value channel_id ∷ [])) {
          body = given payload;
        }

  abbrev pub delete_channel : (server_id : String) (channel_id : String) → Request D
  delete_channel server_id channel_id =
      ask delete (fixed "servers" ∷ value server_id ∷ fixed "channels" ∷ value channel_id ∷ [])

  abbrev pub list_channel_overrides : (channel_id : String) → Request D
  list_channel_overrides channel_id =
      ask get (fixed "channels" ∷ value channel_id ∷ fixed "overrides" ∷ [])

  abbrev pub set_channel_override : (channel_id : String) (payload : D) → Request D
  set_channel_override channel_id payload =
      record (ask put (fixed "channels" ∷ value channel_id ∷ fixed "overrides" ∷ [])) {
        body = given payload;
      }

  abbrev pub delete_channel_override : (channel_id : String) (override_id : String) → Request D
  delete_channel_override channel_id override_id =
      ask delete (fixed "channels" ∷ value channel_id ∷ fixed "overrides" ∷ value override_id ∷ [])

  abbrev pub list_invites : (server_id : String) → Request D
  list_invites server_id = ask get (fixed "servers" ∷ value server_id ∷ fixed "invites" ∷ [])

  abbrev pub create_invite : (server_id : String) (payload : D) → Request D
  create_invite server_id payload =
      record (ask post (fixed "servers" ∷ value server_id ∷ fixed "invites" ∷ [])) {
        body = given payload;
      }

  abbrev pub delete_invite : (server_id : String) (invite_id : String) → Request D
  delete_invite server_id invite_id =
      ask delete (fixed "servers" ∷ value server_id ∷ fixed "invites" ∷ value invite_id ∷ [])

  abbrev pub preview_invite : (code : String) → Request D
  preview_invite code = ask get (fixed "invites" ∷ value code ∷ [])

  abbrev pub accept_invite : (code : String) → Request D
  accept_invite code = ask post (fixed "invites" ∷ value code ∷ fixed "accept" ∷ [])

  abbrev pub list_webhooks : (server_id : String) → Request D
  list_webhooks server_id = ask get (fixed "servers" ∷ value server_id ∷ fixed "webhooks" ∷ [])

  abbrev pub create_webhook : (server_id : String) (payload : D) → Request D
  create_webhook server_id payload =
      record (ask post (fixed "servers" ∷ value server_id ∷ fixed "webhooks" ∷ [])) {
        body = given payload;
      }

  abbrev pub update_webhook : (server_id : String) (webhook_id : String) (payload : D) → Request D
  update_webhook server_id webhook_id payload =
      record (ask patch
        (fixed "servers" ∷ value server_id ∷ fixed "webhooks" ∷ value webhook_id ∷ [])) {
          body = given payload;
        }

  abbrev pub delete_webhook : (server_id : String) (webhook_id : String) → Request D
  delete_webhook server_id webhook_id =
      ask delete (fixed "servers" ∷ value server_id ∷ fixed "webhooks" ∷ value webhook_id ∷ [])

  abbrev pub test_webhook : (server_id : String) (webhook_id : String) → Request D
  test_webhook server_id webhook_id =
      ask post (
        fixed "servers" ∷ value server_id ∷ fixed "webhooks" ∷ value webhook_id ∷ fixed "test" ∷ [])

  abbrev pub get_audit_logs :
      (server_id : String) (action : Option String) (actor_id : Option String)
      (target_type : Option String) (before : Option String) (limit : Option ℕ)
      → Request D
  get_audit_logs server_id action actor_id target_type before limit =
      record (ask get (fixed "servers" ∷ value server_id ∷ fixed "audit-logs" ∷ [])) {
        query =
            text_param "action" action
            ++ text_param "actor_id" actor_id
            ++ text_param "target_type" target_type
            ++ text_param "before" before
            ++ number_param "limit" limit;
      }

  abbrev pub list_roles : (server_id : String) → Request D
  list_roles server_id = ask get (fixed "servers" ∷ value server_id ∷ fixed "roles" ∷ [])

  abbrev pub create_role : (server_id : String) (payload : D) → Request D
  create_role server_id payload =
      record (ask post (fixed "servers" ∷ value server_id ∷ fixed "roles" ∷ [])) {
        body = given payload;
      }

  abbrev pub update_role : (server_id : String) (role_id : String) (payload : D) → Request D
  update_role server_id role_id payload =
      record (ask patch (fixed "servers" ∷ value server_id ∷ fixed "roles" ∷ value role_id ∷ [])) {
        body = given payload;
      }

  abbrev pub delete_role : (server_id : String) (role_id : String) → Request D
  delete_role server_id role_id =
      ask delete (fixed "servers" ∷ value server_id ∷ fixed "roles" ∷ value role_id ∷ [])

  abbrev pub assign_role : (server_id : String) (user_id : String) (role_id : String) → Request D
  assign_role server_id user_id role_id = ask put (
      fixed "servers"
      ∷ value server_id
      ∷ fixed "members"
      ∷ value user_id
      ∷ fixed "roles"
      ∷ value role_id
      ∷ [])

  abbrev pub remove_role : (server_id : String) (user_id : String) (role_id : String) → Request D
  remove_role server_id user_id role_id = ask delete (
      fixed "servers"
      ∷ value server_id
      ∷ fixed "members"
      ∷ value user_id
      ∷ fixed "roles"
      ∷ value role_id
      ∷ [])
