-- ===== src/PermissionEditors.antt =====
-- The forms that edit permission masks: clients/web/src/components/channels/ChannelPermissions.tsx, the overrides of a
-- channel, and the switches of clients/web/src/components/servers/RoleEditor.tsx.
pub mod Switches
use together.Base.{
  ℕ, String, Bool, true, false, not, Option, none, some, List, [], ◌∷◌, ◌++◌, find, has_id,
  update_id, remove_id, if◌then◌else◌, eqb, truthy, is_id, Reply, ok, failed, Failure,
}
use together.Bits.{or32, and32, not32, xor32}
use together.Types.Community.{ChannelPermissionOverride}
use together.Types.Permissions.{mask, administrator}
use together.Roles.{override_id}

pub data TriState : Type 0 where
  inherit allow deny : TriState

pub record EditorState : Type 0 where
  pub selected_role_id : Option String
  pub overrides : List ChannelPermissionOverride
  pub local_allow : ℕ
  pub local_deny : ℕ
  pub is_loading : Bool
  pub is_saving : Bool
  pub error : String

abbrev pub opened : EditorState
opened = record {
  selected_role_id = none;
  overrides = [];
  local_allow = 0;
  local_deny = 0;
  is_loading = true;
  is_saving = false;
  error = "";
}

abbrev pub override_of : EditorState → Option ChannelPermissionOverride
override_of s = elim s.selected_role_id [
  | none ↦ none
  | some role ↦ find (λ o. is_id o.role_id role) s.overrides
]

abbrev pub with_masks : Option ChannelPermissionOverride → EditorState → EditorState
with_masks none s = record s { local_allow = 0; local_deny = 0 }
with_masks (some o) s = record s { local_allow = o.allow; local_deny = o.deny }

-- The effect that runs when the selected role or the overrides change.
unfoldable pub load_override : EditorState → EditorState
load_override s =
    if truthy s.selected_role_id
    then with_masks (override_of s) s
    else record s { local_allow = 0; local_deny = 0 }

unfoldable pub select_role : String → EditorState → EditorState
unfolding load_override
select_role role_id s = load_override (record s { selected_role_id = some role_id })

unfoldable pub get_tri_state : ℕ → EditorState → TriState
get_tri_state bit s =
    if not (eqb (and32 s.local_allow bit) 0)
    then allow
    else if not (eqb (and32 s.local_deny bit) 0)
    then deny
    else inherit

unfoldable pub set_tri_state : ℕ → TriState → EditorState → EditorState
set_tri_state bit allow s = record s {
  local_allow = or32 s.local_allow bit;
  local_deny = and32 s.local_deny (not32 bit);
}
set_tri_state bit deny s = record s {
  local_allow = and32 s.local_allow (not32 bit);
  local_deny = or32 s.local_deny bit;
}
set_tri_state bit inherit s = record s {
  local_allow = and32 s.local_allow (not32 bit);
  local_deny = and32 s.local_deny (not32 bit);
}

-- `message` is `err instanceof Error ? err.message : fallback`.
module _ (message : Failure → String → String) where
  pub load_overrides : Reply (List ChannelPermissionOverride) → EditorState → EditorState
  load_overrides (ok list) s = load_override (record s { overrides = list; is_loading = false })
  load_overrides (failed err) s = record s {
    error = message err "Failed to load overrides";
    is_loading = false;
  }

  -- The request that `handleSave` makes is answered with the override that the server holds then.
  unfoldable pub handle_save : Reply ChannelPermissionOverride → EditorState → EditorState
  unfolding load_override
  handle_save reply s =
      if truthy s.selected_role_id
      then elim reply [
        | ok result ↦ load_override (record s {
          overrides =
              if has_id override_id result.id s.overrides
              then update_id override_id result.id (λ _. result) s.overrides
              else s.overrides ++ result ∷ [];
          is_saving = false;
          error = "";
        })
        | failed err ↦ record s { is_saving = false; error = message err "Failed to save override" }
      ]
      else s

  unfoldable pub handle_reset : Reply (Unit {0}) → EditorState → EditorState
  unfolding load_override
  handle_reset reply s =
      if truthy s.selected_role_id
      then elim (override_of s) [
        | none ↦ record s { local_allow = 0; local_deny = 0 }
        | some existing ↦ elim reply [
          | ok _ ↦ load_override (record s {
            overrides = remove_id override_id existing.id s.overrides;
            local_allow = 0;
            local_deny = 0;
            is_saving = false;
            error = "";
          })
          | failed err ↦ record s {
            is_saving = false;
            error = message err "Failed to remove override";
          }
        ]
      ]
      else s

-- `togglePerm` of RoleEditor, on the mask that it edits.
unfoldable pub toggle_perm : ℕ → ℕ → ℕ
toggle_perm bit permissions =
    if eqb bit (mask administrator)
    then (if not (eqb (and32 permissions (mask administrator)) 0)
        then and32 permissions (not32 (mask administrator))
        else or32 permissions (mask administrator))
    else xor32 permissions bit
