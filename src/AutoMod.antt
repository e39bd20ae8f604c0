-- ===== src/AutoMod.antt =====
-- clients/web/src/stores/autoModStore.ts: the settings of auto-moderation, its words and its log. The identifier and the time of
-- a log entry that arrives over the gateway come from the browser and are arguments.
pub mod RecentLog
use together.Base.{
  ℕ, zero, suc, String, Bool, true, false, Option, none, some, List, [], ◌∷◌, ◌++◌, remove_id, take,
  Reply, ok, failed, describe, Outcome, returned, thrown,
}

pub data AutoModAction : Type 0 where
  delete timeout kick ban : AutoModAction

pub record AutoModConfig : Type 0 where
  pub server_id : String
  pub enabled : Bool
  pub spam_enabled : Bool
  pub spam_max_messages : ℕ
  pub spam_window_secs : ℕ
  pub spam_action : AutoModAction
  pub duplicate_enabled : Bool
  pub word_filter_enabled : Bool
  pub word_filter_action : AutoModAction
  pub timeout_minutes : ℕ
  pub updated_at : String

pub record AutoModWordFilter : Type 0 where
  pub id : String
  pub server_id : String
  pub word : String
  pub created_by : Option String
  pub created_at : String

pub record AutoModLog : Type 0 where
  pub id : String
  pub server_id : String
  pub channel_id : Option String
  pub user_id : Option String
  pub username : Option String
  pub rule_type : String
  pub action_taken : String
  pub matched_term : Option String
  pub message_content : Option String
  pub created_at : String

pub record AutoModActionEvent : Type 0 where
  pub server_id : String
  pub channel_id : Option String
  pub user_id : String
  pub username : String
  pub rule_type : String
  pub action_taken : String
  pub matched_term : Option String

pub record AutoModState : Type 0 where
  pub config : Option AutoModConfig
  pub words : List AutoModWordFilter
  pub logs : List AutoModLog
  pub is_loading : Bool
  pub is_saving : Bool
  pub error : Option String

abbrev pub word_key : AutoModWordFilter → String
word_key w = w.id

abbrev begin_load : AutoModState → AutoModState
begin_load s = record s { is_loading = true; error = none }

pub fetch_config :
    (meanwhile : AutoModState → AutoModState) → Reply AutoModConfig → AutoModState → AutoModState
fetch_config meanwhile (ok config) s =
    let s' = meanwhile (begin_load s) in record s' { config = some config; is_loading = false }
fetch_config meanwhile (failed err) s =
    let s' = meanwhile (begin_load s) in
    record s' { error = some (describe err "Failed to load auto-mod config"); is_loading = false }

pub update_config :
    (meanwhile : AutoModState → AutoModState)
    → Reply AutoModConfig
    → AutoModState
    → AutoModState × Outcome (Unit {0})
update_config meanwhile (ok config) s =
    let s' = meanwhile (record s { is_saving = true; error = none }) in
    (record s' { config = some config; is_saving = false }, returned tt)
update_config meanwhile (failed err) s =
    let s' = meanwhile (record s { is_saving = true; error = none }) in
    (
      record s' { error = some (describe err "Failed to save auto-mod config"); is_saving = false },
      thrown err,
    )

pub fetch_words :
    (meanwhile : AutoModState → AutoModState)
    → Reply (List AutoModWordFilter)
    → AutoModState
    → AutoModState
fetch_words meanwhile (ok words) s =
    let s' = meanwhile (begin_load s) in record s' { words = words; is_loading = false }
fetch_words meanwhile (failed err) s =
    let s' = meanwhile (begin_load s) in
    record s' { error = some (describe err "Failed to load word filters"); is_loading = false }

pub add_word : Reply AutoModWordFilter → AutoModState → AutoModState × Outcome (Unit {0})
add_word (ok filter) s = (record s { words = s.words ++ filter ∷ [] }, returned tt)
add_word (failed err) s =
    (record s { error = some (describe err "Failed to add word") }, thrown err)

pub remove_word : String → Reply (Unit {0}) → AutoModState → AutoModState × Outcome (Unit {0})
remove_word id (ok _) s = (record s { words = remove_id word_key id s.words }, returned tt)
remove_word id (failed err) s =
    (record s { error = some (describe err "Failed to remove word") }, thrown err)

unfoldable pub fetch_logs :
    (meanwhile : AutoModState → AutoModState)
    → Reply (List AutoModLog)
    → AutoModState
    → AutoModState
fetch_logs meanwhile (ok logs) s =
    let s' = meanwhile (begin_load s) in record s' { logs = logs; is_loading = false }
fetch_logs meanwhile (failed err) s =
    let s' = meanwhile (begin_load s) in
    record s' { error = some (describe err "Failed to load audit logs"); is_loading = false }

-- xs.slice(0, n)
abbrev pub log_entry : String → String → AutoModActionEvent → AutoModLog
log_entry id created_at event = record {
  id = id;
  server_id = event.server_id;
  channel_id = event.channel_id;
  user_id = some event.user_id;
  username = some event.username;
  rule_type = event.rule_type;
  action_taken = event.action_taken;
  matched_term = event.matched_term;
  message_content = none;
  created_at = created_at;
}

unfoldable pub append_realtime_log :
    String → String → AutoModActionEvent → AutoModState → AutoModState
append_realtime_log id created_at event s = record s {
  logs = take 100 (log_entry id created_at event ∷ s.logs);
}

pub clear_error : AutoModState → AutoModState
clear_error s = record s { error = none }

pub reset : AutoModState → AutoModState
reset s = record {
  config = none;
  words = [];
  logs = [];
  is_loading = false;
  is_saving = false;
  error = none;
}
