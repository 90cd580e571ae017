-- ===== src/Service/Database.antt =====
-- `DatabaseI` of service/cfg.go.
use contact_server.Base.{ℕ, String, List, Dict, Exec}
use contact_server.Common.{BMailAccount, EmailReflect, ActiveLinkData}

pub record Database : Type 1 where
  pub State : Type 0
  pub query_reflect_by_one_email : String → Exec State EmailReflect
  pub query_reflects_by_emails : List String → Exec State (Dict EmailReflect)
  pub query_account : String → Exec State BMailAccount
  pub active_account : String → ℕ → Exec State (Unit {0})
  pub delete_account : String → Exec State (Unit {0})
  pub update_account_level : String → ℕ → Exec State (Unit {0})
  pub update_binding : String → String → Exec State (Unit {0})
  pub delete_binding : String → String → Exec State (Unit {0})
  pub uninstall_by_user : String → Exec State (Unit {0})
  pub create_active_link : ActiveLinkData → Exec State (Unit {0})
  pub get_active_link : String → Exec State ActiveLinkData
  pub remove_active_link : String → Exec State (Unit {0})
