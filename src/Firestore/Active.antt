-- ===== src/Firestore/Active.antt =====
-- db/db_firestore/active.go.
use contact_server.Base.{
  String, if◌then◌else◌, not, is_not_found, Exec, pure, raise, lift, branch, ◌>>=◌,
}
use contact_server.Common.{ActiveLinkData, new_bm_error, bm_err_duplicate}
use contact_server.Firestore.Client.{Firestore, active_link}

module _ (fs : Firestore) where
  open fs use {State, get, set, delete, data_to_link, data_of_link}

  unfoldable pub create_active_link : ActiveLinkData → Exec State (Unit {0})
  create_active_link link =
      branch (get active_link link.token)
        (λ _. raise (new_bm_error bm_err_duplicate "Active link data already exists"))
        (λ e.
          if not (is_not_found e) then raise e else set active_link link.token (data_of_link link))

  unfoldable pub get_active_link : String → Exec State ActiveLinkData
  get_active_link token = do d ← get active_link token; lift (data_to_link d)

  unfoldable pub remove_active_link : String → Exec State (Unit {0})
  remove_active_link token =
      branch (delete active_link token) (λ _. pure tt)
        (λ e. if is_not_found e then pure tt else raise e)
