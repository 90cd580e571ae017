-- ===== src/Firestore/Client.antt =====
-- The Firestore client (cloud.google.com/go/firestore), which is not in the repository: a
-- parameter of the model, with what db/db_firestore relies on as the laws `IsLawful`. The
-- collections are the constants of db/db_firestore/firestore.go.
use contact_server.Base.{
  String, ◌≡◌, Bool, true, false, ◌&&◌, Option, none, some, ◌==◌, if◌then◌else◌, Result, ok, Exec,
  [], ReadOf, WriteOf, DeleteOf,
}
use contact_server.Common.{BMailAccount, EmailReflect, ActiveLinkData}

-- `DBTableAccount`, `DBTableReflect` and `DBActiveLink`; `DBTableContact` is never used.
pub data Collection : Type 0 where
  account_table reflect_table active_link : Collection

abbrev pub collection_name : Collection → String
collection_name account_table = "bmail-account"
collection_name reflect_table = "email-reflect"
collection_name active_link = "active-link"

abbrev pub same_collection : Collection → Collection → Bool
same_collection account_table account_table = true
same_collection reflect_table reflect_table = true
same_collection active_link active_link = true
same_collection _ _ = false

-- Documents under a collection and a key. `doc` is what the server holds: no code reads it, and
-- the theorems speak of it. `data_to` and `data_of` are `DataTo` and the encoding in `Set`.
pub record Firestore : Type 1 where
  pub State : Type 0
  pub Doc : Type 0
  pub doc : State → Collection → String → Option Doc
  pub get : Collection → String → Exec State Doc
  pub set : Collection → String → Doc → Exec State (Unit {0})
  pub delete : Collection → String → Exec State (Unit {0})
  pub data_to_account : Doc → Result BMailAccount
  pub data_of_account : BMailAccount → Doc
  pub data_to_reflect : Doc → Result EmailReflect
  pub data_of_reflect : EmailReflect → Doc
  pub data_to_link : Doc → Result ActiveLinkData
  pub data_of_link : ActiveLinkData → Doc

-- Every law follows one document, `(t', k')`, through a call on `(t, k)`.
pub record IsLawful (fs : Firestore) : Type 0 where
  pub get_reads :
      (t : Collection) (k : String) (s : fs.State) → ReadOf (fs.doc s t k) (fs.get t k s).0
  pub get_keeps :
      (t : Collection) (k : String) (s : fs.State) (t' : Collection) (k' : String)
      → fs.doc (fs.get t k s).1 t' k' ≡ fs.doc s t' k'
  pub set_writes :
      (t : Collection) (k : String) (d : fs.Doc) (s : fs.State) (t' : Collection) (k' : String)
      → let (r, s') = fs.set t k d s in
        WriteOf
          (fs.doc s t' k')
          (if same_collection t t' && k == k' then some d else fs.doc s t' k')
          (fs.doc s' t' k')
          r
  pub delete_drops :
      (t : Collection) (k : String) (s : fs.State) (t' : Collection) (k' : String)
      → let (r, s') = fs.delete t k s in
        DeleteOf
          (fs.doc s t' k')
          (if same_collection t t' && k == k' then none else fs.doc s t' k')
          (fs.doc s' t' k')
          r
  -- `EMailAddress` carries the tag `firestore:"-"`: it is not stored.
  pub account_stored :
      (ba : BMailAccount)
      → fs.data_to_account (fs.data_of_account ba) ≡ ok (record ba { e_mail_address = [] })
  pub reflect_stored : (r : EmailReflect) → fs.data_to_reflect (fs.data_of_reflect r) ≡ ok r
  pub link_stored : (l : ActiveLinkData) → fs.data_to_link (fs.data_of_link l) ≡ ok l
