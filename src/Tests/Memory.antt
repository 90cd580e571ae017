-- ===== src/Tests/Memory.antt =====
-- A Firestore in memory. Every call takes the head of `faults`: where it is true the call fails and
-- changes nothing.
use contact_server.Base.{
  String, ◌≡◌, refl, Bool, false, ◌&&◌, Option, none, some, List, [], ◌∷◌, Dict, find, put,
  drop_key, find-put, find-drop_key, ◌==◌, if◌then◌else◌, Error, not_found, driver, Result, ok, err,
  Exec, arith,
}
use contact_server.Common.{BMailAccount, EmailReflect, ActiveLinkData}
use contact_server.Firestore.Client.{
  Firestore, Collection, account_table, reflect_table, active_link, same_collection, IsLawful,
}

pub data MemoryDoc : Type 0 where
  account : BMailAccount → MemoryDoc
  reflect : EmailReflect → MemoryDoc
  link : ActiveLinkData → MemoryDoc

pub record Tables : Type 0 where
  pub accounts : Dict MemoryDoc
  pub reflects : Dict MemoryDoc
  pub links : Dict MemoryDoc
  pub faults : List Bool

abbrev pub table : Collection → Tables → Dict MemoryDoc
table account_table s = s.accounts
table reflect_table s = s.reflects
table active_link s = s.links

abbrev with_table : Collection → Dict MemoryDoc → Tables → Tables
with_table account_table d s = record s { accounts = d }
with_table reflect_table d s = record s { reflects = d }
with_table active_link d s = record s { links = d }

abbrev fails : List Bool → Bool
fails [] = false
fails (b ∷ bs) = b

abbrev later : List Bool → List Bool
later [] = []
later (b ∷ bs) = bs

abbrev next : Tables → Tables
next s = record s { faults = later s.faults }

abbrev found : Option MemoryDoc → Result MemoryDoc
found none = err (not_found "not found")
found (some d) = ok d

abbrev pub unavailable : Error
unavailable = driver "unavailable"

unfoldable pub get : Collection → String → Exec Tables MemoryDoc
get t k s = (if fails s.faults then err unavailable else found (find (table t s) k), next s)

unfoldable pub set : Collection → String → MemoryDoc → Exec Tables (Unit {0})
set t k d s =
    if fails s.faults
    then (err unavailable, next s)
    else (ok tt, next (with_table t (put k d (table t s)) s))

unfoldable pub delete : Collection → String → Exec Tables (Unit {0})
delete t k s =
    if fails s.faults
    then (err unavailable, next s)
    else (ok tt, next (with_table t (drop_key k (table t s)) s))

abbrev bad_data : {A : Type 0} → Result A
bad_data = err (driver "bad data")

abbrev to_account : MemoryDoc → Result BMailAccount
to_account (account a) = ok (record a { e_mail_address = [] })
to_account _ = bad_data

abbrev to_reflect : MemoryDoc → Result EmailReflect
to_reflect (reflect r) = ok r
to_reflect _ = bad_data

abbrev to_link : MemoryDoc → Result ActiveLinkData
to_link (link l) = ok l
to_link _ = bad_data

abbrev pub memory : Firestore
memory = record {
  State = Tables;
  Doc = MemoryDoc;
  doc = λ s t k. find (table t s) k;
  get = get;
  set = set;
  delete = delete;
  data_to_account = to_account;
  data_of_account = account;
  data_to_reflect = to_reflect;
  data_of_reflect = reflect;
  data_to_link = to_link;
  data_of_link = link;
}

pub memory-set :
    (t : Collection) (k : String) (d : MemoryDoc) (s : Tables) (t' : Collection) (k' : String)
    → fails s.faults ≡ false
    → find (table t' (set t k d s).1) k'
      ≡ (if same_collection t t' && k == k' then some d else find (table t' s) k')
unfolding set
memory-set account_table k d s account_table k' h = ground (arith, find-put k k' d s.accounts)
memory-set reflect_table k d s reflect_table k' h = ground (arith, find-put k k' d s.reflects)
memory-set active_link k d s active_link k' h = ground (arith, find-put k k' d s.links)
memory-set _ k d s _ k' h = ground arith

pub memory-delete :
    (t : Collection) (k : String) (s : Tables) (t' : Collection) (k' : String)
    → fails s.faults ≡ false
    → find (table t' (delete t k s).1) k'
      ≡ (if same_collection t t' && k == k' then none else find (table t' s) k')
unfolding delete
memory-delete account_table k s account_table k' h = ground (arith, find-drop_key k k' s.accounts)
memory-delete reflect_table k s reflect_table k' h = ground (arith, find-drop_key k k' s.reflects)
memory-delete active_link k s active_link k' h = ground (arith, find-drop_key k k' s.links)
memory-delete _ k s _ k' h = ground arith

pub same_table : (t : Collection) (s : Tables) → table t (next s) ≡ table t s
same_table account_table s = refl
same_table reflect_table s = refl
same_table active_link s = refl

-- The client in memory meets what the code relies on.
pub memory-IsLawful : IsLawful memory
unfolding get set delete
memory-IsLawful = record {
  get_reads = λ t k s. ground arith;
  get_keeps = λ t k s t' k'. ground (arith, same_table t' s);
  set_writes = λ t k d s t' k'. ground (arith, memory-set t k d s t' k', same_table t' s);
  delete_drops = λ t k s t' k'. ground (arith, memory-delete t k s t' k', same_table t' s);
  account_stored = λ ba. refl;
  reflect_stored = λ r. refl;
  link_stored = λ l. refl;
}
