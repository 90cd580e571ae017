-- ===== src/Tests/Bindings.antt =====
-- The theorems on the Firestore database at concrete inputs: two accounts, of which the first
-- holds an email, and a client whose later calls may fail.
use contact_server.Base.{
  ◌≡◌, refl, true, false, none, some, [], ◌∷◌, find, put, drop_key, keys, ok, err, text_dec, arith,
  is_empty,
}
use contact_server.Common.{BMailAccount, ActiveLinkData, map_to_array}
use contact_server.Firestore.Account.{
  update_binding, database_to_obj, saving, unbind_old, delete_binding, delete_reflects,
  uninstall_by_user, delete_account, active_account, update_account_level, query_account,
}
use contact_server.Firestore.Reflect.{
  update_email_reflect_only, delete_email_reflect, query_reflects_from, query_reflects_by_emails,
  query_reflect_by_one_email,
}
use contact_server.Firestore.Active.{create_active_link, get_active_link, remove_active_link}
use contact_server.Firestore.Consistency.{
  IsConsistent, update_binding-IsConsistent, delete_binding-IsConsistent,
  uninstall_by_user-IsConsistent, delete_binding_foreign,
}
use contact_server.Firestore.Failures.{BoundListed, update_binding-BoundListed}
use contact_server.Tests.Memory.{
  Tables, account, reflect, memory, memory-IsLawful, get, set, delete, unavailable,
}

abbrev holder : BMailAccount
holder = record {
  user_lel = 1;
  e_mail_address = [];
  mail_store_obj = some (("a@x", true) ∷ []);
  license_hex = "";
}

abbrev fresh : BMailAccount
fresh = record { user_lel = 1; e_mail_address = []; mail_store_obj = none; license_hex = "" }

abbrev pub start : Tables
start = record {
  accounts = ("BM1", account holder) ∷ ("BM2", account fresh) ∷ [];
  reflects = ("a@x", reflect (record { b_mail_address = "BM1" })) ∷ [];
  links = [];
  faults = [];
}

-- To name this is to open what a run of the database computes with.
unfoldable pub firestore_runs : Unit {0}
unfolding text_dec find put drop_key keys get set delete map_to_array saving database_to_obj
    update_email_reflect_only unbind_old update_binding delete_email_reflect delete_binding
    delete_reflects uninstall_by_user delete_account active_account update_account_level
    query_account create_active_link get_active_link remove_active_link query_reflects_from
    query_reflects_by_emails query_reflect_by_one_email
firestore_runs = tt

pub bm1_named : is_empty "BM1" ≡ false
unfolding text_dec
bm1_named = refl

pub bm2_named : is_empty "BM2" ≡ false
unfolding text_dec
bm2_named = refl

pub start-IsConsistent : IsConsistent memory start
unfolding find
start-IsConsistent = record {
  bound_listed = λ e b. ground (arith, bm1_named, bm2_named);
  listed_bound = λ a e l. ground (arith, bm1_named, bm2_named);
}

-- BM2 takes the email over.
pub rebound : (update_binding memory "BM2" "a@x" start).0 ≡ ok tt
unfolding firestore_runs
rebound = refl

abbrev pub taken : Tables
taken = (update_binding memory "BM2" "a@x" start).1

update_binding-IsConsistent_example : IsConsistent memory taken
update_binding-IsConsistent_example =
    update_binding-IsConsistent memory memory-IsLawful "BM2" start start-IsConsistent "a@x"
      bm2_named rebound

-- The call that clears the old account, the fifth, fails.
abbrev flaky : Tables
flaky = record start { faults = false ∷ false ∷ false ∷ false ∷ true ∷ [] }

flaky-fails : (update_binding memory "BM2" "a@x" flaky).0 ≡ err unavailable
unfolding firestore_runs
flaky-fails = refl

update_binding-BoundListed_example : BoundListed memory (update_binding memory "BM2" "a@x" flaky).1
unfolding find
update_binding-BoundListed_example =
    update_binding-BoundListed memory memory-IsLawful "BM2" "a@x" flaky
      (λ e b. start-IsConsistent.bound_listed e b)

delete_binding-IsConsistent_example :
    IsConsistent memory (delete_binding memory "BM1" "a@x" start).1
unfolding firestore_runs
delete_binding-IsConsistent_example =
    delete_binding-IsConsistent memory memory-IsLawful "BM1" start start-IsConsistent "a@x" refl
      refl

uninstall_by_user-IsConsistent_example :
    IsConsistent memory (uninstall_by_user memory "BM1" start).1
unfolding firestore_runs
uninstall_by_user-IsConsistent_example =
    uninstall_by_user-IsConsistent memory memory-IsLawful "BM1" start start-IsConsistent refl

-- BM2 unbinds an email that BM1 holds.
abbrev pub a_link : ActiveLinkData
a_link = record {
  token = "t1";
  address = "BM2";
  email = "b@x";
  create_time = 100;
  is_unbind = false;
}

abbrev pub linked : Tables
linked = (create_active_link memory a_link start).1

delete_binding_foreign_example : ¬ IsConsistent memory (delete_binding memory "BM2" "a@x" start).1
unfolding firestore_runs
delete_binding_foreign_example =
    delete_binding_foreign memory memory-IsLawful "BM2" "BM1" "a@x" start refl refl refl refl
