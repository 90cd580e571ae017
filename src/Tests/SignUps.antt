-- ===== src/Tests/SignUps.antt =====
-- The way of a new account, over a Firestore in memory that never fails.
use contact_server.Base.{
  ℕ, String, ◌≡◌, refl, false, true, List, [], ◌∷◌, ◌++◌, find, ok, Result, is_empty, replace_all,
  arith, text_dec,
}
use contact_server.Common.{ActiveLinkData}
use contact_server.Proto.{BmReq, BmRsp, EMailActive}
use contact_server.Firestore.Client.{
  Firestore, Collection, account_table, reflect_table, active_link, IsLawful,
}
use contact_server.Firestore.View.{owner, lists}
use contact_server.Firestore.Available.{IsAvailable}
use contact_server.Service.World.{Process, World, send_active_mail}
use contact_server.Service.Actions.{active_by_email, link_of, success_rsp}
use contact_server.Service.Pages.{Page, page, active_verify}
use contact_server.Service.Http.{status_ok}
use contact_server.Service.Stores.{firestore_database}
use contact_server.Service.Stores.SignUp.{sign_up_done}
use contact_server.Wallet.Links.{send_twice, link_text}
use contact_server.Wallet.Links
use contact_server.Wallet.Hex.{hex_encode, nibble_char}
use contact_server.Wallet.Keys.{key_of, sign_with_key}
use contact_server.Tests.Memory.{
  Tables, table, memory, get, set, delete, memory-set, memory-delete, same_table,
}
use contact_server.Tests.Bindings.{start}
use contact_server.Tests.Requests.{codec, process, key_bytes}
use contact_server.Tests.Wallets.{a_crypto, a_maker, maker-IsKeyMaker, opened}
use contact_server.Tests.Mails.{smtp, mail_conf}

abbrev well : Tables → Tables
well s = record s { faults = [] }

abbrev calm : Firestore
calm = record memory {
  get = λ t k s. get t k (well s);
  set = λ t k d s. set t k d (well s);
  delete = λ t k s. delete t k (well s);
}

well_table : (t : Collection) (s : Tables) → table t (well s) ≡ table t s
well_table account_table s = refl
well_table reflect_table s = refl
well_table active_link s = refl

calm-IsLawful : IsLawful calm
unfolding get set delete
calm-IsLawful = record {
  get_reads = λ t k s. ground (arith, well_table t s);
  get_keeps = λ t k s t' k'. ground (arith, well_table t' s, same_table t' (well s));
  set_writes =
      λ t k d s t' k'. ground (arith, well_table t' s, memory-set t k d (well s) t' k' refl);
  delete_drops =
      λ t k s t' k'. ground (arith, well_table t' s, memory-delete t k (well s) t' k' refl);
  account_stored = λ ba. refl;
  reflect_stored = λ r. refl;
  link_stored = λ l. refl;
}

calm-IsAvailable : IsAvailable calm
unfolding get set delete
calm-IsAvailable = record {
  get_held = λ t k s d held. ground (arith, well_table t s, held);
  get_missing = λ t k s gone. ground (arith, well_table t s, gone);
  set_done = λ t k d s. refl;
  delete_done = λ t k s. refl;
}

abbrev an_action : EMailActive
an_action = record { email = "n@x"; subject = "s"; body = "go __active_link__"; unbind = false }

abbrev a_server : Process
a_server = record process {
  codec = record codec { unmarshal_active = λ b. ok an_action };
  crypto = a_crypto;
  keys = a_maker;
  admin = opened;
}

abbrev new_request : BmReq
new_request = record { address = "BM3"; signature = "00"; payload = [] }

abbrev at_first : World Tables
at_first = record { db = start; now = 200; drawn = 0; spawned = [] }

signs : (m : List ℕ) → is_empty (sign_with_key a_maker (key_of a_maker key_bytes) m) ≡ false
unfolding sign_with_key hex_encode text_dec nibble_char
signs m = refl

abbrev the_link : ActiveLinkData
the_link = link_of (firestore_database calm) a_server "uuid" "BM3" "n@x" 200 false

abbrev requested : Result BmRsp × World Tables
requested = active_by_email (firestore_database calm) a_server new_request at_first

abbrev signature : String
signature = sign_with_key a_maker (key_of a_maker key_bytes) (a_server.sig_data the_link)

abbrev visited : Result Page × World Tables
visited =
    active_verify (firestore_database calm) a_server "uuid" signature
      (record requested.1 { now = 86600 })

sign_up_done_example :
    (requested.0 ≡ ok (success_rsp []))
    × (requested.1.spawned ≡ [] ++ (send_active_mail the_link "s" "go __active_link__" false ∷ []))
    × (Links.send_active_mail smtp a_maker opened a_server.sig_data mail_conf the_link "s"
          "go __active_link__" false
        ≡ send_twice smtp mail_conf "n@x" "s"
            (replace_all "go __active_link__" "__active_link__" (link_text "uuid" signature false)))
    × (visited.0 ≡ ok (page status_ok "Action completed success!"))
    × (owner calm visited.1.db "n@x" ≡ "BM3")
    × (lists calm visited.1.db "BM3" "n@x" ≡ true)
unfolding find text_dec
sign_up_done_example =
    sign_up_done calm calm-IsLawful calm-IsAvailable a_server maker-IsKeyMaker key_bytes refl refl
      refl smtp mail_conf new_request an_action at_first 86600 signs refl refl refl refl refl refl
      (omega arith)
