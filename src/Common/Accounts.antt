-- ===== src/Common/Accounts.antt =====
-- The two conversions between an account's list of addresses and its map.
use contact_server.Base.{
  String, ◌≡◌, refl, Bool, true, ◌||◌, List, [], ◌∷◌, arith, Dict, put, keys, has, has-keys,
  find-put, IsMap, Distinct,
}
use contact_server.Common.{BMailAccount, map_to_array, array_to_map, put_all}

has-keys-put_all :
    (es : List String) (m : Dict Bool) (a : String)
    → has (keys (put_all es m)) a ≡ (has es a || has (keys m) a)
unfolding put_all
has-keys-put_all [] m a = refl
has-keys-put_all (e ∷ es) m a = ground (
  arith,
  has-keys-put_all es (put e true m) a,
  has-keys (put e true m) a,
  has-keys m a,
  find-put e a true m,
)

-- The list that `MapToArray` reads back from the map that `ArrayToMap` wrote holds an address
-- exactly if the account's list held it.
map_to_array-array_to_map :
    (ba : BMailAccount) (a : String)
    → has (map_to_array (array_to_map ba)).e_mail_address a ≡ has ba.e_mail_address a
unfolding map_to_array array_to_map keys
map_to_array-array_to_map ba a = ground (arith, has-keys-put_all ba.e_mail_address [] a)

put-IsMap : (k : String) (v : Bool) (m : Dict Bool) → IsMap m → IsMap (put k v m)
unfolding put keys
put-IsMap k v [] h = (refl, tt)
put-IsMap k v ((j, w) ∷ m) h =
    ground (arith, put-IsMap k v m h.1, has-keys (put k v m) j, has-keys m j, find-put k j v m)

put_all-IsMap : (es : List String) (m : Dict Bool) → IsMap m → IsMap (put_all es m)
unfolding put_all
put_all-IsMap [] m h = h
put_all-IsMap (e ∷ es) m h = put_all-IsMap es (put e true m) (put-IsMap e true m h)

-- The list read back holds no address twice, also where the list written did.
pub map_to_array-array_to_map-Distinct :
    (ba : BMailAccount) → Distinct (map_to_array (array_to_map ba)).e_mail_address
unfolding map_to_array array_to_map keys
map_to_array-array_to_map-Distinct ba = put_all-IsMap ba.e_mail_address [] tt
