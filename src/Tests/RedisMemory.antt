-- ===== src/Tests/RedisMemory.antt =====
-- A Redis in memory.
use Prim.Native.Char.{Char, code}
use contact_server.Base.{
  String, ap, ◌≡◌, refl, ◌≢◌, Option, none, some, List, [], ◌∷◌, Dict, find, put, drop_key,
  find-put, find-drop_key, ◌==◌, if◌then◌else◌, Error, not_found, driver, Result, ok, err, Exec,
  arith, is_some, eqb, WriteOf, inl, first_code,
}
use contact_server.Redis.Client.{Redis, IsLawful, or_else}

-- A list of emails as a text: `[`, and for each email its characters, each after a quote, and a dot.
quoted : String → String → String
quoted String.[] rest = String.◌∷◌ "." rest
quoted (String.◌∷◌ c s) rest = String.◌∷◌ "'" (String.◌∷◌ c (quoted s rest))

list_text : List String → String
list_text [] = String.[]
list_text (e ∷ es) = quoted e (list_text es)

longer : Char → List String → List String
longer c [] = []
longer c (e ∷ es) = String.◌∷◌ c e ∷ es

items : String → List String
items String.[] = []
items (String.◌∷◌ x String.[]) = if eqb (code x) 46 then String.[] ∷ [] else []
items (String.◌∷◌ x (String.◌∷◌ c s)) =
    let after_quote = longer c (items s) in
    let after_dot = String.[] ∷ items (String.◌∷◌ c s) in
    if eqb (code x) 46 then after_dot else after_quote

unfoldable pub marshal_emails : List String → String
unfolding list_text quoted
marshal_emails es = String.◌∷◌ "[" (list_text es)

unfoldable pub items_of : String → List String
unfolding items longer
items_of String.[] = []
items_of (String.◌∷◌ x s) = items s

items-dot : (s : String) → items (String.◌∷◌ "." s) ≡ String.[] ∷ items s
unfolding items
items-dot String.[] = refl
items-dot (String.◌∷◌ c s) = refl

items-quoted : (e rest : String) → items (quoted e rest) ≡ e ∷ items rest
unfolding items quoted longer
items-quoted String.[] rest = items-dot rest
items-quoted (String.◌∷◌ c s) rest = rw (items-quoted s rest) refl

items-list_text : (es : List String) → items (list_text es) ≡ es
unfolding list_text items
items-list_text [] = refl
items-list_text (e ∷ es) = rw (items-quoted e (list_text es)) (rw (items-list_text es) refl)

pub data Value : Type 0 where
  hash : Dict String → Value
  text : String → Value

abbrev pub Store : Type 0
Store = Dict Value

abbrev pub wrong_type : Error
wrong_type = driver "WRONGTYPE"

abbrev pub field_of : Option Value → String → Option String
field_of (some (hash d)) f = find d f
field_of _ f = none

abbrev pub text_of : Option Value → Option String
text_of (some (text t)) = some t
text_of _ = none

abbrev pub answer : Option String → Result String
answer none = err (not_found "redis: nil")
answer (some t) = ok t

abbrev pub get_result : Option Value → Result String
get_result (some (hash d)) = err wrong_type
get_result v = answer (text_of v)

abbrev pub h_get_result : Option Value → String → Result String
h_get_result (some (text t)) f = err wrong_type
h_get_result v f = answer (field_of v f)

abbrev pub all_result : Option Value → Result (Dict String)
all_result none = ok []
all_result (some (hash d)) = ok d
all_result (some (text t)) = err wrong_type

unfoldable pub merge : Dict String → Dict String → Dict String
merge [] d0 = d0
merge ((f, v) ∷ d) d0 = put f v (merge d d0)

empty_find : (f : String) → find {V = String} [] f ≡ none
unfolding find
empty_find f = refl

find-merge :
    (d d0 : Dict String) (f : String) → find (merge d d0) f ≡ or_else (find d f) (find d0 f)
unfolding merge find
find-merge [] d0 f = refl
find-merge ((g, v) ∷ d) d0 f = ground (arith, find-merge d d0 f, find-put g f v (merge d d0))

abbrev pub h_set_result : Option Value → String → Dict String → Exec Store (Unit {0})
h_set_result none k d s = (ok tt, put k (hash (merge d [])) s)
h_set_result (some (hash d0)) k d s = (ok tt, put k (hash (merge d d0)) s)
h_set_result (some (text t)) k d s = (err wrong_type, s)

abbrev pub texts_of : List String → Store → List (Option String)
texts_of [] s = []
texts_of (k ∷ ks) s = text_of (find s k) ∷ texts_of ks s

abbrev pub unmarshal : String → Result (List String)
unmarshal String.[] = err (driver "unexpected end of JSON input")
unmarshal (String.◌∷◌ x t) = ok (items_of (String.◌∷◌ x t))

abbrev pub redis_memory : Redis
redis_memory = record {
  State = Store;
  field = λ s k f. field_of (find s k) f;
  text = λ s k. text_of (find s k);
  h_get_all = λ k s. (all_result (find s k), s);
  h_get = λ k f s. (h_get_result (find s k) f, s);
  h_set = λ k d s. h_set_result (find s k) k d s;
  exists = λ k s. (ok (if is_some (find s k) then 1 else 0), s);
  get = λ k s. (get_result (find s k), s);
  m_get = λ ks s. (ok (texts_of ks s), s);
  set = λ k v s. (ok tt, put k (text v) s);
  del = λ k s. (ok tt, drop_key k s);
  int8_text = λ n. "1";
  unmarshal_emails = unmarshal;
  marshal_emails = marshal_emails;
  emails_left = items_of;
  unmarshal_reflect = λ t. err (driver "invalid character");
}

hash_written :
    (v : Option Value) (k : String) (d : Dict String) (s : Store) (k' f' : String)
    → find s k ≡ v
    → WriteOf
        (field_of (find s k') f')
        (if k == k' then or_else (find d f') (field_of (find s k') f') else field_of (find s k') f')
        (field_of (find (h_set_result v k d s).1 k') f')
        (h_set_result v k d s).0
hash_written none k d s k' f' h =
    ground (arith, h, find-put k k' (hash (merge d [])) s, find-merge d [] f', empty_find f')
hash_written (some (hash d0)) k d s k' f' h =
    ground (arith, h, find-put k k' (hash (merge d d0)) s, find-merge d d0 f')
hash_written (some (text t)) k d s k' f' h = inl refl

hash_keeps :
    (v : Option Value) (k : String) (d : Dict String) (s : Store) (k' : String)
    → find s k ≡ v
    → text_of (find (h_set_result v k d s).1 k') ≡ text_of (find s k')
hash_keeps none k d s k' h = ground (arith, h, find-put k k' (hash (merge d [])) s)
hash_keeps (some (hash d0)) k d s k' h = ground (arith, h, find-put k k' (hash (merge d d0)) s)
hash_keeps (some (text t)) k d s k' h = refl

left_whole : (t : String) (es : List String) → unmarshal t ≡ ok es → items_of t ≡ es
left_whole String.[] es h = ground arith
left_whole (String.◌∷◌ c t) es h = ground arith

bracket_not_empty : (t : String) → String.◌∷◌ "[" t ≢ ""
bracket_not_empty t h = omega (arith, ap first_code h)

pub redis_memory-IsLawful : IsLawful redis_memory
unfolding find marshal_emails items_of
redis_memory-IsLawful = record {
  h_get_reads = λ k f s. ground arith;
  h_get_keeps = λ k f s k' f'. (refl, refl);
  get_reads = λ k s. ground arith;
  get_keeps = λ k s k' f'. (refl, refl);
  exists_reads = λ k f s. ground arith;
  exists_keeps = λ k s k' f'. (refl, refl);
  h_set_writes = λ k d s k' f'. hash_written (find s k) k d s k' f' refl;
  h_set_keeps = λ k d s k'. hash_keeps (find s k) k d s k' refl;
  set_writes = λ k v s k'. ground (arith, find-put k k' (text v) s);
  set_clears = λ k v s k' f'. ground (arith, find-put k k' (text v) s);
  del_drops = λ k s k'. ground (arith, find-drop_key k k' s);
  del_clears = λ k s k' f'. ground (arith, find-drop_key k k' s);
  emails_stored = λ es. ap ok (items-list_text es);
  emails_left_whole = λ t es h. left_whole t es h;
  emails_not_empty = λ es. ground (arith, bracket_not_empty (list_text es));
  no_emails = refl;
}
