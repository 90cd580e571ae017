-- ===== src/Redis/Client.antt =====
-- go-redis and encoding/json, which are not in the repository: a parameter of the model, with what
-- db/db_redis relies on as the laws `IsLawful`.
use contact_server.Base.{
  ℕ, String, ◌≡◌, Option, none, some, List, [], Dict, find, ◌==◌, is_empty, false, if◌then◌else◌,
  Result, ok, Exec, IfOk, ReadOf, WriteOf,
}
use contact_server.Common.{EmailReflect}

-- A key holds a hash or a text. `field` is what the hash under a key has in a field, `text` the text
-- under a key: no code reads them, and the theorems speak of them.
pub record Redis : Type 1 where
  pub State : Type 0
  pub field : State → String → String → Option String
  pub text : State → String → Option String
  pub h_get_all : String → Exec State (Dict String)
  pub h_get : String → String → Exec State String
  pub h_set : String → Dict String → Exec State (Unit {0})
  pub exists : String → Exec State ℕ
  pub get : String → Exec State String
  pub m_get : List String → Exec State (List (Option String))
  pub set : String → String → Exec State (Unit {0})
  pub del : String → Exec State (Unit {0})
  -- How go-redis writes an `int8`.
  pub int8_text : ℕ → String
  pub unmarshal_emails : String → Result (List String)
  pub marshal_emails : List String → String
  -- What `Unmarshal` leaves in a nil slice, for a caller that drops its error.
  pub emails_left : String → List String
  pub unmarshal_reflect : String → Result EmailReflect

abbrev pub or_else : Option String → Option String → Option String
or_else none b = b
or_else (some a) b = some a

-- Every law follows one key, `k'`, and a field of its hash, `f'`, through a call on `k`. An absent
-- key or field is `redis.Nil`.
pub record IsLawful (rdb : Redis) : Type 0 where
  pub h_get_reads : (k f : String) (s : rdb.State) → ReadOf (rdb.field s k f) (rdb.h_get k f s).0
  pub h_get_keeps :
      (k f : String) (s : rdb.State) (k' f' : String)
      → (rdb.field (rdb.h_get k f s).1 k' f' ≡ rdb.field s k' f')
        × (rdb.text (rdb.h_get k f s).1 k' ≡ rdb.text s k')
  pub get_reads : (k : String) (s : rdb.State) → ReadOf (rdb.text s k) (rdb.get k s).0
  pub get_keeps :
      (k : String) (s : rdb.State) (k' f' : String)
      → (rdb.field (rdb.get k s).1 k' f' ≡ rdb.field s k' f')
        × (rdb.text (rdb.get k s).1 k' ≡ rdb.text s k')
  pub exists_reads :
      (k f : String) (s : rdb.State) → IfOk (rdb.exists k s).0 (λ n. n ≡ 0 → rdb.field s k f ≡ none)
  pub exists_keeps :
      (k : String) (s : rdb.State) (k' f' : String)
      → (rdb.field (rdb.exists k s).1 k' f' ≡ rdb.field s k' f')
        × (rdb.text (rdb.exists k s).1 k' ≡ rdb.text s k')
  pub h_set_writes :
      (k : String) (d : Dict String) (s : rdb.State) (k' f' : String)
      → let (r, s') = rdb.h_set k d s in
        WriteOf
          (rdb.field s k' f')
          (if k == k' then or_else (find d f') (rdb.field s k' f') else rdb.field s k' f')
          (rdb.field s' k' f')
          r
  pub h_set_keeps :
      (k : String) (d : Dict String) (s : rdb.State) (k' : String)
      → rdb.text (rdb.h_set k d s).1 k' ≡ rdb.text s k'
  pub set_writes :
      (k v : String) (s : rdb.State) (k' : String)
      → let (r, s') = rdb.set k v s in
        WriteOf (rdb.text s k') (if k == k' then some v else rdb.text s k') (rdb.text s' k') r
  -- A text takes the place of a hash.
  pub set_clears :
      (k v : String) (s : rdb.State) (k' f' : String)
      → let (r, s') = rdb.set k v s in
        WriteOf
          (rdb.field s k' f')
          (if k == k' then none else rdb.field s k' f')
          (rdb.field s' k' f')
          r
  pub del_drops :
      (k : String) (s : rdb.State) (k' : String)
      → let (r, s') = rdb.del k s in
        WriteOf (rdb.text s k') (if k == k' then none else rdb.text s k') (rdb.text s' k') r
  pub del_clears :
      (k : String) (s : rdb.State) (k' f' : String)
      → let (r, s') = rdb.del k s in
        WriteOf
          (rdb.field s k' f')
          (if k == k' then none else rdb.field s k' f')
          (rdb.field s' k' f')
          r
  pub emails_stored : (es : List String) → rdb.unmarshal_emails (rdb.marshal_emails es) ≡ ok es
  pub emails_left_whole :
      (t : String) (es : List String) → rdb.unmarshal_emails t ≡ ok es → rdb.emails_left t ≡ es
  pub emails_not_empty : (es : List String) → is_empty (rdb.marshal_emails es) ≡ false
  -- `"[]"` is the list of no emails.
  pub no_emails : rdb.unmarshal_emails "[]" ≡ ok []
