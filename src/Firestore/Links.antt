-- ===== src/Firestore/Links.antt =====
-- What the calls on active links and the queries of reflections do.
use contact_server.Base.{
  String, ◌≡◌, ◌≢◌, ◌&&◌, none, if◌then◌else◌, Dict, find, find-put, ok, IfOk, arith, [], ◌∷◌, List,
  is_some, has, Option-cases, inl, inr, put,
}
use contact_server.Common.{ActiveLinkData, EmailReflect}
use contact_server.Firestore.Client.{Firestore, Collection, reflect_table, active_link, IsLawful}
use contact_server.Firestore.View.{reflect_at}
use contact_server.Firestore.Active.{create_active_link, get_active_link, remove_active_link}
use contact_server.Firestore.Reflect.{query_reflects_from, query_reflects_by_emails}

module _ (fs : Firestore) (L : IsLawful fs) where
  -- With a lawful client, after a `CreateActiveLink` that returns no error, a `GetActiveLink` of
  -- its token that returns no error returns the link that was created.
  get-create_active_link :
      (link : ActiveLinkData) (s : fs.State) {found : ActiveLinkData}
      → (create_active_link fs link s).0 ≡ ok tt
      → (get_active_link fs link.token (create_active_link fs link s).1).0 ≡ ok found
      → found ≡ link
  unfolding create_active_link get_active_link
  get-create_active_link link s h g = ground (
    arith,
    L.link_stored link,
    L.set_writes active_link link.token (fs.data_of_link link) (fs.get active_link link.token s).1
        active_link link.token,
    L.get_reads active_link link.token (create_active_link fs link s).1,
  )

  -- With a lawful client, a `CreateActiveLink` under a token that has a document returns no
  -- success and changes no document.
  create_active_link_taken :
      (link : ActiveLinkData) (s : fs.State) (t : Collection) (k : String)
      → fs.doc s active_link link.token ≢ none
      → ((create_active_link fs link s).0 ≢ ok tt)
        × (fs.doc (create_active_link fs link s).1 t k ≡ fs.doc s t k)
  unfolding create_active_link
  create_active_link_taken link s t k taken = (
    λ h. ground (arith, L.get_reads active_link link.token s),
    ground (arith, L.get_reads active_link link.token s, L.get_keeps active_link link.token s t k),
  )

  -- With a lawful client, after a `RemoveActiveLink` that returns no error, `GetActiveLink` of the
  -- token returns no link.
  get-remove_active_link :
      (token : String) (s : fs.State) {found : ActiveLinkData}
      → (remove_active_link fs token s).0 ≡ ok tt
      → (get_active_link fs token (remove_active_link fs token s).1).0 ≢ ok found
  unfolding remove_active_link get_active_link
  get-remove_active_link token s h g = ground (
    arith,
    L.delete_drops active_link token s active_link token,
    L.get_reads active_link token (remove_active_link fs token s).1,
  )

  query_from_lem :
      (emails : List String) (contacts : Dict EmailReflect) (s : fs.State) (e : String)
      → IfOk (query_reflects_from fs emails contacts s).0 (λ m. find m e ≡ (
          if has emails e && is_some (reflect_at fs s e)
          then reflect_at fs s e
          else find contacts e))
  unfolding query_reflects_from
  query_from_lem [] contacts s e = ground arith
  query_from_lem (x ∷ rest) contacts s e =
      let s' = (fs.get reflect_table x s).1 in
      elim (Option-cases (reflect_at fs s x)) [
        | inl missing ↦ ground (
          arith,
          missing,
          L.get_reads reflect_table x s,
          L.get_keeps reflect_table x s reflect_table e,
          query_from_lem rest contacts s' e,
        )
        | inr (r, held) ↦ ground (
          arith,
          held,
          L.get_reads reflect_table x s,
          L.get_keeps reflect_table x s reflect_table e,
          find-put x e r contacts,
          query_from_lem rest (put x r contacts) s' e,
        )
      ]

  -- With a lawful client, the map of a `QueryReflectsByEmails` that returns no error holds an
  -- email exactly if it was asked for and has a reflection that decodes, and then that reflection.
  find-query_reflects_by_emails :
      (emails : List String) (s : fs.State) (e : String)
      → IfOk
          (query_reflects_by_emails fs emails s).0
          (λ m. find m e ≡ (if has emails e then reflect_at fs s e else none))
  unfolding query_reflects_by_emails find
  find-query_reflects_by_emails emails s e = ground (arith, query_from_lem emails [] s e)
