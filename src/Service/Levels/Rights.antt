-- ===== src/Service/Levels/Rights.antt =====
-- Who may bind how many emails, and what `uniqueCombine` returns.
use contact_server.Base.{
  zero, suc, ℕ, ◌≤◌, ◌<◌, ◌≡◌, refl, ◌⊎◌, ◌↔◌, String, false, ◌||◌, List, [], ◌∷◌, ◌++◌, has,
  Distinct, has-append, arith, ok, Bool-cases, inl, inr, ◌^◌,
}
use contact_server.Service.Levels.{
  rights_of_action, rights_of_account, add_if_not_seen, unique_combine,
}

-- The levels that are paid for or free hold up to 2 ^ level addresses; the enterprise level and,
-- as the code stands, the inactive one are not bounded; no other level may bind.
abbrev pub Allows : ℕ → ℕ → Type 0
Allows level n = (level ≡ 0) ⊎ ((level ≡ 4) ⊎ ((1 ≤ level) × (level ≤ 3) × (n ≤ 2 ^ level)))

module _ (level n : ℕ) where
  level_cases :
      (level ≡ 0) ⊎ ((level ≡ 1) ⊎ ((level ≡ 2) ⊎ ((level ≡ 3) ⊎ ((level ≡ 4) ⊎ (4 < level)))))
  level_cases = ground arith

-- `checkRightsOfAction` passes exactly if the level is inactive or enterprise, or is free, normal
-- vip or plus vip and the number of emails is at most 2, 4 or 8.
pub rights_of_action-Allows : (level n : ℕ) → (rights_of_action level n ≡ ok tt) ↔ Allows level n
unfolding rights_of_action
rights_of_action-Allows zero n = (λ _. inl refl, λ _. refl)
rights_of_action-Allows (suc zero) n = (λ h. ground arith, λ h. ground arith)
rights_of_action-Allows (suc (suc zero)) n = (λ h. ground arith, λ h. ground arith)
rights_of_action-Allows (suc (suc (suc zero))) n = (λ h. ground arith, λ h. ground arith)
rights_of_action-Allows (suc (suc (suc (suc zero)))) n = (λ _. inr (inl refl), λ _. refl)
rights_of_action-Allows (suc (suc (suc (suc (suc k))))) n = (λ h. ground arith, λ h. ground arith)

-- The check of an account takes the same decision.
pub rights_of_account-rights_of_action :
    (level n : ℕ) → (rights_of_account level n ≡ ok tt) ↔ (rights_of_action level n ≡ ok tt)
unfolding rights_of_account rights_of_action
rights_of_account-rights_of_action level n = (λ h. ground arith, λ h. ground arith)

has-add_if_not_seen :
    (items result : List String) (a : String)
    → has (add_if_not_seen items result) a ≡ (has result a || has items a)
unfolding add_if_not_seen
has-add_if_not_seen [] result a = ground arith
has-add_if_not_seen (item ∷ rest) result a = elim (Bool-cases (has result item)) [
  | inl seen ↦ rw seen (ground (arith, seen, has-add_if_not_seen rest result a))
  | inr new ↦ rw new (
      ground (
        arith,
        new,
        has-add_if_not_seen rest (result ++ (item ∷ [])) a,
        has-append result (item ∷ []) a,
      ))
]

Distinct-snoc :
    (xs : List String) (a : String) → has xs a ≡ false → Distinct xs → Distinct (xs ++ (a ∷ []))
Distinct-snoc [] a h d = (refl, tt)
Distinct-snoc (x ∷ xs) a h d = ground (arith, has-append xs (a ∷ []) x, Distinct-snoc xs a)

Distinct-add_if_not_seen :
    (items result : List String) → Distinct result → Distinct (add_if_not_seen items result)
unfolding add_if_not_seen
Distinct-add_if_not_seen [] result d = d
Distinct-add_if_not_seen (item ∷ rest) result d = elim (Bool-cases (has result item)) [
  | inl seen ↦ rw seen (Distinct-add_if_not_seen rest result d)
  | inr new ↦
      rw new
        (Distinct-add_if_not_seen rest (result ++ (item ∷ [])) (Distinct-snoc result item new d))
]

-- `uniqueCombine` returns a list that holds nothing twice and holds exactly what one of its two
-- arguments holds.
unique_combine_lem :
    (slice1 slice2 : List String)
    → Distinct (unique_combine slice1 slice2)
      × ((a : String) → has (unique_combine slice1 slice2) a ≡ (has slice1 a || has slice2 a))
unfolding unique_combine
unique_combine_lem slice1 slice2 = (
  Distinct-add_if_not_seen slice2 (add_if_not_seen slice1 [])
      (Distinct-add_if_not_seen slice1 [] tt),
  λ a. ground (
    arith,
    has-add_if_not_seen slice2 (add_if_not_seen slice1 []) a,
    has-add_if_not_seen slice1 [] a,
  ),
)
