-- ===== src/Accounting/AccountCode/Climb.antt =====
-- The climb to the root ends.
use markaz.Prelude.{
  ℕ, zero, suc, ◌+◌, ◌≤◌, ◌<◌, ◌≡◌, ◌∙◌, ap, inl, inr, true, false, some, List, [], ◌∷◌, ◌==◌,
  if◌then◌else◌, length, arith, Bool-cases, Option-cases,
}
use markaz.Accounting.AccountCode.{CodedAccount, by_id, has_id, next_up, climb, level_of}

-- How many accounts the climb has not met.
unseen : List CodedAccount → List ℕ → ℕ
unseen [] seen = 0
unseen (a ∷ more) seen = let rest = unseen more seen in if has_id seen a.id then rest else suc rest

unseen_le : (accounts : List CodedAccount) (seen : List ℕ) → unseen accounts seen ≤ length accounts
unfolding unseen
unseen_le [] seen = omega arith
unseen_le (a ∷ more) seen = let rest = unseen_le more seen in ground arith

unseen_mono :
    (accounts : List CodedAccount) (seen : List ℕ) (k : ℕ)
    → unseen accounts (k ∷ seen) ≤ unseen accounts seen
unfolding unseen
unseen_mono [] seen k = omega arith
unseen_mono (a ∷ more) seen k = let rest = unseen_mono more seen k in ground arith

unseen_less :
    (accounts : List CodedAccount) (seen : List ℕ) (id : ℕ) (p : CodedAccount)
    → by_id id accounts ≡ some p
    → has_id seen p.id ≡ false
    → unseen accounts (p.id ∷ seen) < unseen accounts seen
unfolding unseen
unseen_less [] seen id p e new = absurd (ground arith)
unseen_less (a ∷ more) seen id p e new = elim (Option-cases (by_id id more)) [
  | inr (b, later) ↦
      let same : b ≡ p = ground arith in
      let rest = unseen_less more seen id p (later ∙ ap some same) new in ground arith
  | inl absent ↦
      let rest = unseen_mono more seen p.id in
      elim (Bool-cases (a.id == id)) [
        | inr other ↦ absurd (ground arith)
        | inl own ↦
            let same : a ≡ p = ground arith in
            let hit : (p.id == a.id) ≡ true = ground arith in
            let new' : has_id seen a.id ≡ false = rw same new in ground arith
      ]
]

next_up_inv :
    (accounts : List CodedAccount) (seen : List ℕ) (current parent : CodedAccount)
    → next_up accounts seen current ≡ some parent
    → (id : ℕ) × (by_id id accounts ≡ some parent) × (has_id seen parent.id ≡ false)
next_up_inv accounts seen current parent e = elim (Option-cases current.parent_id) [
  | inl root ↦ absurd (ground arith)
  | inr (id, child) ↦ elim (Option-cases (by_id id accounts)) [
    | inl unknown ↦ absurd (ground arith)
    | inr (p, there) ↦ elim (Bool-cases (has_id seen p.id)) [
      | inl old ↦ absurd (ground arith)
      | inr new ↦ (id, ground arith, ground arith)
    ]
  ]
]

climb_ends :
    (fuel : ℕ) (accounts : List CodedAccount) (seen : List ℕ) (current : CodedAccount) (level : ℕ)
    → unseen accounts seen ≤ fuel
    → (n : ℕ) × (climb fuel accounts seen current level ≡ some n) × (level ≤ n) × (n ≤ level + fuel)
unfolding climb
climb_ends zero accounts seen current level enough =
    elim (Option-cases (next_up accounts seen current)) [
      | inl stop ↦ (level, ground arith, omega arith, omega arith)
      | inr (parent, on) ↦
          let (id, there, new) = next_up_inv accounts seen current parent on in
          absurd (omega (arith, unseen_less accounts seen id parent there new))
    ]
climb_ends (suc fuel) accounts seen current level enough =
    elim (Option-cases (next_up accounts seen current)) [
      | inl stop ↦ (level, ground arith, omega arith, omega arith)
      | inr (parent, on) ↦
          let (id, there, new) = next_up_inv accounts seen current parent on in
          let less = unseen_less accounts seen id parent there new in
          let (n, ended, low, high) =
            climb_ends fuel accounts (parent.id ∷ seen) parent (suc level) (omega arith) in
          (n, ground arith, omega arith, omega arith)
    ]

-- The climb from an account to the root ends, whatever the parents are, cycles and missing parents
-- included: as many rounds as there are accounts are enough, and the level is at least 1 and at most
-- one more than there are accounts.
pub level_of_ends :
    (account : CodedAccount) (accounts : List CodedAccount)
    → (n : ℕ) × (level_of account accounts ≡ some n) × (1 ≤ n) × (n ≤ suc (length accounts))
unfolding level_of
level_of_ends account accounts =
    let (n, ended, low, high) =
      climb_ends (length accounts) accounts (account.id ∷ []) account 1
        (unseen_le accounts (account.id ∷ [])) in
    (n, ended, low, omega arith)
