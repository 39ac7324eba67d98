-- ===== src/App/Accounts/Laws.antt =====
-- `save_account` of main.rs and the erasing of an account.
use e2e_console_messenger.Base.{
  ℕ, zero, suc, ◌≤◌, ◌≡◌, refl, inl, inr, true, false, List, [], ◌∷◌, ◌==◌, not, ltb, ltb→le,
  ==_iff, length, length-take, length-retain-le, take, retain, All, arith, Bool-cases,
}
use e2e_console_messenger.App.State.{SavedAccount, MeshApp}
use e2e_console_messenger.App.Accounts.{
  same_account, max_accounts, with_account, save_accounts, forget_account,
}

-- No two accounts of the list have the same name, host and port.
abbrev pub Distinct : List SavedAccount → Type 0
Distinct [] = Unit
Distinct (a ∷ l) = All (λ b. same_account b a ≡ false) l × Distinct l

abbrev pub IsKept : List SavedAccount → Type 0
IsKept l = (length l ≤ max_accounts) × Distinct l

-- The list without an account.
abbrev pub without : SavedAccount → List SavedAccount → List SavedAccount
without acc l = retain (λ a. not (same_account a acc)) l

module _ (P : SavedAccount → Type 0) where
  All-take : (n : ℕ) (l : List SavedAccount) → All P l → All P (take n l)
  All-take zero l h = tt
  All-take (suc n) [] h = tt
  All-take (suc n) (a ∷ l) h = (h.0, All-take n l h.1)

  All-without : (acc : SavedAccount) (l : List SavedAccount) → All P l → All P (without acc l)
  All-without acc [] h = tt
  All-without acc (a ∷ l) h = elim (Bool-cases (same_account a acc)) [
    | inl e ↦ rw e (All-without acc l h.1)
    | inr e ↦ rw e (h.0, All-without acc l h.1)
  ]

without-Lacks :
    (acc : SavedAccount) (l : List SavedAccount)
    → All (λ b. same_account b acc ≡ false) (without acc l)
without-Lacks acc [] = tt
without-Lacks acc (a ∷ l) = elim (Bool-cases (same_account a acc)) [
  | inl e ↦ rw e (without-Lacks acc l)
  | inr e ↦ rw e (e, without-Lacks acc l)
]

without-Distinct :
    (acc : SavedAccount) (l : List SavedAccount) → Distinct l → Distinct (without acc l)
without-Distinct acc [] h = tt
without-Distinct acc (a ∷ l) h = elim (Bool-cases (same_account a acc)) [
  | inl e ↦ rw e (without-Distinct acc l h.1)
  | inr e ↦ rw e (All-without (λ b. same_account b a ≡ false) acc l h.0, without-Distinct acc l h.1)
]

take-Distinct : (n : ℕ) (l : List SavedAccount) → Distinct l → Distinct (take n l)
take-Distinct zero l h = tt
take-Distinct (suc n) [] h = tt
take-Distinct (suc n) (a ∷ l) h =
    (All-take (λ b. same_account b a ≡ false) n l h.0, take-Distinct n l h.1)

-- Saving an account puts it first and keeps the list distinct and within its limit, even if the list
-- was longer: no other entry has its name, host and port.
pub with_account-IsKept :
    (acc : SavedAccount) (l : List SavedAccount)
    → Distinct l
    → (rest : List SavedAccount) × (with_account acc l ≡ acc ∷ rest)
      × IsKept (with_account acc l)
      × All (λ b. same_account b acc ≡ false) rest
unfolding with_account
with_account-IsKept acc l h = elim (Bool-cases (ltb max_accounts (length (acc ∷ without acc l)))) [
  | inl e ↦ rw e (
    take 9 (without acc l),
    refl,
    (omega (arith, length-take 9 (without acc l)), kept 9),
    All-take (λ b. same_account b acc ≡ false) 9 _ (without-Lacks acc l),
  )
  | inr e ↦ rw e (
    without acc l,
    refl,
    (
      ltb→le max_accounts (length (acc ∷ without acc l)) e,
      (without-Lacks acc l, without-Distinct acc l h),
    ),
    without-Lacks acc l,
  )
]
  where
    kept : (n : ℕ) → Distinct (acc ∷ take n (without acc l))
    kept n = (
      All-take (λ b. same_account b acc ≡ false) n _ (without-Lacks acc l),
      take-Distinct n _ (without-Distinct acc l h),
    )

without-All :
    (acc : SavedAccount) (l : List SavedAccount)
    → length l ≤ length (without acc l)
    → All (λ b. same_account b acc ≡ false) l
without-All acc [] h = tt
without-All acc (a ∷ l) h = elim (Bool-cases (same_account a acc)) [
  | inl e ↦
      let h' = rw e at h in
      absurd (omega (arith, length-retain-le (λ b. not (same_account b acc)) l))
  | inr e ↦ (e, without-All acc l (let h' = rw e at h in omega arith))
]

-- Without consent the password is gone: behind `forget_account`, if the file can be written, no
-- stored entry has the account's name, host and port.
pub forget_account-Lacks :
    (acc : SavedAccount) (app : MeshApp)
    → All (λ b. same_account b acc ≡ false) (forget_account true acc app).stored_accounts
unfolding forget_account save_accounts
forget_account-Lacks acc app =
    let kept = length (without acc app.stored_accounts) == length app.stored_accounts in
    elim (Bool-cases kept) [
      | inl e ↦ rw e (
          without-All acc app.stored_accounts (
            omega (
              arith,
              (==_iff (length (without acc app.stored_accounts)) (length app.stored_accounts)).0 e,
            )))
      | inr e ↦ rw e (without-Lacks acc app.stored_accounts)
    ]
