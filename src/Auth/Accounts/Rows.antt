-- ===== src/Auth/Accounts/Rows.antt =====
-- The table of the users: what holds of each row, and of the emails among the rows.
use logistics_dispatch.Common.{
  ==→eq, Bool, Bool-cases, Option-cases, ap, arith, false, find_first, find_first-All,
  find_first-none, inl, inr, is_known, none, refl, same_text, same_text_iff, some, sym, true, ℕ,
  ◌==◌, ◌∙◌, ◌≡◌, ◌⊎◌,
}
use Prim.Native.String.{String}
use logistics_dispatch.Auth.State.{find_user_by_email}
use logistics_dispatch.Platform.{
  Platform, Table, find, find-put, find-rows_of, put, rows_of, rows_of-find,
}
use logistics_dispatch.Users.Entity.{AuthProvider, User}
use logistics_dispatch.World.{World}
use mathlib.Core.Path.{subst}

-- A user with a password has its hash, a user of Google a verified email, and a verified email no
-- token that waits.
pub record IsSoundUser (u : User) : Type 0 where
  pub local_password : u.provider ≡ AuthProvider.local → is_known u.password_hash ≡ true
  pub google_known :
      u.provider ≡ AuthProvider.google
      → (is_known u.google_id ≡ true) × (u.is_email_verified ≡ true)
  pub verified_clear : u.is_email_verified ≡ true → u.email_verification_token_hash ≡ none

-- Rows stand under their ids and are sound, emails are in their normal form, and no two users have the
-- same one.
pub record UsersFit {p : Platform} (normalize : String → String) (t : Table p User) : Type 0 where
  pub keyed : (k : ℕ) (u : User) → find t k ≡ some u → u.id ≡ k
  pub sound : (k : ℕ) (u : User) → find t k ≡ some u → IsSoundUser u
  pub normal : (k : ℕ) (u : User) → find t k ≡ some u → normalize u.email ≡ u.email
  pub unique :
      (k j : ℕ) (u v : User) → find t k ≡ some u → find t j ≡ some v → u.email ≡ v.email → k ≡ j

module _ {p : Platform} (normalize : String → String) (t : Table p User) where
  -- The row under a key after a row is saved.
  pub saved_row :
      (r : User) (k : ℕ) (u : User)
      → find (put t r.id r) k ≡ some u
      → ((r.id ≡ k) × (u ≡ r)) ⊎ (find t k ≡ some u)
  saved_row r k u h = elim (Bool-cases (r.id == k)) [
    | inl hit ↦ inl (==→eq r.id k hit, ground (arith, find-put t r.id k r))
    | inr miss ↦ inr (ground (arith, find-put t r.id k r))
  ]

  -- A row whose email no other row has can be saved.
  pub save-UsersFit :
      (r : User)
      → UsersFit normalize t
      → IsSoundUser r
      → normalize r.email ≡ r.email
      → ((k : ℕ) (u : User) → find t k ≡ some u → u.email ≡ r.email → k ≡ r.id)
      → UsersFit normalize (put t r.id r)
  save-UsersFit r fit sound normal alone = record {
    keyed = λ k u h. elim (saved_row r k u h) [
      | inl (e, same) ↦ rw same e
      | inr old ↦ fit.keyed k u old
    ];
    sound = λ k u h. elim (saved_row r k u h) [
      | inl (e, same) ↦ subst IsSoundUser (sym same) sound
      | inr old ↦ fit.sound k u old
    ];
    normal = λ k u h. elim (saved_row r k u h) [
      | inl (e, same) ↦ rw same normal
      | inr old ↦ fit.normal k u old
    ];
    unique = λ k j u v h i e. elim (saved_row r k u h) [
      | inl (a, same) ↦ elim (saved_row r j v i) [
        | inl (b, _) ↦ sym a ∙ b
        | inr old ↦ sym a ∙ sym (alone j v old (sym e ∙ ap (λ (x : User). x.email) same))
      ]
      | inr old ↦ elim (saved_row r j v i) [
        | inl (b, same) ↦ alone k u old (e ∙ ap (λ (x : User). x.email) same) ∙ b
        | inr old' ↦ fit.unique k j u v old old' e
      ]
    ];
  }

  -- A row can be saved again with the same email.
  pub resave-UsersFit :
      (k : ℕ) (u r : User)
      → UsersFit normalize t
      → find t k ≡ some u
      → r.id ≡ u.id
      → r.email ≡ u.email
      → IsSoundUser r
      → UsersFit normalize (put t r.id r)
  resave-UsersFit k u r fit found same mail sound =
      save-UsersFit r fit sound (rw mail (fit.normal k u found)) (λ j v here e.
        fit.unique j k v u here found (e ∙ mail) ∙ sym (fit.keyed k u found) ∙ sym same)

module _ {p : Platform} (normalize : String → String) (w : World p) where
  -- A user whom a search finds stands in the table.
  pub find_first-found :
      (test : User → Bool) (u : User)
      → UsersFit normalize w.users
      → find_first test (rows_of w.users) ≡ some u
      → (find w.users u.id ≡ some u) × (test u ≡ true)
  find_first-found test u fit e =
      find_first-All (λ x. find w.users x.id ≡ some x) test (rows_of w.users) u
        (find-rows_of (λ x. find w.users x.id ≡ some x) w.users
          (λ k x h. ap (find w.users) (fit.keyed k x h) ∙ h))
        e

  -- Where a search finds nobody, no row passes its test.
  pub find_first-nobody :
      (test : User → Bool) (k : ℕ) (u : User)
      → find_first test (rows_of w.users) ≡ none
      → find w.users k ≡ some u
      → test u ≡ false
  find_first-nobody test k u e found =
      rows_of-find (λ x. test x ≡ false) w.users k u (find_first-none test (rows_of w.users) e)
        found

  -- The search by email finds the row with it.
  pub find_user_by_email-row :
      (k : ℕ) (u : User)
      → UsersFit normalize w.users
      → find w.users k ≡ some u
      → find_user_by_email u.email w ≡ some u
  find_user_by_email-row k u fit found = elim (Option-cases (find_user_by_email u.email w)) [
    | inl e ↦ absurd (
        ground (
          arith,
          find_first-nobody (λ x. same_text x.email u.email) k u e found,
          (same_text_iff u.email u.email).1 refl,
        ))
    | inr (v, e) ↦
        let (here, mail) = find_first-found (λ x. same_text x.email u.email) v fit e in
        let same = fit.unique v.id k v u here found ((same_text_iff v.email u.email).0 mail) in
        e ∙ sym here ∙ ap (find w.users) same ∙ found
  ]
