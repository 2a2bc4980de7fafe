-- ===== src/Examples/Recovery.antt =====
-- The theorems on the registration of an account, on a forgotten password, and on the table of users.
use logistics_dispatch.Common.{
  Bool-cases, [], ap, arith, err, false, if◌then◌else◌, inl, inr, is_ok, none, ok, refl, same_text,
  some, sym, true, unauthorized, ℕ, ◌∙◌, ◌∷◌, ◌≡◌,
}
use Prim.Native.String.{String}
use logistics_dispatch.Auth.Accounts.{AccountEvent, account_run}
use logistics_dispatch.Auth.Accounts.Invariant.{account_run-fit}
use logistics_dispatch.Auth.Accounts.Reset.{ResetReplaces, reset_replaces}
use logistics_dispatch.Auth.Accounts.Rows.{IsSoundUser, UsersFit}
use logistics_dispatch.Auth.Accounts.Saves.{AccountsFit}
use logistics_dispatch.Auth.Accounts.Signup.{signup_enters}
use logistics_dispatch.Auth.Login.{login}
use logistics_dispatch.Auth.Passwords.{forgot_password, reset_password}
use logistics_dispatch.Auth.Registration.{RegisterDto, register, verified_now, verify_email}
use logistics_dispatch.Auth.State.{AuthState, Draw, find_user_by_email}
use logistics_dispatch.Auth.Tokens.{OwnedToken}
use logistics_dispatch.Examples.Accounts.{account_world, ada, plain}
use logistics_dispatch.Platform.{find, rows_of}
use logistics_dispatch.Platform.Memory.{memory, table_of}
use logistics_dispatch.Users.Entity.{User}
use mathlib.Core.Path.{subst}

-- A normal form that changes one text.
abbrev pub tidy : String → String
tidy e = if same_text e " C@X" then "c@x" else e

pub tidy_twice : (e : String) → tidy (tidy e) ≡ tidy e
tidy_twice e = elim (Bool-cases (same_text e " C@X")) [
  | inl hit ↦ ground (arith, same_text_plain)
  | inr miss ↦ ground arith
]
  where
    same_text_plain : same_text "c@x" " C@X" ≡ false
    same_text_plain = refl

abbrev pub ada_state : AuthState memory
ada_state = record { world = account_world; keys = table_of []; mails = [] }

ada_only : (k : ℕ) (u : User) → find ada_state.world.users k ≡ some u → (k ≡ 1) × (u ≡ ada)
unfolding find
ada_only k u h = ground arith

pub ada_fit : UsersFit tidy ada_state.world.users
ada_fit = record {
  keyed = λ k u h. rw (ada_only k u h).0 (ap (λ (x : User). x.id) (ada_only k u h).1);
  sound = λ k u h. subst IsSoundUser (sym (ada_only k u h).1) ada-IsSound;
  normal = λ k u h. rw (ada_only k u h).1 refl;
  unique = λ k j u v h i e. (ada_only k u h).0 ∙ sym (ada_only j v i).0;
}
  where
    ada-IsSound : IsSoundUser ada
    ada-IsSound = ground arith

abbrev pub draw : Draw
draw = record { secret = 77; salt = 4; sent = true }

abbrev pub bob : RegisterDto
bob = record { name = "Bob"; email = "b@x"; password = 21 }

bob_unknown : find_user_by_email (tidy bob.email) ada_state.world ≡ none
unfolding rows_of
bob_unknown = refl

ada_kept : find ada_state.world.users 1 ≡ some ada
unfolding find
ada_kept = refl

account_run-fit_example : AccountsFit plain tidy (
    account_run plain tidy
      (AccountEvent.registers bob 2 4 draw 70
        ∷ AccountEvent.verifies (some (record { owner = 2; secret = 77 })) 80
        ∷ AccountEvent.forgets " C@X" draw 90
        ∷ AccountEvent.logs_in "b@x" 21 5 6
        ∷ [])
      ada_state)
account_run-fit_example =
    account_run-fit plain tidy
      (AccountEvent.registers bob 2 4 draw 70
        ∷ AccountEvent.verifies (some (record { owner = 2; secret = 77 })) 80
        ∷ AccountEvent.forgets " C@X" draw 90
        ∷ AccountEvent.logs_in "b@x" 21 5 6
        ∷ [])
      ada_state tidy_twice ada_fit

signup_enters_example :
    let x = register plain tidy bob 2 4 draw 70 ada_state in
    let y = verify_email plain (some (record { owner = 2; secret = 77 })) 80 x.1 in
    (is_ok x.0 ≡ true)
    × (login plain tidy "b@x" 21 5 6 x.1 ≡ (err unauthorized, x.1))
    × (y.0 ≡ ok verified_now)
    × (is_ok (login plain tidy "b@x" 21 5 6 y.1).0 ≡ true)
signup_enters_example =
    signup_enters plain tidy bob "b@x" 2 4 draw 70 80 5 6 ada_state tidy_twice ada_fit bob_unknown
      refl (omega arith) (omega arith)

reset_replaces_example :
    let t : OwnedToken = record { owner = 1; secret = 77 } in
    let x =
      reset_password plain (some t) 4 32 90 (forgot_password plain tidy " C@X" draw 70 ada_state) in
    (x.0 ≡ ok tt) × ResetReplaces plain tidy " C@X" 5 32 90 t 6 8 ada_state x.1
reset_replaces_example =
    reset_replaces plain tidy " C@X" draw 5 32 4 70 90 6 8 ada ada_state ada_fit ada_kept
      (omega arith) refl refl refl refl (omega arith)
