-- ===== src/Users/Promotion.antt =====
-- What `promoteToDriver` of src/users/users.service.ts leaves behind.
use logistics_dispatch.Common.{
  ==_refl, Bool, Bool-cases, Exception, Option-cases, arith, conflict, err, inl, inr, internal,
  none, not_found, refl, some, unprocessable, ℕ, ◌≡◌, ◌⊎◌,
}
use logistics_dispatch.Drivers.Service.{find_driver_of}
use logistics_dispatch.Platform.{Platform, find, find-put}
use logistics_dispatch.Users.Entity.{User, UserRole, admin, customer, driver}
use logistics_dispatch.Users.Service.{PromoteToDriverDto, new_driver, promote_to_driver}
use logistics_dispatch.World.{World}

module _ {p : Platform} where
  -- The rows before and after a promotion that goes through.
  abbrev pub Promoted : ℕ → PromoteToDriverDto → ℕ → ℕ → World p → World p → Type 0
  Promoted user_id dto driver_id now w w' =
      (u : User) × (find w.users user_id ≡ some u)
      × (u.role ≡ customer)
      × (find_driver_of u.id w ≡ none)
      × (find w'.users u.id ≡ some (record u { role = driver }))
      × (find w'.drivers driver_id ≡ some (new_driver p dto u.id driver_id now))
      × (w'.orders ≡ w.orders)

  -- A promotion is refused and changes nothing, or a customer who had no profile as a driver is made a
  -- driver, with a profile under the new id that is offline and not suspended.
  promote_cases :
      (license_free : Bool) (user_id driver_id now : ℕ) (dto : PromoteToDriverDto) (w : World p)
      → ((e : Exception) × (promote_to_driver license_free user_id dto driver_id now w
            ≡ (err e, w)))
        ⊎ Promoted user_id dto driver_id now w
            (promote_to_driver license_free user_id dto driver_id now w).1
  unfolding promote_to_driver
  promote_cases license_free user_id driver_id now dto w =
      elim (Option-cases (find w.users user_id)) [
        | inl e ↦ inl (not_found, ground arith)
        | inr (u, e) ↦ by_role u.role u e refl
      ]
    where
      by_role :
          (r : UserRole) (u : User)
          → find w.users user_id ≡ some u
          → u.role ≡ r
          → ((e : Exception) × (promote_to_driver license_free user_id dto driver_id now w
                ≡ (err e, w)))
            ⊎ Promoted user_id dto driver_id now w
                (promote_to_driver license_free user_id dto driver_id now w).1
      by_role driver u e r = inl (conflict, ground arith)
      by_role admin u e r = inl (unprocessable, ground arith)
      by_role customer u e r = elim (Option-cases (find_driver_of u.id w)) [
        | inr (d, has) ↦ inl (conflict, ground arith)
        | inl free ↦ elim (Bool-cases license_free) [
          | inr taken ↦ inl (internal, ground arith)
          | inl open' ↦ inr (
            u,
            e,
            r,
            free,
            ground (arith, find-put w.users u.id u.id (record u { role = driver }), ==_refl u.id),
            ground (
              arith,
              find-put w.drivers driver_id driver_id (new_driver p dto u.id driver_id now),
              ==_refl driver_id,
            ),
            ground arith,
          )
        ]
      ]
