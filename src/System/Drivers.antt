-- ===== src/System/Drivers.antt =====
-- What each event of the service does to the table of drivers: one row changes at most.
use logistics_dispatch.Common.{
  Bool, Bool-cases, List, Option, Option-cases, [], arith, inl, inr, refl, some, sym, ℕ, ◌∙◌, ◌∷◌,
  ◌≡◌, ◌⊎◌,
}
use logistics_dispatch.Dispatch.Config.{DispatchConfig}
use logistics_dispatch.Drivers.Entity.{Driver}
use logistics_dispatch.Drivers.Service.{find_driver_of, update_location}
use logistics_dispatch.Orders.Create.{CreateOrderDto, IdempotencyKey, create_order}
use logistics_dispatch.Orders.Lifecycle.Tables.{IsKeyed}
use logistics_dispatch.Outbox.Entity.{
  OutboxBody, OutboxEvent, dispatch_trigger, malformed_trigger, unknown_event,
}
use logistics_dispatch.Outbox.Worker.{attempt, handle_row, handle_rows, next_batch, process_outbox}
use logistics_dispatch.Platform.{Platform, find, put}
use logistics_dispatch.System.{
  Event, accepts_order, assigns, creates, moves, polls_outbox, promotes_customer, reassigns,
  recalculates, rejects_order, sets_location, soft_deletes, step, times_out, toggles_availability,
  toggles_suspension, updates,
}
use logistics_dispatch.System.Frames.{
  accept-SameRest, assign-SameRest, delete-SameRest, eta-SameRest, reassign-SameRest,
  reject-SameRest, timeout-SameRest, update-SameRest,
}
use logistics_dispatch.System.Switches.{
  OneDriver, availability-OneDriver, broadcast-drivers, location-OneDriver, suspension-OneDriver,
}
use logistics_dispatch.Tracking.{update_position}
use logistics_dispatch.Users.Entity.{JwtUser, User, UserRole}
use logistics_dispatch.Users.Service.{PromoteToDriverDto, new_driver, promote_to_driver}
use logistics_dispatch.World.{World}
use mathlib.Core.Path.{subst}

module _ {p : Platform} where
  handle_rows-drivers :
      (reachable : ℕ → Bool) (now : ℕ) (es : List OutboxEvent) (w : World p)
      → (handle_rows reachable now es w).drivers ≡ w.drivers
  unfolding handle_rows
  handle_rows-drivers reachable now [] w = refl
  handle_rows-drivers reachable now (e ∷ es) w =
      handle_rows-drivers reachable now es (handle_row reachable now e w) ∙ row-drivers e e.body w
    where
      row-drivers :
          (e : OutboxEvent) (b : OutboxBody) (w : World p)
          → (attempt reachable now e b w).drivers ≡ w.drivers
      row-drivers e (dispatch_trigger k) w = ground arith
      row-drivers e malformed_trigger w = refl
      row-drivers e unknown_event w = refl

  create-drivers :
      (dto : CreateOrderDto p.Float) (c : ℕ) (key : Option IdempotencyKey) (k b now : ℕ)
      (w : World p)
      → (create_order dto c key k b now w).1.drivers ≡ w.drivers
  unfolding create_order
  create-drivers dto c key k b now w = ground arith

  set_location-drivers :
      (user : JwtUser) (lat lng : p.Float) (w : World p) (d : Driver p.Float)
      → find_driver_of user.user_id w ≡ some d
      → (update_position d.id lat lng w).drivers ≡ (update_location user lat lng w).1.drivers
  unfolding update_location update_position
  set_location-drivers user lat lng w d e = ground arith

  set_location-OneDriver :
      (user : JwtUser) (lat lng : p.Float) (w : World p)
      → IsKeyed w
      → OneDriver w (update_location user lat lng w).1.drivers
  unfolding update_location
  set_location-OneDriver user lat lng w keyed =
      elim (Option-cases (find_driver_of user.user_id w)) [
        | inl e ↦ inl (ground arith)
        | inr (d, e) ↦
            subst (OneDriver w) (set_location-drivers user lat lng w d e)
              (location-OneDriver d.id lat lng w keyed)
      ]

  promotion-drivers :
      (license_free : Bool) (user_id driver_id now : ℕ) (dto : PromoteToDriverDto) (w : World p)
      → let t = (promote_to_driver license_free user_id dto driver_id now w).1.drivers in
        (t ≡ w.drivers)
        ⊎ ((id : ℕ) × (t ≡ put w.drivers driver_id (new_driver p dto id driver_id now)))
  unfolding promote_to_driver
  promotion-drivers license_free user_id driver_id now dto w =
      elim (Option-cases (find w.users user_id)) [
        | inl e ↦ inl (ground arith)
        | inr (u, e) ↦ by_role u.role u e refl
      ]
    where
      by_role :
          (r : UserRole) (u : User)
          → find w.users user_id ≡ some u
          → u.role ≡ r
          → let t = (promote_to_driver license_free user_id dto driver_id now w).1.drivers in
            (t ≡ w.drivers)
            ⊎ ((id : ℕ) × (t ≡ put w.drivers driver_id (new_driver p dto id driver_id now)))
      by_role UserRole.driver u e r = inl (ground arith)
      by_role UserRole.admin u e r = inl (ground arith)
      by_role UserRole.customer u e r = elim (Option-cases (find_driver_of u.id w)) [
        | inr (d, has) ↦ inl (ground arith)
        | inl free ↦ elim (Bool-cases license_free) [
          | inr taken ↦ inl (ground arith)
          | inl open' ↦ inr (u.id, ground arith)
        ]
      ]

  promotion-OneDriver :
      (license_free : Bool) (user_id driver_id now : ℕ) (dto : PromoteToDriverDto) (w : World p)
      → OneDriver w (promote_to_driver license_free user_id dto driver_id now w).1.drivers
  unfolding promote_to_driver new_driver
  promotion-OneDriver license_free user_id driver_id now dto w =
      elim (promotion-drivers license_free user_id driver_id now dto w) [
        | inl same ↦ inl same
        | inr (id, made) ↦ inr (inr (new_driver p dto id driver_id now, ground arith, made))
      ]

  -- Every event changes one driver at most.
  pub step-OneDriver :
      (cfg : DispatchConfig) (e : Event p) (w : World p)
      → IsKeyed w
      → OneDriver w (step cfg e w).drivers
  unfolding step process_outbox
  step-OneDriver cfg (creates dto c key k b now) w keyed = inl (create-drivers dto c key k b now w)
  step-OneDriver cfg (updates k new user) w keyed = inl (update-SameRest k new user w).0
  step-OneDriver cfg (reassigns k user) w keyed = inl (reassign-SameRest k user w).0
  step-OneDriver cfg (soft_deletes k now) w keyed = inl (delete-SameRest k now w).0
  step-OneDriver cfg (assigns free k) w keyed = inl (assign-SameRest cfg free k w).0
  step-OneDriver cfg (times_out k d) w keyed = inl (timeout-SameRest cfg k d w).0
  step-OneDriver cfg (accepts_order k user) w keyed = inl (accept-SameRest k user w).0
  step-OneDriver cfg (rejects_order k user) w keyed = inl (reject-SameRest cfg k user w).0
  step-OneDriver cfg (toggles_availability user) w keyed = availability-OneDriver user w keyed
  step-OneDriver cfg (toggles_suspension d) w keyed = suspension-OneDriver d w keyed
  step-OneDriver cfg (moves d lat lng) w keyed =
      subst (OneDriver w) (sym (broadcast-drivers d lat lng w))
        (location-OneDriver d lat lng w keyed)
  step-OneDriver cfg (sets_location user lat lng) w keyed =
      set_location-OneDriver user lat lng w keyed
  step-OneDriver cfg (promotes_customer license_free user_id dto driver_id now) w keyed =
      promotion-OneDriver license_free user_id driver_id now dto w
  step-OneDriver cfg (recalculates k d) w keyed = inl (eta-SameRest k d w).0
  step-OneDriver cfg (polls_outbox reachable now) w keyed =
      inl (handle_rows-drivers reachable now (next_batch w) w)
