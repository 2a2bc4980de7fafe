-- ===== src/Drivers/Entity.antt =====
-- src/drivers/entities and src/drivers/enums: the row of a driver. `createdBy`, which no code
-- reads or writes, and `updatedAt`, which the database keeps, are not modelled.
use logistics_dispatch.Common.{Bool, List, Option, [], arith, false, true, ℕ, ◌==◌, ◌||◌, ◌∷◌, ◌≡◌}
use Prim.Native.String.{String}

pub data VehincleType : Type 0 where
  bike car van truck : VehincleType

abbrev vehincle_rank : VehincleType → ℕ
vehincle_rank bike = 0
vehincle_rank car = 1
vehincle_rank van = 2
vehincle_rank truck = 3

-- `a === b` on two types of vehicle.
abbrev pub vehincle_eq : VehincleType → VehincleType → Bool
vehincle_eq a b = vehincle_rank a == vehincle_rank b

-- `[…].includes(v)` on a list of types.
abbrev pub has_vehincle : List VehincleType → VehincleType → Bool
has_vehincle [] v = false
has_vehincle (u ∷ us) v = vehincle_eq u v || has_vehincle us v

pub record Driver (Float : Type 0) : Type 0 where
  pub id : ℕ
  pub user_id : ℕ
  pub vehincle_type : VehincleType
  pub license_number : String
  pub online_status : Bool
  pub current_latitude : Option Float
  pub current_longitude : Option Float
  pub rating : Float
  pub is_suspended : Bool
  pub created_at : ℕ

pub vehincle_eq→eq : (a b : VehincleType) → vehincle_eq a b ≡ true → a ≡ b
vehincle_eq→eq bike b h = ground arith
vehincle_eq→eq a b h = ground arith
