-- ===== src/Throttler/Config.antt =====
-- src/common/throttler/throttle.config.ts
use logistics_dispatch.Common.{
  Bool-cases, arith, if◌then◌else◌, inl, inr, ltb, refl, ℕ, ◌/◌, ◌<◌, ◌↔◌, ◌≡◌,
}
use logistics_dispatch.Dispatch.Config.{EnvNumber, below_zero, fraction, not_finite}
use native.Mathlib.Nat.{div-eq_of_lt}

-- `parsePositiveInt`
unfoldable pub parse_positive_int : EnvNumber → ℕ → ℕ
parse_positive_int not_finite fallback = fallback
parse_positive_int below_zero fallback = fallback
parse_positive_int (fraction top bottom) fallback = if ltb 0 top then top / bottom else fallback

pub record Limits : Type 0 where
  pub ttl_ms : ℕ
  pub limit : ℕ
  pub block_ms : ℕ

pub record ThrottleConfig : Type 0 where
  pub global : Limits
  pub register : Limits
  pub login : Limits
  pub resend_verification_email : Limits
  pub forgot_password : Limits
  pub refresh : Limits

-- The three environment variables of one throttle.
pub record LimitsEnv : Type 0 where
  pub ttl_ms : EnvNumber
  pub limit : EnvNumber
  pub block_ms : EnvNumber

unfoldable pub limits_of : LimitsEnv → ℕ → ℕ → ℕ → Limits
unfolding parse_positive_int
limits_of env ttl_ms limit block_ms = record {
  ttl_ms = parse_positive_int env.ttl_ms ttl_ms;
  limit = parse_positive_int env.limit limit;
  block_ms = parse_positive_int env.block_ms block_ms;
}

-- `throttleConfig`, from the variables THROTTLE_GLOBAL_… and THROTTLE_AUTH_….
unfoldable pub throttle_config :
    LimitsEnv → LimitsEnv → LimitsEnv → LimitsEnv → LimitsEnv → LimitsEnv → ThrottleConfig
unfolding limits_of
throttle_config global register login resend forgot refresh = record {
  global = limits_of global 60000 120 120000;
  register = limits_of register 900000 3 900000;
  login = limits_of login 60000 5 900000;
  resend_verification_email = limits_of resend 600000 2 600000;
  forgot_password = limits_of forgot 600000 2 600000;
  refresh = limits_of refresh 300000 10 600000;
}

-- A number between 0 and 1.
abbrev IsBelowOne : EnvNumber → Type 0
IsBelowOne (fraction top bottom) = (0 < top) × (top < bottom)
IsBelowOne _ = ⊥

abbrev IsNumber : EnvNumber → Type 0
IsNumber (fraction top bottom) = 0 < bottom
IsNumber _ = Unit {0}

-- A setting of a throttle whose default is positive is 0, which `parsePositiveInt` is to rule out, for
-- the environment variables between 0 and 1 and for no others.
parse_positive_int_zero :
    (v : EnvNumber) (fallback : ℕ)
    → 0 < fallback
    → IsNumber v
    → (parse_positive_int v fallback ≡ 0) ↔ IsBelowOne v
unfolding parse_positive_int
parse_positive_int_zero not_finite fallback positive number =
    ((λ e. absurd (omega arith)), (λ b. absurd b))
parse_positive_int_zero below_zero fallback positive number =
    ((λ e. absurd (omega arith)), (λ b. absurd b))
parse_positive_int_zero (fraction top bottom) fallback positive number =
    elim (Bool-cases (ltb 0 top)) [
      | inl some_top ↦
          ((λ e. (ground arith, grind arith)), (λ b. rw (some_top, div-eq_of_lt b.1) refl))
      | inr none_top ↦ ((λ e. absurd (ground arith)), (λ b. absurd (ground arith)))
    ]
