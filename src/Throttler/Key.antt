-- ===== src/Throttler/Key.antt =====
-- src/common/throttler/throttle-key.util.ts: under which key a request is counted. The case of letters
-- and SHA-256 are parameters.
use logistics_dispatch.Common.{
  Bool, CodePoints, List, Option, [], codes, false, if◌then◌else◌, includes, leb, none, not, some,
  take, true, ℕ, ◌&&◌, ◌++◌, ◌==◌, ◌||◌, ◌∷◌,
}
use Prim.Native.String.{String}

-- `RequestLike`, with the email of the body and the header `x-forwarded-for` where they are texts.
pub record RequestLike : Type 0 where
  pub method : Option CodePoints
  pub base_url : Option CodePoints
  pub path : Option CodePoints
  pub url : Option CodePoints
  pub route_path : Option CodePoints
  pub body_email : Option CodePoints
  pub forwarded_for : Option CodePoints
  pub ips : List CodePoints
  pub ip : Option CodePoints
  pub remote_address : Option CodePoints

-- `x || y` on a text that may be missing or empty.
abbrev pub or_text : Option CodePoints → CodePoints → CodePoints
or_text none y = y
or_text (some []) y = y
or_text (some (c ∷ cs)) y = c ∷ cs

abbrev pub same_codes : CodePoints → CodePoints → Bool
same_codes [] [] = true
same_codes [] (y ∷ t) = false
same_codes (x ∷ s) [] = false
same_codes (x ∷ s) (y ∷ t) = x == y && same_codes s t

abbrev pub has_codes : List CodePoints → CodePoints → Bool
has_codes [] s = false
has_codes (t ∷ ts) s = same_codes s t || has_codes ts s

-- `s.split(c)[0]`
unfoldable pub text_before : ℕ → CodePoints → CodePoints
text_before c [] = []
text_before c (x ∷ s) = let rest = text_before c s in if x == c then [] else x ∷ rest

-- White space and the ends of lines of JavaScript.
abbrev pub is_space : ℕ → Bool
is_space c =
    leb 9 c && leb c 13
    || leb 0x2000 c && leb c 0x200a
    || includes (32 ∷ 160 ∷ 0x1680 ∷ 0x2028 ∷ 0x2029 ∷ 0x202f ∷ 0x205f ∷ 0x3000 ∷ 0xfeff ∷ []) c

unfoldable pub trim_start : CodePoints → CodePoints
trim_start [] = []
trim_start (x ∷ s) = let rest = trim_start s in if is_space x then rest else x ∷ s

unfoldable pub trim_end : CodePoints → CodePoints
trim_end [] = []
trim_end (x ∷ s) = elim (trim_end s) [
  | [] ↦ if is_space x then [] else x ∷ []
  | y ∷ rest ↦ x ∷ y ∷ rest
]

-- `s.trim()`
unfoldable pub trim : CodePoints → CodePoints
unfolding trim_start trim_end
trim s = trim_end (trim_start s)

-- `EMAIL_SENSITIVE_AUTH_ROUTES`
abbrev pub email_sensitive_auth_routes : List CodePoints
email_sensitive_auth_routes =
    codes "POST /auth/register"
    ∷ codes "POST /auth/login"
    ∷ codes "POST /auth/resend-verification-email"
    ∷ codes "POST /auth/forgot-password"
    ∷ []

-- `getClientTracker`
unfoldable pub get_client_tracker : RequestLike → CodePoints
unfolding text_before trim
get_client_tracker r =
    if not (same_codes (or_text r.forwarded_for []) [])
    then trim (text_before b',' (or_text r.forwarded_for []))
    else elim r.ips [
      | ip ∷ ips ↦ ip
      | [] ↦ or_text r.ip (or_text r.remote_address (codes "unknown-client"))
    ]

-- `getStableRoutePath`
unfoldable pub get_stable_route_path : RequestLike → CodePoints
unfolding text_before
get_stable_route_path r =
    or_text
      (some (
        or_text r.base_url []
        ++ text_before b'?' (or_text r.route_path (or_text r.path (or_text r.url (codes "/"))))))
      (codes "/")

-- The parts that are not empty, with a bar between them.
abbrev pub join_parts : List CodePoints → CodePoints
join_parts [] = []
join_parts ([] ∷ parts) = join_parts parts
join_parts ((c ∷ cs) ∷ parts) = elim (join_parts parts) [
  | [] ↦ c ∷ cs
  | x ∷ rest ↦ (c ∷ cs) ++ (b'|' ∷ x ∷ rest)
]

-- `toUpperCase`, `toLowerCase`, and `hashValue`, whose result is a text in hexadecimal.
pub record TextOps : Type 0 where
  pub to_upper_case : CodePoints → CodePoints
  pub to_lower_case : CodePoints → CodePoints
  pub hash_value : CodePoints → String

module _ (o : TextOps) where
  -- `getEmailIdentityPart`; no part is the empty one.
  unfoldable pub get_email_identity_part : CodePoints → Option CodePoints → CodePoints
  unfolding trim
  get_email_identity_part route_key body_email =
      if not (has_codes email_sensitive_auth_routes route_key)
      then []
      else let email = trim (o.to_lower_case (or_text body_email [])) in
        if same_codes email [] then [] else codes "email:" ++ take 16 (codes (o.hash_value email))

  unfoldable pub method_of : RequestLike → CodePoints
  method_of r = o.to_upper_case (or_text r.method (codes "UNKNOWN"))

  -- The parts of the key.
  unfoldable pub key_parts : RequestLike → CodePoints → CodePoints → List CodePoints
  unfolding get_email_identity_part get_stable_route_path method_of
  key_parts r tracker throttler_name =
      let path = get_stable_route_path r in
      throttler_name
      ∷ method_of r
      ∷ path
      ∷ (codes "ip:" ++ tracker)
      ∷ get_email_identity_part (method_of r ++ (32 ∷ path)) r.body_email
      ∷ []

  -- `generateThrottleKey`
  unfoldable pub generate_throttle_key : RequestLike → CodePoints → CodePoints → String
  unfolding key_parts
  generate_throttle_key r tracker throttler_name =
      o.hash_value (join_parts (key_parts r tracker throttler_name))
