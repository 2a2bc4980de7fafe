-- ===== src/Http/Router.antt =====
-- The routes of a controller, as its decorators declare them. Which one a request gets is left to the
-- router of Nest, a parameter: it takes the first one, in the order of the declarations, that matches.
use logistics_dispatch.Common.{
  All, Bool, Bool-cases, List, Option, [], arith, false, find_first, inl, inr, none, not, refl,
  same_text, some, sym, true, ◌&&◌, ◌∙◌, ◌∷◌, ◌≡◌,
}
use Prim.Native.String.{String}
use logistics_dispatch.Users.Entity.{UserRole}
use mathlib.Core.Path.{subst}

pub data Verb : Type 0 where
  get post patch : Verb

abbrev pub verb_eq : Verb → Verb → Bool
verb_eq get get = true
verb_eq post post = true
verb_eq patch patch = true
verb_eq _ _ = false

-- A part of a path between slashes: a word, or a parameter such as `:id`.
pub data Segment : Type 0 where
  word : String → Segment
  parameter : Segment

pub record Route (Handler : Type 0) : Type 0 where
  pub verb : Verb
  pub pattern : List Segment
  pub roles : List UserRole
  pub handler : Handler

abbrev pub fits_path : List Segment → List String → Bool
fits_path [] [] = true
fits_path [] (s ∷ path) = false
fits_path (x ∷ pattern) [] = false
fits_path (word t ∷ pattern) (s ∷ path) = same_text t s && fits_path pattern path
fits_path (parameter ∷ pattern) (s ∷ path) = not (same_text s "") && fits_path pattern path

abbrev pub serves : {Handler : Type 0} → Route Handler → Verb → List String → Bool
serves r verb path = verb_eq r.verb verb && fits_path r.pattern path

pub record Router (Handler : Type 0) : Type 0 where
  pub pick : List (Route Handler) → Verb → List String → Option (Route Handler)
  pub pick-nil : (verb : Verb) (path : List String) → pick [] verb path ≡ none
  pub pick-hit :
      (r : Route Handler) (rs : List (Route Handler)) (verb : Verb) (path : List String)
      → serves r verb path ≡ true
      → pick (r ∷ rs) verb path ≡ some r
  pub pick-miss :
      (r : Route Handler) (rs : List (Route Handler)) (verb : Verb) (path : List String)
      → serves r verb path ≡ false
      → pick (r ∷ rs) verb path ≡ pick rs verb path

module _ {Handler : Type 0} (router : Router Handler) (P : Route Handler → Type 0) where
  -- The route that a request gets is one of the routes.
  pub pick-All :
      (rs : List (Route Handler)) (verb : Verb) (path : List String) (r : Route Handler)
      → All P rs
      → router.pick rs verb path ≡ some r
      → P r
  pick-All [] verb path r all e = absurd (ground (arith, router.pick-nil verb path))
  pick-All (x ∷ rs) verb path r (here, all) e = elim (Bool-cases (serves x verb path)) [
    | inl hit ↦
        let hit' = router.pick-hit x rs verb path hit in
        let same : x ≡ r = ground arith in subst P same here
    | inr miss ↦ pick-All rs verb path r all (sym (router.pick-miss x rs verb path miss) ∙ e)
  ]

module _ {Handler : Type 0} (router : Router Handler) (verb : Verb) (path : List String) where
  -- The router finds the first route that serves the request.
  pub pick-find_first :
      (rs : List (Route Handler))
      → router.pick rs verb path ≡ find_first (λ r. serves r verb path) rs
  pick-find_first [] = router.pick-nil verb path
  pick-find_first (r ∷ rs) = elim (Bool-cases (serves r verb path)) [
    | inl hit ↦ router.pick-hit r rs verb path hit ∙ rw hit refl
    | inr miss ↦ router.pick-miss r rs verb path miss ∙ pick-find_first rs ∙ rw miss refl
  ]
