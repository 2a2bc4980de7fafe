-- ===== src/Drivers/Listing.antt =====
-- src/drivers/drivers.service.ts: `findAll`. `micros` is the time of a row in the database, in
-- microseconds; the row that is read has its milliseconds.
use logistics_dispatch.Common.{
  All, Bool, List, Option, Result, [], arith, length, map, none, not, ok, refl, ℕ, ◌<◌, ◌>>=◌, ◌||◌,
  ◌∷◌, ◌≡◌,
}
use logistics_dispatch.Drivers.Entity.{Driver}
use logistics_dispatch.Drivers.Service.{DriverResponse, to_driver_response}
use logistics_dispatch.Paging.{
  Codec, Page, encode_cursor, find_page, listing, read_cursor, safe_limit_of,
}
use logistics_dispatch.Paging.Follow.{follow_whole, read-encode}
use logistics_dispatch.Paging.Pages.{AreTimed, follow}
use logistics_dispatch.Paging.Walk.{HaveIds}
use logistics_dispatch.Platform.{Platform, find, rows_of}
use logistics_dispatch.World.{World}

unfoldable pub is_shown : {Float : Type 0} → Bool → Driver Float → Bool
is_shown online_only d = not online_only || d.online_status

module _ {p : Platform} (k : Codec) (micros : Driver p.Float → ℕ) where
  -- `drivers.map(toDriverResponse)`
  unfoldable pub respond_all :
      World p → List (Driver p.Float) → Result (List (DriverResponse p.Float))
  respond_all w [] = ok []
  respond_all w (d ∷ ds) = do
    r ← to_driver_response d (find w.users d.user_id)
    rs ← respond_all w ds
    ok (r ∷ rs)

  -- The rows of a page.
  unfoldable pub driver_page :
      ℕ → Option k.Text → Bool → World p → Result (Page (Driver p.Float) k.Text)
  unfolding find_page read_cursor encode_cursor is_shown
  driver_page limit cursor online_only w =
      find_page micros (λ d. d.id) (λ d. d) (read_cursor k)
        (encode_cursor k (λ d. d.created_at) (λ d. d.id)) (is_shown online_only)
        (safe_limit_of limit) cursor (rows_of w.drivers)

  unfoldable pub find_all :
      ℕ → Option k.Text → Bool → World p → Result (Page (DriverResponse p.Float) k.Text)
  unfolding driver_page respond_all
  find_all limit cursor online_only w = do
    page ← driver_page limit cursor online_only w
    rows ← respond_all w page.rows
    ok (record { rows = rows; next_cursor = page.next_cursor; has_next_page = page.has_next_page })

  -- The rows of the pages of drivers one after another, as for the orders.
  follow-driver_page :
      (limit : ℕ) (online_only : Bool) (w : World p)
      → HaveIds micros (λ d. d.id) (rows_of w.drivers)
      → AreTimed micros (λ d. d.created_at) (λ d. d.id) (rows_of w.drivers)
      → All (λ d. 0 < d.id) (rows_of w.drivers)
      → let drivers = listing micros (λ d. d.id) (is_shown online_only) (rows_of w.drivers) in
        follow (λ c. driver_page limit c online_only w) (length drivers) none ≡ map (λ d. d) drivers
  unfolding driver_page read_cursor
  follow-driver_page limit online_only w ids whole named =
      follow_whole micros (λ d. d.created_at) (λ d. d.id) (λ d. d) (read_cursor k)
        (encode_cursor k (λ d. d.created_at) (λ d. d.id)) refl
        (read-encode k (λ d. d.created_at) (λ d. d.id)) (is_shown online_only) (safe_limit_of limit)
        (ground arith) (rows_of w.drivers) ids whole named
