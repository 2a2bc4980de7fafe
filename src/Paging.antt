-- ===== src/Paging.antt =====
-- The listings by cursor that src/orders/orders.service.ts, src/drivers/drivers.service.ts and
-- src/users/users.service.ts share: a page of the rows, the newest first, and the cursor of the next one.
pub mod Walk
pub mod Pages
pub mod Follow
use logistics_dispatch.Common.{
  Bool, List, Option, Result, [], err, false, if◌then◌else◌, length, ltb, map, none, ok, select,
  some, take, true, unprocessable, ℕ, ◌&&◌, ◌*◌, ◌+◌, ◌<◌, ◌==◌, ◌>>=◌, ◌||◌, ◌∷◌, ◌≡◌,
}
use logistics_dispatch.Dispatch.Candidates.{sort}

-- The time in milliseconds and the id of the last row of a page.
pub record Cursor : Type 0 where
  pub created_at : ℕ
  pub id : ℕ

-- What `JSON.parse` of a cursor yields: each field may be missing or empty, and the time may be no date.
pub record CursorFields : Type 0 where
  pub created_at : Option (Option ℕ)
  pub id : Option ℕ

-- Base64 and JSON. What is encoded is decoded, and an id that is not empty is there.
pub record Codec : Type 1 where
  pub Text : Type 0
  pub encode : Cursor → Text
  pub parse : Text → Option CursorFields
  pub parse-encode :
      (c : Cursor)
      → 0 < c.id
      → parse (encode c) ≡ some (record { created_at = some (some c.created_at); id = some c.id })

-- `decodeCursor`
unfoldable pub decode_cursor : (k : Codec) → k.Text → Result Cursor
decode_cursor k text = elim (k.parse text) [
  | none ↦ err unprocessable
  | some fields ↦ elim fields.created_at [
    | none ↦ err unprocessable
    | some date ↦ elim fields.id [
      | none ↦ err unprocessable
      | some id ↦ elim date [
        | none ↦ err unprocessable
        | some t ↦ ok (record { created_at = t; id = id })
      ]
    ]
  ]
]

-- A request without a cursor is a request for the first page.
unfoldable pub read_cursor : (k : Codec) → Option k.Text → Result (Option Cursor)
unfolding decode_cursor
read_cursor k none = ok none
read_cursor k (some text) = elim (decode_cursor k text) [ ok c ↦ ok (some c) | err e ↦ err e ]

pub record Page (V T : Type 0) : Type 0 where
  pub rows : List V
  pub next_cursor : Option T
  pub has_next_page : Bool

abbrev pub max_limit : ℕ
max_limit = 100

-- `Math.min(Math.max(limit, 1), MAX_LIMIT)`, where a limit below 0 is 0.
abbrev pub safe_limit_of : ℕ → ℕ
safe_limit_of limit = if limit == 0 then 1 else if ltb max_limit limit then max_limit else limit

abbrev pub last : {V : Type 0} → List V → Option V
last [] = none
last (x ∷ []) = some x
last (x ∷ y ∷ xs) = last (y ∷ xs)

-- The database holds the microseconds of a row's time, and the row that is read has its milliseconds.
module _ {V : Type 0} (micros : V → ℕ) (id_of : V → ℕ) where
  -- `ORDER BY created_at DESC, id DESC`
  unfoldable pub is_newer : V → V → Bool
  is_newer a b = ltb (micros b) (micros a) || micros a == micros b && ltb (id_of b) (id_of a)

  -- `(created_at, id) < (:createdAt, :id)`
  unfoldable pub is_below : Option Cursor → V → Bool
  is_below none v = true
  is_below (some c) v =
      ltb (micros v) (c.created_at * 1000) || micros v == c.created_at * 1000 && ltb (id_of v) c.id

  -- The rows that pass the condition, in the order of the query.
  unfoldable pub listing : (V → Bool) → List V → List V
  unfolding sort is_newer
  listing test rows = select test (sort is_newer rows)

  unfoldable pub page_rows : (V → Bool) → Option Cursor → ℕ → List V → List V
  unfolding listing is_below
  page_rows test c limit rows = take (limit + 1) (select (is_below c) (listing test rows))

module _ {V T : Type 0} (encode : V → T) where
  -- Drops the row that only shows that there are more, and makes the cursor of the last one.
  unfoldable pub cut_page : ℕ → List V → Page V T
  cut_page limit rows =
      let kept = take limit rows in
      if ltb limit (length rows)
      then record {
        rows = kept;
        next_cursor = elim (last kept) [ none ↦ none | some v ↦ some (encode v) ];
        has_next_page = true;
      }
      else record { rows = rows; next_cursor = none; has_next_page = false }

unfoldable pub map_page : {V W T : Type 0} → (V → W) → Page V T → Page W T
map_page f p = record {
  rows = map f p.rows;
  next_cursor = p.next_cursor;
  has_next_page = p.has_next_page;
}

-- `encodeCursor`, which the listings of orders and of drivers share.
unfoldable pub encode_cursor : {V : Type 0} (k : Codec) → (V → ℕ) → (V → ℕ) → V → k.Text
encode_cursor k created_at id_of v = k.encode (record { created_at = created_at v; id = id_of v })

-- What the listings of orders and of drivers share: they differ in their rows, in the condition on them,
-- and in what they show of each. `read` and `encode` are for their cursors.
module _ {V W T : Type 0} (micros id_of : V → ℕ) (convert : V → W)
    (read : Option T → Result (Option Cursor)) (encode : V → T) where
  unfoldable pub find_page : (V → Bool) → ℕ → Option T → List V → Result (Page W T)
  unfolding page_rows cut_page map_page
  find_page test limit cursor rows = do
    c ← read cursor
    ok (map_page convert (cut_page encode limit (page_rows micros id_of test c limit rows)))
