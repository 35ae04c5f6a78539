-- ===== src/User.antt =====
-- user/handlers.go: the users, as others may find them.
pub mod Finding
use bully.Prelude.{
  Bool, List, Option, String, [], if◌then◌else◌, map, nat_beq, none, some, take, ◌==◌,
}
use bully.Auth.{Claims, Response, write_err}
use bully.Auth.Password.{append_text}
use bully.Convo.Listing.{Shown, answer_rows, shown}
use bully.Db.{
  Call, Reply, Uuids, World, arrived, err, first_row, ok, rotate, select, statement, with_uuid,
}
use bully.Tables.{Db, UserRow}

-- `userInfo`
pub record UserInfo : Type 0 where
  pub id : String
  pub username : String

-- `ILIKE` of Postgres: a text and a pattern.
abbrev pub Ilike : Type 0
Ilike = String → String → Bool

unfoldable pub user_info : Uuids → UserRow → UserInfo
user_info pg r = record { id = pg.print r.id; username = r.username }

-- LIMIT 20 without an order: the database says where it starts. `%` and `_` in the text are not escaped.
unfoldable pub search_users : Uuids → Ilike → String → Call → Db → Reply (List UserInfo) × Db
unfolding user_info append_text
search_users pg ilike q c db =
    let pattern = append_text "%" (append_text q "%") in
    let rows = take 20 (rotate c.pick (select (λ r. ilike r.username pattern) db.users)) in
    (ok (map (user_info pg) (arrived c.break_after rows)), db)

-- `Handler.Search`; the text is the parameter `q` of the query.
unfoldable pub search : Uuids → Ilike → String → World → Shown UserInfo × World
unfolding search_users answer_rows
search pg ilike q w =
    if q == ""
    then (shown [], w)
    else let (r, after) = statement (search_users pg ilike q) w in (answer_rows r, after)

unfoldable pub select_info : Uuids → String → Call → Db → Reply UserInfo × Db
unfolding user_info
select_info pg id c db =
    with_uuid pg id db
      λ u. (first_row (map (user_info pg) (select (λ r. nat_beq r.id u) db.users)), db)

-- An error, or the `userInfo`.
pub data Found {ℓ} (A : Type ℓ) : Type ℓ where
  not_found : Response → Found A
  found : A → Found A

unfoldable pub answer_info : Reply UserInfo → Found UserInfo
answer_info (ok u) = found u
answer_info (err e) = not_found (write_err 404 "not found")

-- `Handler.Get`; the text is the URL parameter `id`.
unfoldable pub get : Uuids → String → World → Found UserInfo × World
unfolding select_info answer_info
get pg id w = let (r, after) = statement (select_info pg id) w in (answer_info r, after)

-- `Handler.Me`
unfoldable pub me : Option Claims → Found UserInfo
me none = not_found (write_err 401 "unauthorized")
me (some claims) = found (record { id = claims.user_id; username = claims.username })
