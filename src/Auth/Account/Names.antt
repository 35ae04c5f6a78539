-- ===== src/Auth/Account/Names.antt =====
-- The names of the users.
use Prim.Native.String.{len}
use bully.Prelude.{
  Bool, Bool-cases, List, Option, String, [], arith, eq_iff, false, inl, inr, ltb, nat_beq, none,
  refl, some, true, ℕ, ◌++◌, ◌==◌, ◌∷◌, ◌≡◌,
}
use bully.Auth.{device_label}
use bully.Auth.Account.{
  RegisterRequest, Signing, insert_user, match_username, open_session, trim_space,
}
use bully.Auth.Account.Handlers.{after_hash, after_insert, register}
use bully.Auth.Password.{Hashing}
use bully.Db.{Call, Reply, Uuids, World, any_row, err, ok}
use bully.Db.Moves.{Moves, Moves-statement, Preorder, if-moves, with_uuid-moves}
use bully.Session.{create, insert_session}
use bully.Tables.{Db, UserRow}
use bully.Ws.Padding.{Bytes}

-- Every name fits the pattern, and no two users share one.
abbrev pub IsNamed : List UserRow → Type 0
IsNamed [] = Unit
IsNamed (r ∷ rows) =
    (match_username r.username ≡ true)
    × (any_row (λ q. q.username == r.username) rows ≡ false)
    × IsNamed rows

abbrev pub KeepsNames : Db → Db → Type 0
KeepsNames a b = IsNamed a.users → IsNamed b.users

pub keeps_names : Preorder KeepsNames
keeps_names = record { same = λ a h. h; then_so = λ a b c f g h. g (f h) }

none_added :
    (name : String) (row : UserRow) (rows : List UserRow)
    → any_row (λ q. q.username == name) rows ≡ false
    → (row.username == name) ≡ false
    → any_row (λ q. q.username == name) (rows ++ row ∷ []) ≡ false
unfolding any_row
none_added name row [] h k = ground arith
none_added name row (r ∷ rows) h k = ground (arith, none_added name row rows)

any_row-false :
    (test : UserRow → Bool) (r : UserRow) (rows : List UserRow)
    → any_row test (r ∷ rows) ≡ false
    → (test r ≡ false) × (any_row test rows ≡ false)
unfolding any_row
any_row-false test r rows h = (ground arith, ground arith)

append-IsNamed :
    (row : UserRow) (rows : List UserRow)
    → IsNamed rows
    → match_username row.username ≡ true
    → any_row (λ q. q.username == row.username) rows ≡ false
    → IsNamed (rows ++ row ∷ [])
unfolding any_row
append-IsNamed row [] h m k = (m, refl, tt)
append-IsNamed row (r ∷ rows) (m0, k0, h) m k =
    let (other, others) = any_row-false (λ q. q.username == row.username) r rows k in
    (
      m0,
      none_added r.username row rows k0
          (ground (arith, other, eq_iff r.username row.username, eq_iff row.username r.username)),
      append-IsNamed row rows h m others,
    )

module _ (pg : Uuids) where
  insert_user-names :
      (username hash : String) (c : Call) (db : Db)
      → match_username username ≡ true
      → KeepsNames db (insert_user pg username hash c db).1
  unfolding insert_user
  insert_user-names username hash c db m h =
      elim (Bool-cases (any_row (λ r. r.username == username) db.users)) [
        | inl taken ↦ rw taken h
        | inr free ↦ elim (Bool-cases (any_row (λ r. nat_beq r.id c.fresh) db.users)) [
          | inl taken ↦ rw (free, taken) h
          | inr new ↦ rw (free, new) (append-IsNamed _ db.users h m free)
        ]
      ]

  create-names :
      (user_id device_name platform : String)
      → Moves KeepsNames (create pg user_id device_name platform)
  unfolding create insert_session
  create-names user_id device_name platform = Moves-statement keeps_names _ λ c db.
      with_uuid-moves keeps_names pg user_id db _
        λ u. if-moves keeps_names db _ _ _ (λ h. h) (λ h. h)

  pub open-names :
      (sign : Signing) (status : ℕ) (req : RegisterRequest) (user_id username : String) (w : World)
      → KeepsNames w.db (open_session pg sign status req user_id username w).1.db
  unfolding open_session
  open-names sign status req user_id username w =
      (create-names user_id (device_label req.device_name) (device_label req.platform)).moves w

  inserted-names :
      (sign : Signing) (req : RegisterRequest) (username : String) (r : Reply String) (w : World)
      → KeepsNames w.db (after_insert pg sign req username r w).1.db
  unfolding after_insert
  inserted-names sign req username (err e) w h = h
  inserted-names sign req username (ok user_id) w h = open-names sign 201 req user_id username w h

  hashed-names :
      (sign : Signing) (req : RegisterRequest) (username : String) (hash : Option String)
      (w : World)
      → match_username username ≡ true
      → KeepsNames w.db (after_hash pg sign req username hash w).1.db
  unfolding after_hash
  hashed-names sign req username none w m h = h
  hashed-names sign req username (some hash) w m h = inserted-names sign req username _ _ (
      (Moves-statement keeps_names (insert_user pg username hash)
          (λ c db. insert_user-names username hash c db m)).moves
        w h)

-- `Register` keeps the names of the users in order, whatever it is sent and however its calls end:
-- if each fits the pattern of 3 to 32 letters, digits and underscores and no two are the same, that is
-- so afterwards.
pub register-IsNamed :
    (pg : Uuids) (hs : Hashing) (sign : Signing) (salt : Option Bytes)
    (decoded : Option RegisterRequest) (w : World)
    → IsNamed w.db.users
    → IsNamed (register pg hs sign salt decoded w).1.db.users
unfolding register
register-IsNamed pg hs sign salt none w h = h
register-IsNamed pg hs sign salt (some req) w h =
    elim (Bool-cases (match_username (trim_space req.username))) [
      | inr bad ↦ rw bad h
      | inl fits ↦ elim (Bool-cases (ltb (len req.password) 8)) [
        | inl short ↦ rw (fits, short) h
        | inr long ↦ rw (fits, long) (hashed-names pg sign req _ _ w fits h)
      ]
    ]
