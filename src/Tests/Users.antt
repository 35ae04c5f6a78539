-- ===== src/Tests/Users.antt =====
-- Tests of the user handlers.
use mathlib.Core.List.{Perm}
use bully.Prelude.{List, [], length, map, refl, take, true, ◌++◌, ◌==◌, ◌∷◌, ◌≡◌, ◌≤◌, ◌⊎◌}
use bully.Convo.Listing.{shown}
use bully.Db.{Call, answer, arrived, first_row, issue, select, statement, with_uuid}
use bully.Tables.{UserRow}
use bully.Tests.{ids}
use bully.Tests.Sessions.{calm}
use bully.User.{Ilike, UserInfo, found, get, search, user_info}
use bully.User.Finding.{matching, search_sound}

-- A database that matches everything.
abbrev pub any_name : Ilike
any_name name pattern = true

abbrev ann_info : List UserInfo
ann_info = record { id = "x"; username = "ann" } ∷ []

ann_found : (search ids any_name "n" calm).0 ≡ shown ann_info
unfolding search statement issue answer select
ann_found = refl

search_sound_example :
    ((("n" == "") ≡ true) × (ann_info ≡ [])
      ⊎ ((c : Call) × (cs : List Call) × (rows rest : List UserRow) × (calm.calls ≡ c ∷ cs)
          × (ann_info ≡ map (user_info ids) rows)
          × Perm (rows ++ rest) (matching any_name "n" calm.db.users)
          × (length rows ≤ 20)
          × (length rows
              ≡ length (arrived c.break_after (take 20 (matching any_name "n" calm.db.users))))))
    × ((search ids any_name "n" calm).1.db ≡ calm.db)
search_sound_example = search_sound ids any_name "n" calm ann_info ann_found

ann_got : (get ids "x" calm).0 ≡ found (record { id = "x"; username = "ann" })
unfolding get statement issue answer with_uuid select first_row
ann_got = refl
