-- ===== src/Tests/Servers.antt =====
-- Tests of the routes.
use bully.Prelude.{List, [], refl, some, ◌*◌, ◌∷◌, ◌≡◌, ◌⊎◌}
use bully.Auth.{Claims, Response, middleware}
use bully.Auth.Account.{match_username}
use bully.Auth.Account.Names.{IsNamed}
use bully.Db.{
  answer, any_row, continue, done, first_row, issue, lost, recover, select, statement, update_where,
  with_uuid, ◌>>=◌,
}
use bully.Server.{
  Libraries, auth_login, dispatch, plain, serve_guarded, sessions_id, user, users_me,
}
use bully.Server.Guarded.{IsLive, serve_guarded_sound}
use bully.Server.Named.{handle_all-IsNamed}
use bully.Server.Permanent.{Visit, at_door, behind_middleware, handle_all, handle_all-Evolves}
use bully.Session.{
  inactivity_of, is_inactive, is_valid, is_valid_answer, sweep_inactive, sweep_rows, touch,
}
use bully.Session.Rows.{Evolves}
use bully.Tests.{ids}
use bully.Tests.Accounts.{ann_logs_in, sign, stored_users, toy}
use bully.Tests.Sessions.{call_at, calm, day, one_token}
use bully.Tests.Users.{any_name}
use bully.User.{found, me}

abbrev libraries : Libraries
libraries = record {
  pg = ids;
  ilike = any_name;
  hashing = toy;
  sign = sign;
  parse_token = one_token;
}

serve_guarded_sound_example :
    ((r : Response) × (serve_guarded libraries "Bearer t" users_me calm
        ≡ (plain r, (middleware ids one_token "Bearer t" calm).1)))
    ⊎ ((claims : Claims) × IsLive libraries "Bearer t" calm claims
        × (serve_guarded libraries "Bearer t" users_me calm
            ≡ dispatch libraries users_me claims (middleware ids one_token "Bearer t" calm).1))
serve_guarded_sound_example = serve_guarded_sound libraries "Bearer t" users_me calm

served_me :
    (serve_guarded libraries "Bearer t" users_me calm).0
    ≡ user (found (record { id = "x"; username = "ann" }))
unfolding serve_guarded middleware is_valid sweep_inactive touch is_valid_answer statement issue
    answer with_uuid recover update_where select first_row sweep_rows inactivity_of is_inactive
    ◌>>=◌ continue me
served_me = refl

abbrev visits : List Visit
visits =
    record {
      request = at_door (auth_login (some ann_logs_in));
      calls = call_at day done ∷ call_at day done ∷ [];
    }
    ∷ record {
      request = behind_middleware "Bearer t" (sessions_id (2 * day) "xxx");
      calls = call_at day done ∷ call_at day done ∷ call_at day done ∷ call_at day lost ∷ [];
    }
    ∷ []

handle_all-Evolves_example :
    Evolves stored_users.sessions (handle_all libraries visits stored_users).sessions
handle_all-Evolves_example = handle_all-Evolves libraries visits stored_users

stored_fits : IsNamed stored_users.users
unfolding match_username any_row
stored_fits = (refl, refl, tt)

handle_all-IsNamed_example : IsNamed (handle_all libraries visits stored_users).users
handle_all-IsNamed_example = handle_all-IsNamed libraries visits stored_users stored_fits
