-- ===== src/Tests/Limits.antt =====
-- Tests of the rate limits.
use bully.Prelude.{List, String, [], if◌then◌else◌, min, refl, ℕ, ◌+◌, ◌-◌, ◌==◌, ◌∷◌, ◌≡◌}
use bully.Db.{refused}
use bully.Ratelimit.{Counters, next_handler, on_count, per_ip}
use bully.Ratelimit.Window.{occurrences, served, served-occurrences}

abbrev tallies : Counters
tallies = record {
  Store = String → ℕ;
  get = λ k s. s k;
  incr = λ k s j. if k == j then s j + 1 else s j;
  expire = λ k seconds s. s;
  get-incr = λ k j s. refl;
  get-expire = λ k j seconds s. refl;
}

abbrev fresh_window : tallies.Store
fresh_window k = 0

abbrev knocks : List String
knocks = "a" ∷ "b" ∷ "a" ∷ "a" ∷ []

two_served : served tallies 2 60 "a" knocks fresh_window ≡ 2
unfolding served per_ip on_count
two_served = refl

served-occurrences_example :
    served tallies 2 60 "a" knocks fresh_window
    ≡ min (2 - fresh_window "a") (occurrences tallies 2 60 "a" knocks)
served-occurrences_example = served-occurrences tallies 2 60 "a" knocks fresh_window

open_on_failure : (per_ip tallies 0 60 "a" refused fresh_window).0 ≡ next_handler
unfolding per_ip
open_on_failure = refl
