-- ===== src/Ratelimit/Window.antt =====
-- The requests of one window.
use bully.Prelude.{
  Bool, List, String, [], ap, arith, eq_iff, eq_refl, false, if◌then◌else◌, ltb, min, true, ℕ, ◌&&◌,
  ◌+◌, ◌-◌, ◌==◌, ◌∙◌, ◌∷◌, ◌≡◌,
}
use bully.Db.{done}
use bully.Ratelimit.{Counters, Turn, next_handler, on_count, per_ip, rate_limited}

module _ (counters : Counters) (limit window : ℕ) where
  on_count-get :
      (key j : String) (count : ℕ) (s : counters.Store)
      → counters.get j (on_count counters limit window key count s).1 ≡ counters.get j s
  unfolding on_count
  on_count-get key j count s = ground (arith, counters.get-expire key j window s)

  per_ip-get :
      (key j : String) (s : counters.Store)
      → counters.get j (per_ip counters limit window key done s).1
        ≡ (if key == j then counters.get j s + 1 else counters.get j s)
  unfolding per_ip
  per_ip-get key j s =
      on_count-get key j (counters.get key (counters.incr key s)) (counters.incr key s)
      ∙ counters.get-incr key j s

  per_ip-turn :
      (key : String) (s : counters.Store)
      → (per_ip counters limit window key done s).0
        ≡ (if ltb (counters.get key s) limit then next_handler else rate_limited)
  unfolding per_ip on_count
  per_ip-turn key s = ground (arith, counters.get-incr key key s, eq_refl key)

  abbrev pub is_next : Turn → Bool
  is_next rate_limited = false
  is_next next_handler = true

  -- How many of the requests under the key `j` go on to the handler, the requests of all keys taken in
  -- order.
  unfoldable pub served : String → List String → counters.Store → ℕ
  served j [] s = 0
  served j (key ∷ keys) s =
      let r = per_ip counters limit window key done s in
      (if (key == j) && is_next r.0 then 1 else 0) + served j keys r.1

  abbrev pub occurrences : String → List String → ℕ
  occurrences j [] = 0
  occurrences j (key ∷ keys) = (if key == j then 1 else 0) + occurrences j keys

  -- While Redis answers and no counter runs out, of the requests under a key exactly as many get to the
  -- handler as the limit has left, whatever requests come under other keys in between.
  pub served-occurrences :
      (j : String) (keys : List String) (s : counters.Store)
      → served j keys s ≡ min (limit - counters.get j s) (occurrences j keys)
  unfolding served
  served-occurrences j [] s = omega arith
  served-occurrences j (key ∷ keys) s =
      let after = (per_ip counters limit window key done s).1 in
      ground (
        arith,
        served-occurrences j keys after,
        per_ip-get key j s,
        per_ip-turn key s,
        eq_iff key j,
        ap (λ k. counters.get k s),
      )
