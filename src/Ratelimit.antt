-- ===== src/Ratelimit.antt =====
-- ratelimit/ratelimit.go: a counter in Redis for each route and address. `Counters` states what the
-- code relies on of its commands; that a counter runs out is the business of Redis, later.
use Prim.Native.String.{◌++◌ as text_append}
pub mod Window
use bully.Prelude.{Option, String, if◌then◌else◌, ltb, nat_beq, none, some, ℕ, ◌+◌, ◌==◌, ◌≡◌}
use bully.Db.{Fate, done, lost, refused}

pub record Counters : Type 1 where
  pub Store : Type 0
  -- The number under a key, 0 if there is none.
  pub get : String → Store → ℕ
  -- INCR key, which answers the new number
  pub incr : String → Store → Store
  -- EXPIRE key seconds
  pub expire : String → ℕ → Store → Store
  pub get-incr :
      (k j : String) (s : Store) → get j (incr k s) ≡ (if k == j then get j s + 1 else get j s)
  pub get-expire : (k j : String) (seconds : ℕ) (s : Store) → get j (expire k seconds s) ≡ get j s

-- `clientIP`; the option is the host that `net.SplitHostPort` finds in the address.
unfoldable pub client_ip : Option String → String → String
client_ip none remote_addr = remote_addr
client_ip (some host) remote_addr = host

unfoldable pub limit_key : String → String → String
limit_key route_key ip = text_append "ratelimit:" (text_append route_key (text_append ":" ip))

-- What the middleware does with a request: 429, or on to the next handler.
pub data Turn : Type 0 where
  rate_limited next_handler : Turn

module _ (counters : Counters) where
  -- After `Incr` has answered: the first request of a window sets when it ends.
  unfoldable pub on_count : ℕ → ℕ → String → ℕ → counters.Store → Turn × counters.Store
  on_count limit window key count s =
      let after = if nat_beq count 1 then counters.expire key window s else s in
      if ltb limit count then (rate_limited, after) else (next_handler, after)

  -- `PerIP`, at the key of a request; without the answer of Redis the request goes through.
  unfoldable pub per_ip : ℕ → ℕ → String → Fate → counters.Store → Turn × counters.Store
  unfolding on_count
  per_ip limit window key refused s = (next_handler, s)
  per_ip limit window key lost s = (next_handler, counters.incr key s)
  per_ip limit window key done s =
      let counted = counters.incr key s in
      on_count limit window key (counters.get key counted) counted
