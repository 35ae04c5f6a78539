-- ===== src/Tests/Keyring.antt =====
-- Tests of the key handlers.
use bully.Prelude.{Bool, List, [], arith, false, none, refl, some, true, ℕ, ◌∷◌, ◌≡◌, ◌≢◌, ◌⊎◌}
use bully.Auth.{Claims}
use bully.Db.{Call, World, done, lost, refused, select, statement, update_where, with_uuid}
use bully.Db.Tx.{transaction}
use bully.Keys.{UploadRequest, upload}
use bully.Keys.Atomic.{Uploaded, upload_atomic}
use bully.Keys.Bundling.{bundle}
use bully.Keys.Once.{Round, bundles, play_all, play_all-AllDistinct, uploads}
use bully.Keys.Settled.{IsSettled, handed}
use bully.Keys.Spent.{AllDistinct}
use bully.Prelude.Int.{pos, ℤ}
use bully.Tables.{Db, PrekeyRow}
use bully.Tests.{ids}
use bully.Tests.Sessions.{ann, call_at, tables}

-- A one-time key of the user 1.
abbrev spare : ℤ → ℕ → PrekeyRow
spare k now = record {
  user_id = 1;
  key_id = k;
  public_key = "spare";
  signature = none;
  used = false;
  is_signed = false;
  created_at = now;
}

-- The user 1 has a signed key and two one-time keys.
abbrev keyring : Db
keyring = record tables {
  prekeys =
      record {
        user_id = 1;
        key_id = pos 1;
        public_key = "signed";
        signature = some "by ann";
        used = false;
        is_signed = true;
        created_at = 1;
      }
      ∷ spare (pos 2) 5
      ∷ spare (pos 3) 4
      ∷ [];
}

abbrev unlocked : PrekeyRow → Bool
unlocked r = false

abbrev five_done : List Call
five_done = call_at 9 done ∷ call_at 9 done ∷ call_at 9 done ∷ call_at 9 done ∷ call_at 9 done ∷ []

five-IsSettled : IsSettled five_done
five-IsSettled = ((refl, (refl, (refl, (refl, (refl, tt))))), omega arith)

abbrev new_keys : UploadRequest
new_keys = record {
  signed_key_id = pos 1;
  signed_pub_key = "newer";
  signature = "by ann";
  one_time_keys =
      record { key_id = pos 3; public_key = "again" }
      ∷ record { key_id = pos 4; public_key = "fourth" }
      ∷ [];
}

-- Two devices fetch keys of the user 1, who uploads some in between.
abbrev rounds : List Round
rounds =
    record { op = bundles unlocked "x"; calls = five_done }
    ∷ record { op = uploads (some ann) (some new_keys); calls = call_at 8 lost ∷ [] }
    ∷ record { op = bundles unlocked "x"; calls = five_done }
    ∷ []

-- The older one-time key goes first.
two_handed : play_all ids rounds keyring ≡ (1, pos 3) ∷ (1, pos 2) ∷ []
unfolding play_all upload bundle statement with_uuid select transaction update_where
two_handed = refl

play_all-AllDistinct_example : AllDistinct (play_all ids rounds keyring)
play_all-AllDistinct_example =
    play_all-AllDistinct ids rounds keyring (five-IsSettled, (tt, (five-IsSettled, tt)))

abbrev uploading : World
uploading = record { db = keyring; calls = five_done }

upload_atomic_example :
    let t = upload ids (some ann) (some new_keys) uploading in
    ((t.1.db ≡ keyring) × (t.0.status ≢ 204))
    ⊎ ((c : Claims) × (req : UploadRequest) × (some ann ≡ some c)
        × (some new_keys ≡ some req)
        × Uploaded ids c.user_id req keyring t.1.db)
upload_atomic_example = upload_atomic ids (some ann) (some new_keys) uploading

-- A commit that is refused.
abbrev fourth_done : List Call
fourth_done =
    call_at 9 done ∷ call_at 9 done ∷ call_at 9 done ∷ call_at 9 done ∷ call_at 9 refused ∷ []

-- The key is handed out, and the tables stay as they were.
handed_unmarked :
    let t = bundle ids unlocked "x" (record { db = keyring; calls = fourth_done }) in
    (handed ids "x" t.0 ≡ (1, pos 3) ∷ []) × (t.1.db ≡ keyring)
unfolding bundle statement with_uuid select transaction update_where
handed_unmarked = (refl, refl)
