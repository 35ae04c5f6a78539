-- ===== src/Keys/Outcome.antt =====
-- What `Bundle` gives and changes whatever happens to its calls.
use bully.Prelude.{Bool, List, String}
use bully.Db.{Call, Reply, Uuids, World}
use bully.Keys.Bundling.{bundle_signed}
use bully.Keys.Taken.{BundleEnds}
use bully.Tables.{Db, PrekeyRow}

module _ (pg : Uuids) (locked : PrekeyRow → Bool) (target : String) (db : Db) where
  abbrev AfterSigned : List Call → Reply (String × String) × World → Type 0
  AfterSigned calls x =
      BundleEnds pg locked target db calls (bundle_signed pg locked target x.0 x.1)

  abbrev left_by : List Call → Reply (String × String) × Db → Reply (String × String) × World
  left_by cs x = (x.0, record { db = x.1; calls = cs })
