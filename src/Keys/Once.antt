-- ===== src/Keys/Once.antt =====
-- Which one-time keys a series of uploads and bundles hands out.
use bully.Prelude.{
  All, Bool, Bool-cases, List, Option, String, [], arith, false, inl, inr, refl, subst, sym, ℕ,
  ◌++◌, ◌∷◌, ◌≡◌, ◌⊎◌,
}
use bully.Auth.{Claims}
use bully.Db.{Call, Uuids, ok}
use bully.Keys.{UploadRequest, is_key, upload}
use bully.Keys.Bundling.{bundle}
use bully.Keys.Found.{found_new, marked-IsSpent}
use bully.Keys.Settled.{IsSettled, bundle-Given, found_row, handed, mark}
use bully.Keys.Spent.{
  AllDistinct, IsSpent, IsSpent-update_where, KeepsSpent, among, same_key, upload-keeps,
}
use bully.Prelude.Int.{beq_ℤ-eq, ℤ}
use bully.Tables.{Db, PrekeyRow}

pub data KeyOp : Type 0 where
  uploads : Option Claims → Option UploadRequest → KeyOp
  bundles : (PrekeyRow → Bool) → String → KeyOp

-- An operation, with the calls that its run brings.
pub record Round : Type 0 where
  pub op : KeyOp
  pub calls : List Call

-- What an operation hands out, and the tables after it.
unfoldable pub play : Uuids → KeyOp → List Call → Db → List (ℕ × ℤ) × Db
play pg (uploads claims decoded) calls db =
    ([], (upload pg claims decoded (record { db = db; calls = calls })).1.db)
play pg (bundles locked target) calls db =
    let (b, after) = bundle pg locked target (record { db = db; calls = calls }) in
    (handed pg target b, after.db)

unfoldable pub play_all : Uuids → List Round → Db → List (ℕ × ℤ)
unfolding play
play_all pg [] db = []
play_all pg (r ∷ rs) db =
    let (keys, after) = play pg r.op r.calls db in keys ++ play_all pg rs after

-- Nothing is asked of the calls of an upload.
abbrev pub IsCalm : KeyOp → List Call → Type 0
IsCalm (uploads claims decoded) calls = Unit {0}
IsCalm (bundles locked target) calls = IsSettled calls

among-append :
    (x : ℕ × ℤ) (xs ys : List (ℕ × ℤ))
    → among x xs ≡ false
    → among x ys ≡ false
    → among x (xs ++ ys) ≡ false
among-append x [] ys h k = k
among-append x (y ∷ xs) ys h k = ground (arith, among-append x xs ys)

-- What a round may do to the keys: what was spent stays so and is not handed out; of what is handed
-- out there is one key at most, and it is spent then.
record Spends (db : Db) (keys : List (ℕ × ℤ)) (after : Db) : Type 0 where
  keeps : KeepsSpent db after
  fresh : (u : ℕ) (k : ℤ) → IsSpent u k db.prekeys → among (u, k) keys ≡ false
  single : (keys ≡ []) ⊎ ((u : ℕ) × (k : ℤ) × (keys ≡ (u, k) ∷ []) × IsSpent u k after.prekeys)

module _ (pg : Uuids) where
  given_keeps : (u : ℕ) (k : ℤ) (db : Db) → KeepsSpent db (mark u k db)
  given_keeps u k db v l h =
      IsSpent-update_where v l (is_key u k) _ db.prekeys (λ r. refl) (λ r used. refl) h

  given_fresh :
      (locked : PrekeyRow → Bool) (target : String) (v : ℕ) (row : PrekeyRow) (db : Db)
      → found_row pg locked target v db ≡ ok row
      → (u : ℕ) (k : ℤ) → IsSpent u k db.prekeys
      → among (u, k) ((v, row.key_id) ∷ []) ≡ false
  given_fresh locked target v row db found u k spent =
      elim (Bool-cases (same_key (v, row.key_id) (u, k))) [
        | inl same ↦
            let eu : v ≡ u = ground arith in
            let ek : row.key_id ≡ k = beq_ℤ-eq row.key_id k (ground arith) in
            absurd (
              found_new v locked db.prekeys row found k ek
                (subst (λ n. IsSpent n k db.prekeys) (sym eu) spent))
        | inr other ↦ rw other refl
      ]

  play-Spends :
      (op : KeyOp) (calls : List Call) (db : Db)
      → IsCalm op calls
      → Spends db (play pg op calls db).0 (play pg op calls db).1
  unfolding play
  play-Spends (uploads claims decoded) calls db h = record {
    keeps = upload-keeps pg claims decoded (record { db = db; calls = calls });
    fresh = λ u k spent. refl;
    single = inl refl;
  }
  play-Spends (bundles locked target) calls db h = elim (bundle-Given pg locked target db calls h) [
    | inl (none_given, same) ↦ record {
      keeps = rw same (λ u k spent. spent);
      fresh = λ u k spent. rw none_given refl;
      single = inl none_given;
    }
    | inr (v, row, found, one_given, marked) ↦ record {
      keeps = rw marked (given_keeps v row.key_id db);
      fresh = λ u k spent. rw one_given (given_fresh locked target v row db found u k spent);
      single =
          inr (v, row.key_id, one_given, rw marked (marked-IsSpent v locked db.prekeys row found));
    }
  ]

  -- A spent key is not handed out again.
  play_all-spent :
      (rs : List Round) (db : Db) (u : ℕ) (k : ℤ)
      → All (λ r. IsCalm r.op r.calls) rs
      → IsSpent u k db.prekeys
      → among (u, k) (play_all pg rs db) ≡ false
  unfolding play_all
  play_all-spent [] db u k calm spent = refl
  play_all-spent (r ∷ rs) db u k calm spent =
      let s = play-Spends r.op r.calls db calm.0 in
      among-append (u, k) _ _ (s.fresh u k spent)
        (play_all-spent rs (play pg r.op r.calls db).1 u k calm.1 (s.keeps u k spent))

  -- In any series of `Upload`s, whatever becomes of their calls, and of `Bundle`s whose calls are all
  -- done, no one-time key of a user is handed out twice.
  pub play_all-AllDistinct :
      (rs : List Round) (db : Db)
      → All (λ r. IsCalm r.op r.calls) rs
      → AllDistinct (play_all pg rs db)
  unfolding play_all
  play_all-AllDistinct [] db calm = tt
  play_all-AllDistinct (r ∷ rs) db calm =
      let s = play-Spends r.op r.calls db calm.0 in
      let rest = play_all-AllDistinct rs (play pg r.op r.calls db).1 calm.1 in
      elim s.single [
        | inl none_given ↦ rw none_given rest
        | inr (u, k, one_given, spent) ↦
            rw one_given (play_all-spent rs (play pg r.op r.calls db).1 u k calm.1 spent, rest)
      ]
