-- ===== src/Mbtiles/Store/Reads.antt =====
-- What Store.Grid of internal/mbtiles/store.go collects.
use tileserver_go.Base.{
  ◌≡◌, Bool, true, Option, none, some, if◌then◌else◌, Text, text_Eq, arith, Bool-cases, inl, inr,
  ◌==◌,
}
use tileserver_go.Base.Dict.{Dict, insert, lookup, lookup-insert}
use tileserver_go.Mbtiles.Store.{Rows, last, pair, broken, StoreError, invalid_json, collect}
use tileserver_go.Base.Results.{Result, ok, err}

module _ {E : Type 0} where
  -- The text of the last row with the key, or else what there was before.
  abbrev pub last_value : Text → Rows E → Option Text → Option Text
  last_value k (last o) before = before
  last_value k (broken e) before = before
  last_value k (pair key encoded more) before =
      last_value k more (if key == k then some encoded else before)

  -- All rows were read without an error, and every text is JSON.
  abbrev pub IsClean : (Text → Bool) → Rows E → Type 0
  IsClean json_valid (last none) = Unit
  IsClean json_valid (last (some e)) = ⊥
  IsClean json_valid (broken e) = ⊥
  IsClean json_valid (pair key encoded more) = (json_valid encoded ≡ true) × IsClean json_valid more

  -- When the loop of Grid succeeds, all its rows were read without an error, every text was valid
  -- JSON, and the map holds for each key the text of the last row with that key.
  pub collect-last_value :
      (json_valid : Text → Bool) (all : Rows E) (values result : Dict Text Text)
      → collect json_valid values all ≡ ok result
      → IsClean json_valid all × ((k : Text) → lookup k result ≡ last_value k all (lookup k values))
  unfolding collect
  collect-last_value json_valid (last none) values result h = (tt, λ k. ground (arith, h))
  collect-last_value json_valid (last (some e)) values result h = cc
  collect-last_value json_valid (broken e) values result h = cc
  collect-last_value json_valid (pair key encoded more) values result h =
      elim (Bool-cases (json_valid encoded)) [
        | inl good ↦
            let (clean, found) =
              collect-last_value json_valid more (insert key encoded values) result
                (rw good at h) in
            ((good, clean), λ k. rw (← lookup-insert key k encoded values) (found k))
        | inr bad ↦ absurd (failed (rw bad at h))
      ]
    where
      failed :
          ◌≡◌ {A = Result (StoreError E) (Dict Text Text)} (err (invalid_json key)) (ok result) → ⊥
      failed p = cc
