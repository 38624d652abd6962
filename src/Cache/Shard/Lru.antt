-- ===== src/Cache/Shard/Lru.antt =====
-- What a shard promises, with no map, no handles and no counter: a list of entries, the most
-- recently used first.
use tileserver_go.Base.{
  ℕ, suc, ◌+◌, ◌-◌, ◌≤◌, ◌<◌, ◌≡◌, refl, none, some, List, [], ◌∷◌, arith, if◌then◌else◌, leb,
  length, back, drop_last,
}
use tileserver_go.Base.Linked.{find_key, remove_key}
use tileserver_go.Cache.Key.{Key, key_Eq}
use tileserver_go.Cache.Shard.{Entry, key_of}

abbrev pub total : List Entry → ℕ
total [] = 0
total (e ∷ l) = e.size + total l

-- A use moves the entry to the front.
unfoldable pub touch : Key → List Entry → List Entry
touch k l = elim (find_key key_of k l) [ none ↦ l | some e ↦ e ∷ remove_key key_of k l ]

-- The longest front part of the list that fits into the capacity.
unfoldable pub fit : ℕ → List Entry → List Entry
fit cap [] = []
fit cap (e ∷ l) = let rest = fit (cap - e.size) l in if leb e.size cap then e ∷ rest else []

-- The entry comes to the front, and what no longer fits behind it is forgotten.
unfoldable pub keep : ℕ → Entry → List Entry → List Entry
keep cap e l = fit cap (e ∷ remove_key key_of e.key l)

pub total-fit-le : (cap : ℕ) (l : List Entry) → total (fit cap l) ≤ cap
unfolding fit
total-fit-le cap [] = omega arith
total-fit-le cap (e ∷ l) = ground (arith, total-fit-le (cap - e.size) l)

pub fit_of_le : (cap : ℕ) (l : List Entry) → total l ≤ cap → fit cap l ≡ l
unfolding fit
fit_of_le cap [] h = refl
fit_of_le cap (e ∷ l) h = ground (arith, fit_of_le (cap - e.size) l)

-- Dropping the last entry of a list that does not fit changes nothing.
pub fit-drop_last : (cap : ℕ) (l : List Entry) → cap < total l → fit cap (drop_last l) ≡ fit cap l
unfolding fit
fit-drop_last cap [] h = refl
fit-drop_last cap (e ∷ []) h = ground arith
fit-drop_last cap (e ∷ d ∷ l) h = ground (arith, fit-drop_last (cap - e.size) (d ∷ l))

pub total-drop_last :
    (l : List Entry) (e : Entry) → back l ≡ some e → total (drop_last l) + e.size ≡ total l
total-drop_last [] e h = cc
total-drop_last (d ∷ []) e h = ground arith
total-drop_last (d ∷ c ∷ l) e h = omega (arith, total-drop_last (c ∷ l) e h)

pub length-drop_last :
    (l : List Entry) (e : Entry) → back l ≡ some e → suc (length (drop_last l)) ≡ length l
length-drop_last [] e h = cc
length-drop_last (d ∷ []) e h = refl
length-drop_last (d ∷ c ∷ l) e h = omega (arith, length-drop_last (c ∷ l) e h)

pub total-remove_key :
    (k : Key) (l : List Entry) {e : Entry}
    → find_key key_of k l ≡ some e
    → total (remove_key key_of k l) + e.size ≡ total l
unfolding find_key remove_key
total-remove_key k [] {e} h = cc
total-remove_key k (d ∷ l) {e} h = ground (arith, total-remove_key k l {e = e})

pub remove_key_absent :
    (k : Key) (l : List Entry) → find_key key_of k l ≡ none → remove_key key_of k l ≡ l
unfolding find_key remove_key
remove_key_absent k [] h = refl
remove_key_absent k (d ∷ l) h = ground (arith, remove_key_absent k l)
