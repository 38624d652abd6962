-- ===== src/Server/MetadataCache.antt =====
-- metadataResponseCache of internal/server/metadata_cache.go: the documents that were built for the
-- last few public base URLs. The mutex is held through get, the build included, so get is one step.
pub mod Laws
use tileserver_go.Base.{
  ℕ, ◌+◌, Bool, true, false, Option, none, some, List, [], ◌∷◌, if◌then◌else◌, ltb, length, back,
  Text, text_Eq,
}
use tileserver_go.Base.Results.{Result, ok, err}
use tileserver_go.Base.Dict.{Dict, lookup, insert, delete}
use tileserver_go.Base.Linked.{Linked, value_at, remove, push_front, move_to_front}

abbrev pub max_entries : ℕ
max_entries = 8

-- metadataCacheEntry
pub record Entry (B : Type 0) : Type 0 where
  pub base_url : Text
  pub bundle : B

pub record MetadataCache (B : Type 0) : Type 0 where
  pub entries : Dict Text ℕ
  pub lru : Linked (Entry B)
  pub fresh : ℕ

module _ {B : Type 0} where
  abbrev pub key_of : Entry B → Text
  key_of e = e.base_url

  -- The zero value of the struct.
  abbrev pub empty : MetadataCache B
  empty = record { entries = []; lru = []; fresh = 0 }

  -- if c.lru.Len() > metadataBaseURLCacheEntries { ... }
  unfoldable pub drop_oldest : MetadataCache B → MetadataCache B
  drop_oldest c =
      if ltb max_entries (length c.lru)
      then elim (back c.lru) [
        | none ↦ c
        | some (h, oldest) ↦ record c {
          entries = delete oldest.base_url c.entries;
          lru = remove h c.lru;
        }
      ]
      else c

  -- From the construction of the new entry on.
  unfoldable pub add_entry : MetadataCache B → Text → B → MetadataCache B
  add_entry c base_url bundle = drop_oldest (record c {
    entries = insert base_url c.fresh c.entries;
    lru = push_front c.fresh (record { base_url = base_url; bundle = bundle }) c.lru;
    fresh = c.fresh + 1;
  })

  -- metadataResponseCache.get; built is what build() returns, which is read only on a miss. A
  -- handle in entries names an element of lru (the invariant IsValid).
  unfoldable pub get :
      {E : Type 0} → MetadataCache B → Text → Result E B → MetadataCache B × Result E B
  get c base_url built = elim (lookup base_url c.entries) [
    | some h ↦ elim (value_at h c.lru) [
      | none ↦ (c, built)
      | some e ↦ (record c { lru = move_to_front h c.lru }, ok e.bundle)
    ]
    | none ↦ elim built [
      | err e ↦ (c, err e)
      | ok bundle ↦ (add_entry c base_url bundle, ok bundle)
    ]
  ]
