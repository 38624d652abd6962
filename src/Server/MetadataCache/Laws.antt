-- ===== src/Server/MetadataCache/Laws.antt =====
-- metadataResponseCache of internal/server/metadata_cache.go keeps the eight most recently used
-- bundles, and answers with the bundle that was built first for a base URL.
use tileserver_go.Base.{
  ltb, ltb→lt, ltb→le, ℕ, suc, ◌≤◌, ◌<◌, ◌≡◌, refl, sym, ap, ◌∙◌, true, none, some, List, [], ◌∷◌,
  arith, length, back, length-map, drop_last, ◌==◌, Bool-cases, Option-cases, inl, inr, take,
  take_of_length-le, drop_last-take, Text, text_Eq,
}
use tileserver_go.Base.Results.{Result, ok, err}
use tileserver_go.Base.Dict.{lookup}
use tileserver_go.Base.Linked.{values, find_key, remove_key, remove, value_at}
use tileserver_go.Base.Linked.Handles.{move_to_front_lem, length-remove}
use tileserver_go.Base.Linked.Keys.{handle_of-back, remove_key-back, back-values}
use tileserver_go.Base.Linked.Coherence.{
  IsCoherent, empty-IsCoherent, push-IsCoherent, delete-IsCoherent, touch-IsCoherent, found_lem,
  missing_lem, removed_lem,
}
use tileserver_go.Server.MetadataCache.{
  max_entries, Entry, MetadataCache, key_of, empty, drop_oldest, add_entry, get,
}

back_of_length : {A : Type 0} (l : List A) → 0 < length l → (x : A) × (back l ≡ some x)
back_of_length [] h = absurd (omega arith)
back_of_length (x ∷ []) h = (x, refl)
back_of_length (x ∷ y ∷ l) h = back_of_length (y ∷ l) (omega arith)

module _ {B : Type 0} where
  pub record IsValid (c : MetadataCache B) : Type 0 where
    pub coherent : IsCoherent key_of c.entries c.lru c.fresh
    pub bounded : length c.lru ≤ max_entries

  pub empty-IsValid : IsValid (empty {B = B})
  empty-IsValid = record { coherent = empty-IsCoherent key_of 0; bounded = omega arith }

  -- The bundles in the cache, the most recently used first.
  abbrev pub bundles : MetadataCache B → List (Entry B)
  bundles c = values c.lru

  -- The bundles after a request for the base URL that was answered with a bundle.
  abbrev pub recent : Text → B → List (Entry B) → List (Entry B)
  recent base_url bundle l = elim (find_key key_of base_url l) [
    | some e ↦ e ∷ remove_key key_of base_url l
    | none ↦ take max_entries (record { base_url = base_url; bundle = bundle } ∷ l)
  ]

  -- After one entry too many the oldest is dropped.
  drop_oldest_lem :
      (c : MetadataCache B)
      → IsCoherent key_of c.entries c.lru c.fresh
      → length c.lru ≤ suc max_entries
      → IsValid (drop_oldest c) × (bundles (drop_oldest c) ≡ take max_entries (bundles c))
  unfolding drop_oldest
  drop_oldest_lem c k bound = elim (Bool-cases (ltb max_entries (length c.lru))) [
    | inl full ↦
        let over = ltb→lt max_entries (length c.lru) full in
        let ((h, e), last) = back_of_length c.lru (omega arith) in
        let at = handle_of-back key_of c.lru h e last k.keys in
        let found = k.index e.base_url ∙ at.0 in
        let (a, there, _, _) = found_lem key_of k e.base_url h found in
        let dropped : values (remove h c.lru) ≡ drop_last (values c.lru) =
          removed_lem key_of k e.base_url h found
          ∙ remove_key-back key_of (values c.lru) e (back-values key_of c.lru h e last) k.keys in
        rw (full, last, drop_oldest)
          (
            record {
              coherent = delete-IsCoherent key_of k e.base_url h found;
              bounded = omega (arith, length-remove h c.lru {a = a} there);
            },
            dropped
                ∙ drop_last-take max_entries (values c.lru)
                    (omega (arith, length-map (λ x. x.1) c.lru)),
          )
    | inr room ↦
        let within = ltb→le max_entries (length c.lru) room in
        rw (room, drop_oldest)
          (
            record { coherent = k; bounded = within },
            sym (
                take_of_length-le max_entries (values c.lru)
                  (omega (arith, within, length-map (λ x. x.1) c.lru))),
          )
  ]

  add_entry_lem :
      (c : MetadataCache B) (base_url : Text) (bundle : B)
      → IsValid c
      → lookup base_url c.entries ≡ none
      → IsValid (add_entry c base_url bundle)
        × (bundles (add_entry c base_url bundle)
            ≡ take max_entries (record { base_url = base_url; bundle = bundle } ∷ bundles c))
  unfolding add_entry
  add_entry_lem c base_url bundle v miss =
      drop_oldest_lem _
        (push-IsCoherent key_of v.coherent (record { base_url = base_url; bundle = bundle }) miss)
        (omega (arith, v.bounded))

  -- What get answers: the bundle that the cache holds for the base URL, or else what the build
  -- returned.
  abbrev pub answer : {E : Type 0} → MetadataCache B → Text → Result E B → Result E B
  answer c base_url built = elim (find_key key_of base_url (bundles c)) [
    | some e ↦ ok e.bundle
    | none ↦ built
  ]

  -- The bundles that the cache holds after an answer.
  abbrev pub bundles_after : {E : Type 0} → MetadataCache B → Text → Result E B → List (Entry B)
  bundles_after c base_url (err e) = bundles c
  bundles_after c base_url (ok b) = recent base_url b (bundles c)

  get_hit :
      (c : MetadataCache B)
      → IsValid c
      → (base_url : Text) (h : ℕ) (e : Entry B) → lookup base_url c.entries ≡ some h
      → value_at h c.lru ≡ some e
      → (key_of e == base_url) ≡ true
      → IsValid (record c { lru = (h, e) ∷ remove h c.lru })
  get_hit c v base_url h e hit at keyed = record {
    coherent = touch-IsCoherent key_of v.coherent base_url h e hit keyed;
    bounded = omega (arith, v.bounded, length-remove h c.lru {a = e} at);
  }

  module _ {E : Type 0} (c : MetadataCache B) (v : IsValid c) (base_url : Text) where
    get_miss :
        (built : Result E B)
        → lookup base_url c.entries ≡ none
        → find_key key_of base_url (bundles c) ≡ none
        → ((get c base_url built).1 ≡ built)
          × (bundles (get c base_url built).0 ≡ bundles_after c base_url built)
          × IsValid (get c base_url built).0
    unfolding get
    get_miss (err e) miss absent = rw (miss, get) (refl, refl, v)
    get_miss (ok b) miss absent =
        let (valid, kept) = add_entry_lem c base_url b v miss in
        rw (miss, get) (rw (bundles_after, recent, absent) (refl, kept, valid))

    -- On a valid cache get answers with the bundle that is held for the base URL, or else with the
    -- result of the build; a build that fails changes nothing, and otherwise the bundle comes to
    -- the front of the at most eight that are kept.
    pub get-answer :
        (built : Result E B)
        → ((get c base_url built).1 ≡ answer c base_url built)
          × (bundles (get c base_url built).0 ≡ bundles_after c base_url (answer c base_url built))
          × IsValid (get c base_url built).0
    unfolding get
    get-answer built = elim (Option-cases (lookup base_url c.entries)) [
      | inl miss ↦
          let absent = missing_lem key_of v.coherent base_url miss in
          rw (answer, absent) (get_miss built miss absent)
      | inr (h, hit) ↦
          let (e, at, found, keyed) = found_lem key_of v.coherent base_url h hit in
          rw (answer, found)
            (rw (hit, get)
              (rw (at, bundles_after, recent, found)
                (
                  refl,
                  rw (move_to_front_lem h c.lru at)
                      (ap (◌∷◌ e) (removed_lem key_of v.coherent base_url h hit)),
                  rw (move_to_front_lem h c.lru at) (get_hit c v base_url h e hit at keyed),
                )))
    ]
