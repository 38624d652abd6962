-- ===== src/Cache/Key/Packing.antt =====
-- Two requests share a key of internal/cache/cache.go only if they ask for the same representation.
use tileserver_go.Base.{
  ℕ, zero, suc, ◌+◌, ◌%◌, ◌^◌, ◌<◌, ◌≤◌, bit_or, ◌≡◌, ◌≢◌, Bool, true, false, arith, Text, nat_eq,
  nat_eq_iff, if◌then◌else◌, refl, ap, ◌&&◌,
}
use tileserver_go.Base.Int.{ℤ, pos, pos-add}
use tileserver_go.Cache.Key.{Key, new_tile_key, new_grid_key, shard_index, shard_count}

-- The tile coordinates that request validation lets through.
abbrev pub AreCoordinates : ℕ → ℕ → ℕ → Type 0
AreCoordinates z x y = (z ≤ 30) × (x < 2 ^ 30) × (y < 2 ^ 30)

abbrev variants_differ : ℕ → Bool
variants_differ z = nat_eq (bit_or ((z + z) % 2 ^ 8) 1) (z + z + 1)

all_below : ℕ → Bool
all_below zero = true
all_below (suc n) = variants_differ n && all_below n

all_below_sound : (n z : ℕ) → all_below n ≡ true → z < n → variants_differ z ≡ true
unfolding all_below
all_below_sound zero z h lt = absurd (omega arith)
all_below_sound (suc n) z h lt = ground (arith, all_below_sound n z)

all_below_zooms : all_below 31 ≡ true
unfolding all_below
all_below_zooms = refl

-- z << 1 | 1
gzip_variant : (z : ℕ) → z ≤ 30 → bit_or ((z + z) % 2 ^ 8) 1 ≡ z + z + 1
gzip_variant z h = (nat_eq_iff _ _).0 (all_below_sound 31 z all_below_zooms (omega arith))

-- The packed fields of a key, for coordinates in range.
abbrev pub variant_of : ℕ → Bool → ℕ
variant_of z g = z + z + (if g then 1 else 0)

variant_lem :
    (s : Text) (z x y : ℕ) (g : Bool)
    → z ≤ 30
    → (new_tile_key s (pos z) (pos x) (pos y) g).variant ≡ variant_of z g
unfolding new_tile_key
variant_lem s z x y true h = rw pos-add (gzip_variant z h)
variant_lem s z x y false h = rw pos-add (omega arith)

variant_of_inj : (z z' : ℕ) (g g' : Bool) → variant_of z g ≡ variant_of z' g' → (z ≡ z') × (g ≡ g')
variant_of_inj z z' true true h = (omega arith, refl)
variant_of_inj z z' false false h = (omega arith, refl)
variant_of_inj z z' true false h = absurd (omega arith)
variant_of_inj z z' false true h = absurd (omega arith)

coordinates_inj :
    (s s' : Text) (z z' x x' y y' : ℕ) (g g' : Bool)
    → AreCoordinates z x y
    → AreCoordinates z' x' y'
    → (new_tile_key s (pos z) (pos x) (pos y) g).coordinates
      ≡ (new_tile_key s' (pos z') (pos x') (pos y') g').coordinates
    → (x ≡ x') × (y ≡ y')
unfolding new_tile_key
coordinates_inj s s' z z' x x' y y' g g' h h' e = (omega arith, omega arith)

-- For coordinates in range, two tile keys are equal only if source, zoom, column, row and the
-- choice of gzip are the same.
pub new_tile_key_inj :
    (s s' : Text) (z z' x x' y y' : ℕ) (g g' : Bool)
    → AreCoordinates z x y
    → AreCoordinates z' x' y'
    → new_tile_key s (pos z) (pos x) (pos y) g ≡ new_tile_key s' (pos z') (pos x') (pos y') g'
    → (s ≡ s') × (z ≡ z') × (x ≡ x') × (y ≡ y') × (g ≡ g')
unfolding new_tile_key
new_tile_key_inj s s' z z' x x' y y' g g' h h' e =
    let (same_x, same_y) =
      coordinates_inj s s' z z' x x' y y' g g' h h' (ap (λ k. k.coordinates) e) in
    let variants : variant_of z g ≡ variant_of z' g' =
      rw (← variant_lem s z x y g h.0, ← variant_lem s' z' x' y' g' h'.0) (ap (λ k. k.variant) e) in
    let (same_z, same_g) = variant_of_inj z z' g g' variants in
    (ap (λ k. k.source) e, same_z, same_x, same_y, same_g)

kinds_differ : ◌≡◌ {A = ℕ} 0 1 → ⊥
kinds_differ e = cc

-- Whatever their arguments, Go ints of any sign, a tile key and a UTFGrid key differ.
pub new_tile_key-ne-new_grid_key :
    (s s' : Text) (z z' x x' y y' : ℤ) (g g' : Bool)
    → new_tile_key s z x y g ≢ new_grid_key s' z' x' y' g'
unfolding new_grid_key new_tile_key
new_tile_key-ne-new_grid_key s s' z z' x x' y y' g g' e = kinds_differ (ap (λ k. k.kind) e)

-- UTFGrid keys with coordinates in range are equal only if all their arguments are.
pub new_grid_key_inj :
    (s s' : Text) (z z' x x' y y' : ℕ) (g g' : Bool)
    → AreCoordinates z x y
    → AreCoordinates z' x' y'
    → new_grid_key s (pos z) (pos x) (pos y) g ≡ new_grid_key s' (pos z') (pos x') (pos y') g'
    → (s ≡ s') × (z ≡ z') × (x ≡ x') × (y ≡ y') × (g ≡ g')
unfolding new_grid_key new_tile_key
new_grid_key_inj s s' z z' x x' y y' g g' h h' e =
    new_tile_key_inj s s' z z' x x' y y' g g' h h' (λ i. record (e i) { kind = 0 })

-- The index of a shard is in range.
pub shard_index-lt : (key : Key) → shard_index key < shard_count
unfolding shard_index
shard_index-lt key = omega arith
