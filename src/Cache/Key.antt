-- ===== src/Cache/Key.antt =====
-- Keys, values and the shard hash of internal/cache/cache.go.
pub mod Packing
use tileserver_go.Base.{
  ℕ, ◌+◌, ◌*◌, ◌/◌, ◌%◌, ◌^◌, ◌<◌, bit_xor, bit_or, ◌≡◌, ◌↔◌, Bool, true, false, ◌&&◌, List, [],
  ◌∷◌, arith, Text, text_eq, text_eq_iff, nat_eq, nat_eq_iff, if◌then◌else◌, Eq, length,
}
use tileserver_go.Base.Int.{ℤ, pos, negsuc, wrap, ◌+ℤ◌}

-- Value. data_cap is cap(Data), the memory that the slice holds; etag, content_type and
-- content_encoding are texts.
pub record Value : Type 0 where
  pub body : List ℕ
  pub body_cap : ℕ
  pub etag : Text
  pub content_type : Text
  pub content_encoding : Text
  pub not_found : Bool
  pub vary_accept_encoding : Bool

-- Value{}
abbrev pub zero_value : Value
zero_value = record {
  body = [];
  body_cap = 0;
  etag = [];
  content_type = [];
  content_encoding = [];
  not_found = false;
  vary_accept_encoding = false;
}

pub record Key : Type 0 where
  pub source : Text
  pub coordinates : ℕ  -- uint64
  pub variant : ℕ  -- uint8
  pub kind : ℕ  -- uint8

-- Go's `==` on Key.
unfoldable pub key_eq : Key → Key → Bool
key_eq a b =
    text_eq a.source b.source
    && nat_eq a.coordinates b.coordinates
    && nat_eq a.variant b.variant
    && nat_eq a.kind b.kind

pub key_eq_iff : (a b : Key) → (key_eq a b ≡ true) ↔ (a ≡ b)
unfolding key_eq
key_eq_iff a b = ground (arith, text_eq_iff a.source b.source)

instance abbrev pub key_Eq : Eq Key
key_Eq = record { beq = key_eq; beq_iff = key_eq_iff }

-- NewTileKey. The arguments are Go ints; z << 1 and the conversions to uint8 and uint32 keep the
-- low bits. The shifted high word and the low word share no bit, so their `|` is a sum.
unfoldable pub new_tile_key : Text → ℤ → ℤ → ℤ → Bool → Key
new_tile_key source z x y gzip =
    let shifted = wrap 8 (z +ℤ z) in
    record {
      source = source;
      coordinates = wrap 32 x * 2 ^ 32 + wrap 32 y;
      variant = if gzip then bit_or shifted 1 else shifted;
      kind = 0;
    }

-- NewGridKey
unfoldable pub new_grid_key : Text → ℤ → ℤ → ℤ → Bool → Key
unfolding new_tile_key
new_grid_key source z x y gzip = record (new_tile_key source z x y gzip) { kind = 1 }

abbrev pub shard_count : ℕ
shard_count = 64

-- uint64 arithmetic
abbrev mul64 : ℕ → ℕ → ℕ
mul64 a b = a * b % 2 ^ 64

abbrev shr : ℕ → ℕ → ℕ
shr a k = a / 2 ^ k

-- The loop of hashKey over the bytes of the source.
hash_source : ℕ → Text → ℕ
hash_source hash [] = hash
hash_source hash (c ∷ s) = hash_source (mul64 (bit_xor hash c) 1099511628211) s

-- hash ^= hash >> 33
abbrev fold33 : ℕ → ℕ
fold33 hash = bit_xor hash (shr hash 33)

-- hashKey; the shifts of an uint8 by 56 and 48 lose no bit.
unfoldable pub hash_key : Key → ℕ
unfolding hash_source
hash_key key =
    let sourced = hash_source 14695981039346656037 key.source in
    let placed = bit_xor sourced key.coordinates in
    let varied = bit_xor placed (key.variant * 2 ^ 56) in
    let kinded = bit_xor varied (key.kind * 2 ^ 48) in
    let first = mul64 (fold33 kinded) 0xff51afd7ed558ccd in
    let second = mul64 (fold33 first) 0xc4ceb9fe1a85ec53 in fold33 second

-- hashKey(key) & (shardCount - 1), the index that Cache.shard takes
unfoldable pub shard_index : Key → ℕ
unfolding hash_key
shard_index key = hash_key key % shard_count
