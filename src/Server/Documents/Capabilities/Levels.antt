-- ===== src/Server/Documents/Capabilities/Levels.antt =====
-- The zoom levels that buildWMTSCapabilities of internal/server/wmts.go writes.
use tileserver_go.Base.{
  ℕ, zero, suc, ◌+◌, ◌-◌, nat_eq, leb, ltb, Bool, true, false, ◌&&◌, ◌||◌, not, any, List, [], ◌∷◌,
  ◌++◌, ◌≡◌, Bool-cases, inl, inr, refl, ◌∙◌, arith,
}
use tileserver_go.Base.Int.{ℤ, pos, negsuc, leb_ℤ, ◌≤ℤ◌}
use tileserver_go.Mbtiles.Format.{Floats, Bounds}
use tileserver_go.Server.Wmts.Limits.{MatrixLimits}
use tileserver_go.Server.Documents.{Described}
use tileserver_go.Server.Documents.Capabilities.{
  Printing, zooms_from, zooms, deeper, max_zoom_of, matrix_zooms,
}

-- Whether z is one of the zoom levels.
abbrev pub is_one_of : ℕ → List ℕ → Bool
is_one_of z zs = any (λ y. nat_eq z y) zs

is_one_of-zooms_from :
    (z first count : ℕ)
    → is_one_of z (zooms_from first count) ≡ (leb first z && ltb z (first + count))
unfolding zooms_from
is_one_of-zooms_from z first zero = ground arith
is_one_of-zooms_from z first (suc count) = ground (arith, is_one_of-zooms_from z (first + 1) count)

pub is_one_of-zooms :
    (z : ℕ) (low high : ℤ)
    → pos 0 ≤ℤ low
    → low ≤ℤ high
    → is_one_of z (zooms low high) ≡ (leb_ℤ low (pos z) && leb_ℤ (pos z) high)
is_one_of-zooms z (pos low) (pos high) not_negative in_order =
    is_one_of-zooms_from z low (high + 1 - low) ∙ ground arith
is_one_of-zooms z (pos low) (negsuc high) not_negative in_order = absurd (omega arith)
is_one_of-zooms z (negsuc low) high not_negative in_order = absurd (omega arith)

module _ (fl : Floats) where
  -- Whether a source reaches the zoom level.
  abbrev pub is_reached : ℕ → List (Described fl) → Bool
  is_reached z ss = any (λ s. leb_ℤ (pos z) s.meta.max_zoom) ss

  is_reached-append :
      (z : ℕ) (before after : List (Described fl)) (s : Described fl)
      → leb_ℤ (pos z) s.meta.max_zoom ≡ true
      → is_reached z (before ++ s ∷ after) ≡ true
  is_reached-append z [] after s h = rw h refl
  is_reached-append z (b ∷ before) after s h =
      rw (is_reached-append z before after s h) (ground arith)

  -- A level that is within those of a source is reached by a source.
  pub reached_within :
      (z : ℕ) (before after : List (Described fl)) (s : Described fl)
      → ((leb_ℤ s.meta.min_zoom (pos z) && leb_ℤ (pos z) s.meta.max_zoom)
          && not (nat_eq z 0 || is_reached z (before ++ s ∷ after)))
        ≡ false
  reached_within z before after s = elim (Bool-cases (leb_ℤ (pos z) s.meta.max_zoom)) [
    | inl e ↦ rw (is_reached-append z before after s e) (ground arith)
    | inr e ↦ rw e (ground arith)
  ]

module _ (fl : Floats) (print : Printing fl) (limits : Bounds fl → ℤ → MatrixLimits) where
  max_zoom_of-reached :
      (z : ℕ) (ss : List (Described fl)) (n : ℤ)
      → leb_ℤ (pos z) (max_zoom_of fl print limits ss n) ≡ (leb_ℤ (pos z) n || is_reached fl z ss)
  unfolding max_zoom_of
  max_zoom_of-reached z [] n = ground arith
  max_zoom_of-reached z (s ∷ ss) n =
      max_zoom_of-reached z ss (deeper fl print limits s.meta n) ∙ ground arith

  max_zoom_of-grows : (ss : List (Described fl)) (n : ℤ) → n ≤ℤ max_zoom_of fl print limits ss n
  unfolding max_zoom_of
  max_zoom_of-grows [] n = omega arith
  max_zoom_of-grows (s ∷ ss) n =
      let after = max_zoom_of-grows ss (deeper fl print limits s.meta n) in
      let here : n ≤ℤ deeper fl print limits s.meta n = ground arith in omega (arith, after, here)

  pub is_declared :
      (z : ℕ) (ss : List (Described fl))
      → is_one_of z (matrix_zooms fl print limits ss) ≡ (nat_eq z 0 || is_reached fl z ss)
  is_declared z ss =
      let deepest = max_zoom_of fl print limits ss (pos 0) in
      is_one_of-zooms z (pos 0) deepest (omega arith) (max_zoom_of-grows ss (pos 0))
      ∙ (let reached = max_zoom_of-reached z ss (pos 0) in ground (arith, reached))
