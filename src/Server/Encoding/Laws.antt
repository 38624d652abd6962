-- ===== src/Server/Encoding/Laws.antt =====
-- What the negotiation of internal/server/tiles.go settles for every header.
use tileserver_go.Base.{
  ℕ, suc, zero, ◌<◌, ◌≡◌, refl, inl, inr, Bool, true, false, List, [], ◌∷◌, if◌then◌else◌, Text,
  codes, text_eq, equal_fold, trim_space, length, cut, split, Bool-cases, arith, nat_eq,
}
use tileserver_go.Base.Numbers.{Float64}
use tileserver_go.Server.Encoding.{
  Preferences, accepts_gzip, prefers_gzip, accepts, quality_of, read_parameter, read_parameters,
  note_preference, read_part, read_parts, no_preferences, parse_encoding_preferences,
}

-- Cut takes the separator away, so what follows it is shorter.
cut-shorter : (sep : ℕ) (s : Text) → (cut sep s).2 ≡ true → length (cut sep s).1 < length s
unfolding cut
cut-shorter sep [] h = cc
cut-shorter sep (c ∷ s) h = elim (Bool-cases (nat_eq c sep)) [
  | inl here ↦ rw here (omega arith)
  | inr later ↦ rw later (omega (arith, cut-shorter sep s (rw later at h)))
]

module _ (fl : Float64) where
  open fl use {Number, zero_f, one_f, less, at_most, parse}

  -- When prefersGzip holds, a response with Content-Encoding gzip is acceptable.
  pub accepts-prefers_gzip :
      (p : Preferences fl) → prefers_gzip fl p ≡ true → accepts fl p (codes "gzip") ≡ true
  unfolding prefers_gzip accepts accepts_gzip text_eq
  accepts-prefers_gzip p h = ground arith

  stop :
      (f g : ℕ) (parameters : Text) (quality : Number)
      → read_parameters fl f false parameters quality
        ≡ read_parameters fl g false parameters quality
  unfolding read_parameters
  stop zero zero parameters quality = refl
  stop zero (suc g) parameters quality = refl
  stop (suc f) zero parameters quality = refl
  stop (suc f) (suc g) parameters quality = refl

  -- The loop over the parameters of an encoding: any two bounds on its rounds that exceed the
  -- length of the text give the same quality.
  pub read_parameters-fuel :
      (f g : ℕ) (more : Bool) (parameters : Text) (quality : Number)
      → length parameters < f
      → length parameters < g
      → read_parameters fl f more parameters quality ≡ read_parameters fl g more parameters quality
  unfolding read_parameters
  read_parameters-fuel zero g more parameters quality h k = absurd (omega arith)
  read_parameters-fuel (suc f) zero more parameters quality h k = absurd (omega arith)
  read_parameters-fuel (suc f) (suc g) false parameters quality h k = refl
  read_parameters-fuel (suc f) (suc g) true parameters quality h k =
      elim (Bool-cases (cut b';' parameters).2) [
        | inl again ↦
            let shorter = cut-shorter b';' parameters again in
            read_parameters-fuel f g (cut b';' parameters).2 (cut b';' parameters).1
              (read_parameter fl quality (cut b';' parameters).0) (omega (arith, shorter))
              (omega (arith, shorter))
        | inr over ↦
            rw over
              (stop f g (cut b';' parameters).1 (read_parameter fl quality (cut b';' parameters).0))
      ]

  -- A quality between 0 and 1.
  abbrev pub InUnit : Number → Type 0
  InUnit q = (at_most zero_f q ≡ true) × (at_most q one_f ≡ true)

  abbrev pub AreInUnit : Preferences fl → Type 0
  AreInUnit p = InUnit p.gzip × InUnit p.identity × InUnit p.wildcard

  module _ (zero_in : InUnit zero_f) (one_in : InUnit one_f) where
    quality_of-InUnit : (value : Text) → InUnit (quality_of fl value)
    unfolding quality_of
    quality_of-InUnit value = ground arith

    read_parameter-InUnit :
        (quality : Number) (parameter : Text)
        → InUnit quality
        → InUnit (read_parameter fl quality parameter)
    unfolding read_parameter
    read_parameter-InUnit quality parameter h =
        either _ (quality_of fl (cut b'=' (trim_space parameter)).1) quality (quality_of-InUnit _) h
      where
        either : (b : Bool) (x y : Number) → InUnit x → InUnit y → InUnit (if b then x else y)
        either true x y i j = i
        either false x y i j = j

    read_parameters-InUnit :
        (f : ℕ) (more : Bool) (parameters : Text) (quality : Number)
        → InUnit quality
        → InUnit (read_parameters fl f more parameters quality)
    unfolding read_parameters
    read_parameters-InUnit zero more parameters quality h = h
    read_parameters-InUnit (suc f) false parameters quality h = h
    read_parameters-InUnit (suc f) true parameters quality h =
        read_parameters-InUnit f _ _ _ (read_parameter-InUnit quality _ h)

    note_preference-AreInUnit :
        (p : Preferences fl) (name : Text) (quality : Number)
        → AreInUnit p
        → InUnit quality
        → AreInUnit (note_preference fl p name quality)
    unfolding note_preference
    note_preference-AreInUnit p name quality (g, i, w) q =
        elim (Bool-cases (equal_fold name (codes "gzip"))) [
          | inl a ↦ rw a (q, i, w)
          | inr a ↦ rw a (elim (Bool-cases (equal_fold name (codes "identity"))) [
            | inl b ↦ rw b (g, q, w)
            | inr b ↦ rw b (elim (Bool-cases (text_eq name (codes "*"))) [
              | inl c ↦ rw c (g, i, q)
              | inr c ↦ rw c (g, i, w)
            ])
          ])
        ]

    read_part-AreInUnit :
        (p : Preferences fl) (part : Text) → AreInUnit p → AreInUnit (read_part fl p part)
    unfolding read_part
    read_part-AreInUnit p part h =
        let (name, parameters, more) = cut b';' part in
        note_preference-AreInUnit p (trim_space name)
          (read_parameters fl (suc (length parameters)) more parameters one_f) h
          (read_parameters-InUnit (suc (length parameters)) more parameters one_f one_in)

    read_parts-AreInUnit :
        (parts : List Text) (p : Preferences fl) → AreInUnit p → AreInUnit (read_parts fl p parts)
    unfolding read_parts
    read_parts-AreInUnit [] p h = h
    read_parts-AreInUnit (part ∷ parts) p h =
        read_parts-AreInUnit parts (read_part fl p part) (read_part-AreInUnit p part h)

    -- For numbers in which 0 and 1 lie between 0 and 1: whatever the Accept-Encoding header says,
    -- and whatever its numbers parse to, each quality that parseEncodingPreferences keeps lies
    -- between 0 and 1.
    pub parse-AreInUnit : (header : Text) → AreInUnit (parse_encoding_preferences fl header)
    unfolding parse_encoding_preferences
    parse-AreInUnit header =
        read_parts-AreInUnit (split b',' header) (no_preferences fl) (zero_in, zero_in, zero_in)
