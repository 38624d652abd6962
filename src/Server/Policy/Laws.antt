-- ===== src/Server/Policy/Laws.antt =====
-- Which hosts and which origins the policies of internal/server/policy.go admit, entry by entry of
-- the configured lists.
use tileserver_go.Base.{
  contains-append, ◌≡◌, refl, ◌∙◌, Bool, false, ◌&&◌, ◌||◌, not, List, [], ◌∷◌, ◌++◌, if◌then◌else◌,
  Text, codes, text_eq, any, contains, trim_space, trim_prefix, to_lower, has_prefix, equal_fold,
  Bool-cases, inl, inr, arith,
}
use tileserver_go.Server.Policy.{
  Splitter, normalize_hostname, HostPolicy, add_host, add_hosts, new_host_policy, suffix_allows,
  host_allowed, CorsPolicy, add_origin, add_origins, new_cors_policy, origin_allowed,
}

any-append :
    {A : Type 0} (p : A → Bool) (xs bs : List A) → any p (xs ++ bs) ≡ (any p xs || any p bs)
any-append p [] bs = refl
any-append p (a ∷ xs) bs = ground (arith, any-append p xs bs)

-- What an origin needs to be admitted by one entry of the list.
abbrev pub entry_origin : Text → Text → Bool
entry_origin origin raw = text_eq (trim_space raw) (codes "*") || equal_fold (trim_space raw) origin

abbrev admits_origin : CorsPolicy → Text → Bool
admits_origin p origin = p.allow_all || any (λ allowed. equal_fold allowed origin) p.origins

add_origin-admits :
    (p : CorsPolicy) (origin raw : Text)
    → admits_origin (add_origin p raw) origin ≡ (admits_origin p origin || entry_origin origin raw)
unfolding add_origin
add_origin-admits p origin raw = elim (Bool-cases (text_eq (trim_space raw) (codes "*"))) [
  | inl e ↦ rw e (ground arith)
  | inr e ↦
      rw (e, any-append (λ allowed. equal_fold allowed origin) p.origins (trim_space raw ∷ []))
        (ground arith)
]

add_origins-admits :
    (p : CorsPolicy) (origin : Text) (values : List Text)
    → admits_origin (add_origins p values) origin
      ≡ (admits_origin p origin || any (entry_origin origin) values)
unfolding add_origins
add_origins-admits p origin [] = ground arith
add_origins-admits p origin (v ∷ vs) =
    add_origins-admits (add_origin p v) origin vs
    ∙ (rw (add_origin-admits p origin v) (ground arith))

-- The policy that newCORSPolicy makes of a list admits an origin exactly if an entry of the list,
-- white space trimmed, is * or the origin in any letter case.
pub origin_allowed_iff_listed :
    (values : List Text) (origin : Text)
    → origin_allowed (new_cors_policy values) origin ≡ any (entry_origin origin) values
unfolding origin_allowed new_cors_policy
origin_allowed_iff_listed values origin =
    let start : CorsPolicy = record { allow_all = false; origins = [] } in
    ground (arith, add_origins-admits start origin values)

module _ (split_host_port : Splitter) where
  -- What a host needs to be admitted by one entry of the list.
  abbrev pub entry_host : Text → Text → Bool
  entry_host host raw =
      let value = to_lower (trim_space raw) in
      let name = normalize_hostname split_host_port value in
      text_eq value (codes "*")
      || (if has_prefix value (codes "*.")
          then suffix_allows host (trim_prefix value (codes "*"))
          else not (text_eq name []) && text_eq name host)

  abbrev admits_host : HostPolicy → Text → Bool
  admits_host p host =
      p.allow_all || (contains p.exact host || any (suffix_allows host) p.wildcard_suffixes)

  add_host-admits :
      (p : HostPolicy) (host raw : Text)
      → admits_host (add_host split_host_port p raw) host
        ≡ (admits_host p host || entry_host host raw)
  unfolding add_host contains
  add_host-admits p host raw =
      let value = to_lower (trim_space raw) in
      let name = normalize_hostname split_host_port value in
      elim (Bool-cases (text_eq value (codes "*"))) [
        | inl e ↦ rw (e, add_host) (ground arith)
        | inr e ↦ elim (Bool-cases (has_prefix value (codes "*."))) [
          | inl h ↦
              rw
                (
                  e,
                  h,
                  add_host,
                  any-append (suffix_allows host) p.wildcard_suffixes
                      (trim_prefix value (codes "*") ∷ []),
                )
                (ground arith)
          | inr h ↦ elim (Bool-cases (text_eq name [])) [
            | inl n ↦ rw (e, h, n, add_host) (ground arith)
            | inr n ↦
                rw (e, h, n, add_host, contains-append p.exact (name ∷ []) host) (ground arith)
          ]
        ]
      ]

  add_hosts-admits :
      (p : HostPolicy) (host : Text) (values : List Text)
      → admits_host (add_hosts split_host_port p values) host
        ≡ (admits_host p host || any (entry_host host) values)
  unfolding add_hosts
  add_hosts-admits p host [] = ground arith
  add_hosts-admits p host (v ∷ vs) =
      add_hosts-admits (add_host split_host_port p v) host vs
      ∙ (rw (add_host-admits p host v) (ground arith))

  -- The policy that newHostPolicy makes of a list admits a host exactly if its name is not empty
  -- and an entry of the list, trimmed and in lower case, is *, or is *.suffix where the name ends
  -- in .suffix and is not the suffix itself, or has the same name.
  pub host_allowed_iff_listed :
      (values : List Text) (hostport : Text)
      → let host = normalize_hostname split_host_port hostport in
        host_allowed split_host_port (new_host_policy split_host_port values) hostport
        ≡ (not (text_eq host []) && any (entry_host host) values)
  unfolding host_allowed new_host_policy contains
  host_allowed_iff_listed values hostport =
      let host = normalize_hostname split_host_port hostport in
      let start : HostPolicy = record { allow_all = false; exact = []; wildcard_suffixes = [] } in
      ground (arith, add_hosts-admits start host values)
