-- ===== src/Command/Laws.antt =====
-- The configuration that cmd/tileserver/main.go starts the server with.
use tileserver_go.Base.{
  true, Option, none, some, List, [], ◌∷◌, Text, text_Eq, text_eq, ◌≡◌, Bool-cases, inl, inr, arith,
}
use tileserver_go.Base.Results.{
  ok, Gives, Gives-bind, Gives-ok, Gives-at, Gives-test, after_test, after_call, wrap_error-Gives,
}
use tileserver_go.Base.Int.{ℤ}
use tileserver_go.Base.Dict.{Dict, insert}
use tileserver_go.Config.{valid_id}
use tileserver_go.Config.Settings.{Config}
use tileserver_go.Config.Validation.{Urls, Paths}
use tileserver_go.Config.Validation.Laws.{with_sources}
use tileserver_go.Config.Validation.Normalized.{HasValidIds, IsNormal, normalize-Gives}
use tileserver_go.Command.{Host, RunError, CommandOptions, add_files, configure, prepare}

insert-HasValidIds :
    (id path : Text) (d : Dict Text Text)
    → valid_id id ≡ true
    → HasValidIds d
    → HasValidIds (insert id path d)
unfolding insert
insert-HasValidIds id path [] valid all = (valid, tt)
insert-HasValidIds id path ((k, v) ∷ more) valid (first, rest) = elim (Bool-cases (text_eq k id)) [
  | inl e ↦ rw e (valid, rest)
  | inr e ↦ rw e (first, insert-HasValidIds id path more valid rest)
]

module _ {E : Type 0} (host : Host E) where
  abbrev Whatever : RunError E → Type 0
  Whatever e = Unit

  add_files-HasValidIds :
      (files : List Text) (sources : Dict Text Text)
      → HasValidIds sources
      → Gives HasValidIds Whatever (add_files host sources files)
  unfolding add_files Gives
  add_files-HasValidIds [] sources all = all
  add_files-HasValidIds (file ∷ files) sources all =
      after_call HasValidIds Whatever _ _ (λ e. tt)
        (λ absolute e1. after_test HasValidIds Whatever _ _ _ tt (λ valid d1.
          add_files-HasValidIds files _
            (insert-HasValidIds _ absolute sources (ground (arith, valid)) all)))

  -- The version is printed, or the server is started with this configuration.
  abbrev pub IsPrepared : Paths → Urls → Option Config → Type 0
  IsPrepared paths urls none = Unit
  IsPrepared paths urls (some cfg) = IsNormal paths urls cfg

  configure-Gives :
      (paths : Paths) (urls : Urls) (given : Config × CommandOptions)
      → Gives (IsNormal paths urls) Whatever (configure host paths urls given)
  unfolding configure Gives
  configure-Gives paths urls (cfg, options) =
      let P = IsNormal paths urls in
      after_test P Whatever _ _ _ tt (λ known d1.
        after_call P Whatever _ _ (λ e. tt)
          (λ root e1.
            Gives-bind P P Whatever _ _
              (wrap_error-Gives P _ Whatever _ _ (λ e u. tt) (normalize-Gives paths urls root cfg))
              (λ normal (base, ids, usable).
                Gives-bind HasValidIds P Whatever _ _
                  (add_files-HasValidIds options.sources normal.sources ids)
                  (λ sources all. (base, all, (with_sources normal sources usable.0, usable.1))))))

  prepare-Gives :
      (paths : Paths) (urls : Urls) (procs : ℤ) (args : List Text)
      → Gives (IsPrepared paths urls) Whatever (prepare host paths urls procs args)
  unfolding prepare
  prepare-Gives paths urls procs args =
      let P = IsPrepared paths urls in
      after_call P Whatever _ _ (λ e. tt)
        (λ first e1.
          Gives-test P Whatever first.1.show_version _ _ (λ shown. Gives-ok P Whatever none tt)
            (λ started.
              after_call P Whatever _ _ (λ e. tt)
                (λ final e2.
                  Gives-bind (IsNormal paths urls) P Whatever _ _ (configure-Gives paths urls final)
                    (λ cfg normal. Gives-ok P Whatever (some cfg) normal))))

  -- Whatever the flags, the configuration file and the source files are, the configuration with which
  -- run starts the server has a valid base path, a valid id for each source, and can be used.
  pub prepare-IsNormal :
      (paths : Paths) (urls : Urls) (procs : ℤ) (args : List Text) (cfg : Config)
      → prepare host paths urls procs args ≡ ok (some cfg)
      → IsNormal paths urls cfg
  prepare-IsNormal paths urls procs args cfg =
      Gives-at (IsPrepared paths urls) Whatever (prepare host paths urls procs args)
        (prepare-Gives paths urls procs args)
