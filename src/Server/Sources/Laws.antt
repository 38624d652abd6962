-- ===== src/Server/Sources/Laws.antt =====
-- What New of internal/server/server.go starts, and what it leaves behind when it fails.
pub mod Order
pub mod Discovered
use tileserver_go.Base.{
  ℕ, Bool, true, false, Option, none, some, List, [], ◌∷◌, ◌++◌, map, if◌then◌else◌, Text, text_eq,
  ◌≡◌, refl, sym, ap, ◌∙◌, subst, All, All-map, text_Eq,
}
use mathlib.Core.List.{append_assoc, append-nil}
use tileserver_go.Base.Results.{
  Result, ok, err, ◌>>=◌, refuse_if, wrap_error, Gives, Gives-bind, Gives-map, Gives-ok, Gives-self,
  after_test, after_call, wrap_error-Gives,
}
use tileserver_go.Base.Dict.{Dict, lookup}
use tileserver_go.Server.Sources.Laws.Order.{IsKey, sorted_keys-IsKey}
use tileserver_go.Config.Settings.{Config}
use tileserver_go.Mbtiles.Json.{Members}
use tileserver_go.Mbtiles.Format.{Floats}
use tileserver_go.Mbtiles.Dsn.{Options, Uris}
use tileserver_go.Mbtiles.Open.{
  Handles, nothing_open, close, System, OpenError, OpenStore, open_store,
}
use tileserver_go.Mbtiles.Open.Laws.{Leaves, IsOpen, open_store-Leaves}
use tileserver_go.Server.Sources.{
  Listing, NewError, Source, Server, source_ids, handles_left, close_server, Failure, open_all,
  opened_next, path_of, new_server, or_close_all, Encodes, new, discover_sources, sort_strings,
  keys, is_empty, options_of, open_source_of, start_server,
}

abbrev pub AllClosed : List Handles → Type 0
AllClosed [] = Unit
AllClosed (h ∷ hs) = (h ≡ nothing_open) × AllClosed hs

module _ {E S : Type 0} (open_one : (id path : Text) → Result E S × Handles)
    (paths : Dict Text Text) where
  -- The source is what Open gives for its id and the path that was found for that id.
  abbrev pub IsFrom : Source S → Type 0
  IsFrom s =
      (path : Text) × (lookup s.id paths ≡ some path)
      × (open_one s.id path ≡ (ok s.store, s.handles))

  -- Closing its store closes all of its handles.
  abbrev pub IsOpened : Source S → Type 0
  IsOpened s = (close s.handles ≡ nothing_open) × IsFrom s

AllClosed-append :
    (hs : List Handles) (h : Handles) → AllClosed hs → h ≡ nothing_open → AllClosed (hs ++ h ∷ [])
AllClosed-append [] h all last = (last, tt)
AllClosed-append (g ∷ hs) h (first, all) last = (first, AllClosed-append hs h all last)

source_ids-append :
    {S : Type 0} (ss : List (Source S)) (s : Source S)
    → source_ids (ss ++ s ∷ []) ≡ source_ids ss ++ s.id ∷ []
source_ids-append [] s = refl
source_ids-append (r ∷ ss) s = ap (◌∷◌ r.id) (source_ids-append ss s)

abbrev pub LeavesNothing : {E : Type 0} → Failure E → Type 0
LeavesNothing (e, left) = AllClosed left

-- The sources that were found are open, in the order of their ids, each as Open opened it at its
-- path, and closing the server closes all of their handles.
abbrev pub Starts :
    {E F S : Type 0}
    → (open_one : (id path : Text) → Result E S × Handles) → Result (NewError F) (Dict Text Text)
    → Server S
    → Type 0
Starts open_one found s =
    (paths : Dict Text Text) × (found ≡ ok paths)
    × (is_empty paths ≡ false)
    × (source_ids s.sources ≡ sort_strings (keys paths))
    × All (IsFrom open_one paths) s.sources
    × (s.is_closed ≡ false)
    × AllClosed (handles_left (close_server s).sources)

module _ {E S : Type 0} (open_one : (id path : Text) → Result E S × Handles)
    (opens : (id path : Text) → Leaves (λ s h. close h ≡ nothing_open) (open_one id path)) where
  module _ (paths : Dict Text Text) where
    abbrev AllOpened : List (Source S) → Type 0
    AllOpened ss = All (IsOpened open_one paths) ss

    abbrev Opened : List Text → List (Source S) → Type 0
    Opened ids ss = (source_ids ss ≡ ids) × AllOpened ss

    closed_all :
        (ss : List (Source S))
        → AllOpened ss
        → AllClosed
            (handles_left (close_server (record { sources = ss; is_closed = false })).sources)
    unfolding close_server
    closed_all [] all = tt
    closed_all (s ∷ ss) (first, all) = (first.0, closed_all ss all)

    AllOpened-append :
        (ss : List (Source S)) (s : Source S)
        → AllOpened ss
        → IsOpened open_one paths s
        → AllOpened (ss ++ s ∷ [])
    AllOpened-append [] s all last = (last, tt)
    AllOpened-append (r ∷ ss) s (first, all) last = (first, AllOpened-append ss s all last)

    opened_next-Gives :
        (before : List (Source S)) (id path : Text) (r : Result E S × Handles)
        → AllOpened before
        → lookup id paths ≡ some path
        → open_one id path ≡ r
        → Leaves (λ s h. close h ≡ nothing_open) r
        → Gives
            (Opened (source_ids before ++ id ∷ []))
            LeavesNothing
            (opened_next open_one before id r)
    unfolding Gives
    opened_next-Gives before id path (ok store, h) all found from opened =
        (source_ids-append before _, AllOpened-append before _ all (opened, (path, found, from)))
    opened_next-Gives before id path (err e, h) all found from nothing =
        AllClosed-append _ h (closed_all before all) nothing

    path_of-found :
        (id path : Text)
        → lookup id paths ≡ some path
        → open_one id path ≡ open_one id (path_of open_one paths id)
    path_of-found id path found = rw (found, path_of) refl

    open_all-Gives :
        (before : List (Source S)) (ids : List Text)
        → AllOpened before
        → All (IsKey paths) ids
        → Gives
            (Opened (source_ids before ++ ids))
            LeavesNothing
            (open_all open_one paths before ids)
    unfolding open_all Gives
    open_all-Gives before [] all known = (sym (append-nil (source_ids before)), all)
    open_all-Gives before (id ∷ ids) all ((path, found), known) =
        Gives-bind (Opened (source_ids before ++ id ∷ [])) (Opened (source_ids before ++ id ∷ ids))
          LeavesNothing _ _
          (opened_next-Gives before id path (open_one id (path_of open_one paths id)) all found
            (path_of-found id path found) (opens id (path_of open_one paths id)))
          (λ next (same, opened).
            Gives-map (Opened (source_ids next ++ ids)) (Opened (source_ids before ++ id ∷ ids))
              LeavesNothing _
              (λ ss (named, fine). (
                named ∙ ap (λ l. l ++ ids) same ∙ append_assoc (source_ids before) (id ∷ []) ids,
                fine,
              ))
              (open_all-Gives next ids opened known))

    or_close_all-Gives :
        {A : Type 0} (ss : List (Source S)) (r : Result (NewError E) A)
        → AllOpened ss
        → Gives (λ a. true ≡ true) LeavesNothing (or_close_all open_one ss r)
    unfolding Gives wrap_error
    or_close_all-Gives ss (ok a) all = refl
    or_close_all-Gives ss (err e) all = closed_all ss all

  new-Gives :
      (join : Text → Text) (cfg : Config) (listing : Listing E) (enc : Encodes open_one)
      → Gives
          (Starts open_one (discover_sources join cfg.sources listing))
          LeavesNothing
          (new open_one join cfg listing enc)
  unfolding new
  new-Gives join cfg listing enc =
      let found = discover_sources join cfg.sources listing in
      let P = Starts open_one found in
      Gives-bind (λ paths. found ≡ ok paths) P LeavesNothing _ _
        (wrap_error-Gives _ (λ e. Unit) LeavesNothing _ found (λ e u. tt)
          (Gives-self (λ e. Unit) found (λ e. tt)))
        (λ paths e. after_test P LeavesNothing _ _ _ tt (λ some_source d1.
          Gives-bind (Opened paths (sort_strings (keys paths))) P LeavesNothing _ _
            (open_all-Gives paths [] (sort_strings (keys paths)) tt (sorted_keys-IsKey paths))
            (λ ss (named, all).
              Gives-bind _ P LeavesNothing _ _
                (or_close_all-Gives paths ss (wrap_error _ enc.health) all)
                (λ d2 u2.
                  Gives-bind _ P LeavesNothing _ _
                    (or_close_all-Gives paths ss (wrap_error _ (enc.readiness _)) all)
                    (λ d3 u3.
                      Gives-bind _ P LeavesNothing _ _ (or_close_all-Gives paths ss _ all) (λ d4 u4.
                        Gives-ok P LeavesNothing _ (
                          paths,
                          e,
                          some_source,
                          named,
                          All-map (IsOpened open_one paths) (IsFrom open_one paths)
                              (λ s given. given.1) ss all,
                          refl,
                          closed_all paths ss all,
                        )))))))

Leaves-map :
    {E A : Type 0} (P Q : A → Handles → Type 0) (r : Result E A × Handles)
    → ((a : A) (h : Handles) → P a h → Q a h)
    → Leaves P r
    → Leaves Q r
Leaves-map P Q (ok a, h) f given = f a h given
Leaves-map P Q (err e, h) f given = given

module _ (fl : Floats) {E : Type 0} (sys : System E) (uris : Uris)
    (decode : Text → Result E (Members fl.float.Number)) (cfg : Config) where
  -- When New fails, no handle of any archive that it opened is left open. When it succeeds,
  -- discoverSources found at least one source, the ids of the server's sources are the ones found,
  -- sorted, each source is the store that Open gives for its id and the path found for that id, and
  -- Close leaves none of their handles open.
  pub start_server-Gives :
      (join : Text → Text) (listing : Listing (OpenError E))
      (enc : Encodes (open_source_of fl sys uris decode cfg))
      → Gives
          (Starts
            (open_source_of fl sys uris decode cfg)
            (discover_sources join cfg.sources listing))
          LeavesNothing
          (start_server fl sys uris decode cfg join listing enc)
  unfolding start_server
  start_server-Gives join listing enc =
      new-Gives (open_source_of fl sys uris decode cfg)
        (λ id path.
          Leaves-map (IsOpen fl decode id) (λ s h. close h ≡ nothing_open)
            (open_source_of fl sys uris decode cfg id path) (λ s h given. given.1)
            (open_store-Leaves fl decode id sys uris path (options_of cfg)))
        join cfg listing enc
