-- ===== src/Server/Templates.antt =====
-- internal/server/server.go: `parseTemplates`, over the embedded files and html/template, which are
-- parameters.
pub mod Pages
use wingstation.Prelude.{Str, bytes, Bool, List, [], ◌∷◌, ◌++◌, Option, none, some}
use wingstation.Go.Strings.{Unicode, trim_prefix, trim_suffix}
use wingstation.Go.Map.{lookup, insert}
use wingstation.Go.Runtime.{Runtime}
use wingstation.Go.Result.{Result, ok, err, and_then}
use wingstation.Server.Helpers.{Floats}
use wingstation.Server.Funcs.{TemplateFunc, build_func_map}

-- `fs.Glob` and `fs.ReadFile` on the embedded files.
pub record Files : Type 0 where
  pub glob : Str → Result (List Str)
  pub read : Str → Result Str

-- `template.New(name).Funcs(fm)`, and `t.New(file).Parse(text)`, which gives the set with the file.
pub record Engine (F T : Type 0) : Type 0 where
  pub fresh : List (Str × TemplateFunc F) → Str → T
  pub parse : T → Str → Str → Result T

-- `templates/pages/dashboard.html` is the page `dashboard`.
unfoldable pub page_name : Str → Str
page_name path = trim_suffix (trim_prefix path (bytes "templates/pages/")) (bytes ".html")

abbrev pub layout_file : Str
layout_file = bytes "templates/layouts/base.html"

-- `m[f]` of a map of strings.
abbrev content_of : Str → List (Str × Str) → Str
content_of f m = elim (lookup f m) [ none ↦ [] | some c ↦ c ]

module _ (files : Files) where
  -- The loop over the shared files.
  unfoldable pub read_shared : List Str → List (Str × Str) → Result (List (Str × Str))
  read_shared [] m = ok m
  read_shared (f ∷ fs) m =
      and_then (files.read f) (λ text. read_shared fs (insert f text m))
        (λ e. err (bytes "reading " ++ (f ++ (bytes ": " ++ e))))

  module _ {F T : Type 0} (eng : Engine F T) (fm : List (Str × TemplateFunc F)) (rt : Runtime)
      (shared : List (Str × Str)) where
    -- The loop that fills the set of the partials.
    unfoldable pub parse_partials : List Str → T → Result T
    parse_partials [] t = ok t
    parse_partials (f ∷ fs) t =
        and_then (eng.parse t f (content_of f shared)) (parse_partials fs)
          (λ e. err (bytes "parsing partial " ++ (f ++ (bytes ": " ++ e))))

    -- The loop over the map of the shared files, for a page.
    unfoldable pub parse_shared : Str → List (Str × Str) → T → Result T
    parse_shared name [] t = ok t
    parse_shared name ((f, text) ∷ fs) t =
        and_then (eng.parse t f text) (parse_shared name fs) (λ e.
          err (bytes "parsing " ++ (f ++ (bytes " for page " ++ (name ++ (bytes ": " ++ e))))))

    -- The set of one page.
    unfoldable pub page_set : Str → Result T
    unfolding parse_shared
    page_set path =
        and_then (files.read path)
          (λ text.
            and_then
              (parse_shared (page_name path) (rt.iterate (Str × Str) shared)
                (eng.fresh fm (bytes "base")))
              (λ t.
                and_then (eng.parse t path text) ok
                  (λ e. err (bytes "parsing page " ++ (path ++ (bytes ": " ++ e)))))
              err)
          (λ e. err (bytes "reading page " ++ (path ++ (bytes ": " ++ e))))

    -- The loop over the pages.
    unfoldable pub page_sets : List Str → List (Str × T) → Result (List (Str × T))
    unfolding page_set
    page_sets [] pages = ok pages
    page_sets (path ∷ paths) pages =
        and_then (page_set path) (λ t. page_sets paths (insert (page_name path) t pages)) err

  -- `parseTemplates`: the map of the pages, and the set of the partials.
  unfoldable pub parse_templates :
      {T : Type 0}
      → Unicode
      → (f : Floats) → Engine f.float T
      → Runtime
      → Bool
      → Result (List (Str × T) × T)
  unfolding read_shared parse_partials page_sets build_func_map
  parse_templates {T} u f eng rt terminal_enabled =
      let fm = build_func_map u f terminal_enabled in
      and_then (files.glob (bytes "templates/partials/*.html"))
        (λ matches.
          and_then (read_shared (layout_file ∷ matches) [])
            (λ shared.
              and_then (parse_partials eng fm rt shared matches (eng.fresh fm []))
                (λ partials.
                  and_then (files.glob (bytes "templates/pages/*.html"))
                    (λ paths.
                      and_then (page_sets eng fm rt shared paths []) (λ pages. ok (pages, partials))
                        err)
                    err)
                err)
            err)
        err
