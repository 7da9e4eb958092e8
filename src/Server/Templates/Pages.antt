-- ===== src/Server/Templates/Pages.antt =====
-- Which pages `parseTemplates` makes.
use wingstation.Prelude.{
  Str, bytes, str_eq, Bool, true, false, ◌||◌, List, [], ◌∷◌, ◌++◌, Option, none, some, ◌≡◌, refl,
  sym, ◌∙◌, ap, any, str_eq_iff, subst, ◌⊎◌, inl, inr, if◌then◌else◌, arith,
}
use mathlib.Core.Option.{some-injective}
use mathlib.Core.List.{Mem, mem-cons_self, mem-cons_of_mem}
use wingstation.Go.Strings.{Unicode}
use wingstation.Go.Map.{lookup, insert}
use wingstation.Go.Map.Laws.{lookup-insert}
use wingstation.Go.Runtime.{Runtime}
use wingstation.Go.Result.{ok, ok-injective, and_then-ok}
use wingstation.Server.Helpers.{Floats}
use wingstation.Server.Funcs.{TemplateFunc, build_func_map}
use wingstation.Server.Templates.{
  Files, Engine, page_name, layout_file, read_shared, parse_partials, page_set, page_sets,
  parse_shared, parse_templates,
}

abbrev pub holds : {T : Type 0} → Option T → Bool
holds none = false
holds (some t) = true

-- There is a page of that name in the map.
abbrev pub has_page : {T : Type 0} → Str → List (Str × T) → Bool
has_page name pages = holds (lookup name pages)

holds-if :
    {T : Type 0} (b : Bool) (t : T) (o : Option T)
    → holds (if b then some t else o) ≡ (b || holds o)
holds-if true t o = refl
holds-if false t o = refl

or_none : (a : Bool) → (a || false) ≡ a
or_none a = ground arith

module _ {T : Type 0} (files : Files) (u : Unicode) (f : Floats) (eng : Engine f.float T)
    (rt : Runtime) where
  page_sets-has_page :
      (fm : List (Str × TemplateFunc f.float)) (shared : List (Str × Str)) (name : Str)
      (paths : List Str) (before after : List (Str × T))
      → page_sets files eng fm rt shared paths before ≡ ok after
      → has_page name after ≡ (any (λ p. str_eq (page_name p) name) paths || has_page name before)
  unfolding page_sets any
  page_sets-has_page fm shared name [] before after h =
      ap (has_page name) (sym (ok-injective before after h))
  page_sets-has_page fm shared name (path ∷ paths) before after h =
      let (t, _, rest) = and_then-ok (page_set files eng fm rt shared path) _ (λ e. e) after h in
      let added =
        ap holds (lookup-insert (page_name path) name t before)
        ∙ holds-if (str_eq (page_name path) name) t (lookup name before) in
      let found =
        page_sets-has_page fm shared name paths (insert (page_name path) t before) after rest in
      found
      ∙ ap (λ b. any (λ p. str_eq (page_name p) name) paths || b) added
      ∙ swapped (any (λ p. str_eq (page_name p) name) paths) (str_eq (page_name path) name)
          (has_page name before)
    where
      swapped : (a b c : Bool) → (a || (b || c)) ≡ ((b || a) || c)
      swapped a b c = ground arith

  -- The set comes from the other by parsing the files, in their order.
  abbrev pub Parses : T → List (Str × Str) → T → Type 0
  Parses t [] end = t ≡ end
  Parses t ((file, text) ∷ rest) end =
      (next : T) × (eng.parse t file text ≡ ok next) × Parses next rest end

  -- The set of a page: some shared files are parsed into the empty set of the functions, and then
  -- the page's own file, one of those in the pages' folder, whose name is the page's.
  pub record IsPageSet (fm : List (Str × TemplateFunc f.float)) (paths : List Str) (name : Str)
      (t : T) : Type 0 where
    pub path : Str
    pub in_folder : Mem path paths
    pub named : page_name path ≡ name
    pub text : Str
    pub is_read : files.read path ≡ ok text
    pub shared : List (Str × Str)
    pub base : T
    pub shared_parsed : Parses (eng.fresh fm (bytes "base")) shared base
    pub page_parsed : eng.parse base path text ≡ ok t

  module _ (fm : List (Str × TemplateFunc f.float)) (shared : List (Str × Str)) where
    parse_shared-Parses :
        (name : Str) (texts : List (Str × Str)) (t end : T)
        → parse_shared files eng fm rt shared name texts t ≡ ok end
        → Parses t texts end
    unfolding parse_shared
    parse_shared-Parses name [] t end h = ok-injective t end h
    parse_shared-Parses name ((file, text) ∷ texts) t end h =
        let (next, parsed, rest) =
          and_then-ok (eng.parse t file text) _
            (λ e. bytes "parsing " ++ (file ++ (bytes " for page " ++ (name ++ (bytes ": " ++ e)))))
            end h in
        (next, parsed, parse_shared-Parses name texts next end rest)

    page_set-IsPageSet :
        (path : Str) (paths : List Str) (t : T)
        → page_set files eng fm rt shared path ≡ ok t
        → IsPageSet fm (path ∷ paths) (page_name path) t
    unfolding page_set
    page_set-IsPageSet path paths t h =
        let (text, is_read, h1) =
          and_then-ok (files.read path) _
            (λ e. bytes "reading page " ++ (path ++ (bytes ": " ++ e))) t h in
        let (base, shares, h2) =
          and_then-ok
            (parse_shared files eng fm rt shared (page_name path) (rt.iterate (Str × Str) shared)
              (eng.fresh fm (bytes "base")))
            _ (λ e. e) t h1 in
        let (made, parsed, same) =
          and_then-ok (eng.parse base path text) _
            (λ e. bytes "parsing page " ++ (path ++ (bytes ": " ++ e))) t h2 in
        record {
          path = path;
          in_folder = mem-cons_self;
          named = refl;
          text = text;
          is_read = is_read;
          shared = rt.iterate (Str × Str) shared;
          base = base;
          shared_parsed = parse_shared-Parses (page_name path) _ _ base shares;
          page_parsed = parsed ∙ same;
        }

    later :
        (path : Str) (paths : List Str) (name : Str) (t : T)
        → IsPageSet fm paths name t
        → IsPageSet fm (path ∷ paths) name t
    later path paths name t s = record {
      path = s.path;
      in_folder = mem-cons_of_mem path s.in_folder;
      named = s.named;
      text = s.text;
      is_read = s.is_read;
      shared = s.shared;
      base = s.base;
      shared_parsed = s.shared_parsed;
      page_parsed = s.page_parsed;
    }

    page_sets-IsPageSet :
        (name : Str) (paths : List Str) (before after : List (Str × T)) (t : T)
        → page_sets files eng fm rt shared paths before ≡ ok after
        → lookup name after ≡ some t
        → IsPageSet fm paths name t ⊎ (lookup name before ≡ some t)
    unfolding page_sets
    page_sets-IsPageSet name [] before after t h found =
        inr (ap (lookup name) (ok-injective before after h) ∙ found)
    page_sets-IsPageSet name (path ∷ paths) before after t h found =
        let (made, makes, rest) =
          and_then-ok (page_set files eng fm rt shared path) _ (λ e. e) after h in
        elim (page_sets-IsPageSet name paths (insert (page_name path) made before) after t rest
          found) [
            | inl s ↦ inl (later path paths name t s)
            | inr e ↦
                added made makes (str_eq (page_name path) name) refl
                  (sym (lookup-insert (page_name path) name made before) ∙ e)
          ]
      where
        added :
            (made : T)
            → page_set files eng fm rt shared path ≡ ok made
            → (b : Bool) → str_eq (page_name path) name ≡ b
            → (if b then some made else lookup name before) ≡ some t
            → IsPageSet fm (path ∷ paths) name t ⊎ (lookup name before ≡ some t)
        added made makes true same e = inl (
            subst (λ n. IsPageSet fm (path ∷ paths) n t) ((str_eq_iff (page_name path) name).0 same)
              (subst (IsPageSet fm (path ∷ paths) (page_name path)) (some-injective made t e)
                (page_set-IsPageSet path paths made makes)))
        added made makes false differs e = inr e

  -- What `parseTemplates` makes of the pages' folder.
  parse_templates-sets :
      (terminal : Bool) (paths : List Str) (pages : List (Str × T)) (partials : T)
      → files.glob (bytes "templates/pages/*.html") ≡ ok paths
      → parse_templates files u f eng rt terminal ≡ ok (pages, partials)
      → (shared : List (Str × Str)) × (page_sets files eng
            (build_func_map u f terminal)
            rt
            shared
            paths
            []
          ≡ ok pages)
  unfolding parse_templates
  parse_templates-sets terminal paths pages partials globbed h =
      let fm = build_func_map u f terminal in
      let (matches, _, h1) =
        and_then-ok (files.glob (bytes "templates/partials/*.html")) _ (λ e. e) _ h in
      let (shared, _, h2) =
        and_then-ok (read_shared files (layout_file ∷ matches) []) _ (λ e. e) _ h1 in
      let (set, _, h3) =
        and_then-ok (parse_partials files eng fm rt shared matches (eng.fresh fm [])) _ (λ e. e) _
          h2 in
      let (found, globs, h4) =
        and_then-ok (files.glob (bytes "templates/pages/*.html")) _ (λ e. e) _ h3 in
      let (made, sets, h5) =
        and_then-ok (page_sets files eng fm rt shared found []) _ (λ e. e) _ h4 in
      (
        shared,
        ap (λ x. page_sets files eng fm rt shared x [])
              (ok-injective paths found (sym globbed ∙ globs))
            ∙ sets
            ∙ ap ok (ap (λ p. p.0) (ok-injective (made, set) (pages, partials) h5)),
      )

  -- Where the templates are parsed, there is a page for each file of the pages' folder, by the
  -- file's name without its folder and its ending, and no other.
  pub parse_templates-has_page :
      (terminal : Bool) (paths : List Str) (pages : List (Str × T)) (partials : T) (name : Str)
      → files.glob (bytes "templates/pages/*.html") ≡ ok paths
      → parse_templates files u f eng rt terminal ≡ ok (pages, partials)
      → has_page name pages ≡ any (λ p. str_eq (page_name p) name) paths
  unfolding lookup
  parse_templates-has_page terminal paths pages partials name globbed h =
      let (shared, sets) = parse_templates-sets terminal paths pages partials globbed h in
      page_sets-has_page (build_func_map u f terminal) shared name paths [] pages sets ∙ or_none _

  -- The set of each page.
  pub parse_templates-IsPageSet :
      (terminal : Bool) (paths : List Str) (pages : List (Str × T)) (partials : T) (name : Str)
      (t : T)
      → files.glob (bytes "templates/pages/*.html") ≡ ok paths
      → parse_templates files u f eng rt terminal ≡ ok (pages, partials)
      → lookup name pages ≡ some t
      → IsPageSet (build_func_map u f terminal) paths name t
  unfolding lookup
  parse_templates-IsPageSet terminal paths pages partials name t globbed h found =
      let (shared, sets) = parse_templates-sets terminal paths pages partials globbed h in
      elim (page_sets-IsPageSet (build_func_map u f terminal) shared name paths [] pages t sets
        found) [ inl s ↦ s | inr e ↦ cc ]
