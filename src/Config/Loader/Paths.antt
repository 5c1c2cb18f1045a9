-- ===== src/Config/Loader/Paths.antt =====
-- pkg/config/loader.go: the paths that a configuration is made of, which the watcher asks for.
use mathlib.Core.List.{reverse, reverse-cons}
use axctl.Common.{
  ℕ, zero, suc, ◌≡◌, refl, sym, ap, ◌∙◌, String, true, Option, none, some, List, [], ◌∷◌, ◌++◌,
  if◌then◌else◌, Bool-cases, arith, inl, inr, length, ◌==◌,
}
use axctl.Config.Types.{TomlConfig, no_toml}
use axctl.Config.Loader.{
  Disk, visited_before, max_import_depth, load_recursive, load_includes, load_matches, load_parsed,
  merge_found,
}

-- The paths that were visited, and the list that they are appended to.
abbrev Walked : Type 0
Walked = List String × List String

abbrev noted : String → Walked → Walked
noted abs (visited, out) = (abs ∷ visited, out ++ (abs ∷ []))

abbrev deeper :
    (String → List String → Walked → Walked) → String → Option TomlConfig → Walked → Walked
deeper collect abs none st = st
deeper collect abs (some sub) st = collect abs sub.includes st

-- The loops over the patterns and their matches, with the collection from a file as an argument.
collect_match : (String → List String → Walked → Walked) → Disk → Walked → String → Walked
collect_match collect disk st abs =
    if visited_before st.0 abs then st else deeper collect abs (disk.read abs) (noted abs st)

abbrev collect_matches :
    (String → List String → Walked → Walked) → Disk → List String → Walked → Walked
collect_matches collect disk [] st = st
collect_matches collect disk (m ∷ ms) st =
    collect_matches collect disk ms (collect_match collect disk st m)

abbrev collect_patterns :
    (String → List String → Walked → Walked) → Disk → String → List String → Walked → Walked
collect_patterns collect disk path [] st = st
collect_patterns collect disk path (p ∷ ps) st =
    collect_patterns collect disk path ps (collect_matches collect disk (disk.glob path p) st)

-- `collectIncludePaths`, with the number of nested imports that are still allowed.
collect_include_paths : ℕ → Disk → String → List String → Walked → Walked
unfolding collect_match
collect_include_paths zero disk path includes st = st
collect_include_paths (suc k) disk path includes st =
    collect_patterns (collect_include_paths k disk) disk path includes st

-- `ResolveIncludePaths` on a path that is resolved.
unfoldable pub resolve_include_paths : Disk → String → List String
unfolding collect_include_paths
resolve_include_paths disk path =
    (deeper (collect_include_paths max_import_depth disk) path (disk.read path)
      (path ∷ [], path ∷ [])).1

-- The paths of a load, the last first, and in their order.
abbrev walk_of : List String → Walked
walk_of seen = (seen, reverse seen)

idle_matches :
    (disk : Disk) (seen : List String) (merged : TomlConfig) (ms : List String)
    → (load_matches (load_recursive zero disk) seen merged ms).0 ≡ seen
unfolding load_matches load_recursive
idle_matches disk seen merged [] = refl
idle_matches disk seen merged (m ∷ ms) = idle_matches disk seen (merge_found merged none) ms

idle_includes :
    (disk : Disk) (path : String) (seen : List String) (merged : TomlConfig) (ps : List String)
    → (load_includes (load_recursive zero disk) disk path seen merged ps).0 ≡ seen
unfolding load_includes
idle_includes disk path seen merged [] = refl
idle_includes disk path seen merged (p ∷ ps) =
    let r = load_matches (load_recursive zero disk) seen merged (disk.glob path p) in
    idle_includes disk path r.0 r.1 ps ∙ idle_matches disk seen merged (disk.glob path p)

is_empty : (ps : List String) → (length ps == 0) ≡ true → ps ≡ []
is_empty [] h = refl
is_empty (p ∷ ps) h = absurd (ground arith)

-- A collection visits what a load visits.
abbrev Agrees : (String → List String → Walked → Walked) → ℕ → Disk → Type 0
Agrees collect k disk =
    (path : String) (ps seen : List String) (merged : TomlConfig)
    → collect path ps (walk_of seen)
      ≡ walk_of (load_includes (load_recursive k disk) disk path seen merged ps).0

module _ (k : ℕ) (disk : Disk) (collect : String → List String → Walked → Walked)
    (agrees : Agrees collect k disk) where
  noted-walk : (abs : String) (seen : List String) → noted abs (walk_of seen) ≡ walk_of (abs ∷ seen)
  noted-walk abs seen = ap (λ l. (abs ∷ seen, l)) (sym (reverse-cons abs seen))

  parsed_walk :
      (abs : String) (seen : List String) (o : Option TomlConfig)
      → deeper collect abs o (walk_of seen)
        ≡ walk_of (load_parsed (load_recursive k disk) disk abs seen o).0
  unfolding load_parsed
  parsed_walk abs seen none = refl
  parsed_walk abs seen (some cfg) = elim (Bool-cases (length cfg.includes == 0)) [
    | inl e ↦ rw e (
        ap (λ ps. collect abs ps (walk_of seen)) (is_empty cfg.includes e)
        ∙ (unfold load_includes in agrees abs [] seen no_toml))
    | inr e ↦ rw e (agrees abs cfg.includes seen no_toml)
  ]

  match_walk :
      (seen : List String) (abs : String)
      → collect_match collect disk (walk_of seen) abs
        ≡ walk_of (load_recursive (suc k) disk seen abs).0
  unfolding collect_match load_recursive
  match_walk seen abs = elim (Bool-cases (visited_before seen abs)) [
    | inl e ↦ rw e refl
    | inr e ↦ rw e (
        ap (deeper collect abs (disk.read abs)) (noted-walk abs seen)
        ∙ parsed_walk abs (abs ∷ seen) (disk.read abs))
  ]

  matches_walk :
      (seen : List String) (merged : TomlConfig) (ms : List String)
      → collect_matches collect disk ms (walk_of seen)
        ≡ walk_of (load_matches (load_recursive (suc k) disk) seen merged ms).0
  unfolding load_matches
  matches_walk seen merged [] = refl
  matches_walk seen merged (m ∷ ms) =
      let (seen', sub) = load_recursive (suc k) disk seen m in
      ap (collect_matches collect disk ms) (match_walk seen m)
      ∙ matches_walk seen' (merge_found merged sub) ms

  patterns_walk :
      (path : String) (ps seen : List String) (merged : TomlConfig)
      → collect_patterns collect disk path ps (walk_of seen)
        ≡ walk_of (load_includes (load_recursive (suc k) disk) disk path seen merged ps).0
  unfolding load_includes
  patterns_walk path [] seen merged = refl
  patterns_walk path (p ∷ ps) seen merged =
      let r = load_matches (load_recursive (suc k) disk) seen merged (disk.glob path p) in
      ap (collect_patterns collect disk path ps) (matches_walk seen merged (disk.glob path p))
      ∙ patterns_walk path ps r.0 r.1

collect-Agrees : (k : ℕ) (disk : Disk) → Agrees (collect_include_paths k disk) k disk
unfolding collect_include_paths
collect-Agrees zero disk path ps seen merged =
    ap walk_of (sym (idle_includes disk path seen merged ps))
collect-Agrees (suc k) disk path ps seen merged =
    patterns_walk k disk (collect_include_paths k disk) (collect-Agrees k disk) path ps seen merged

-- The paths of a configuration are those that loading it visits, in the order of the visits: the
-- watcher asks for every file that is read, those that cannot be read included, and for no other.
pub resolve_include_paths_visited :
    (disk : Disk) (path : String)
    → resolve_include_paths disk path
      ≡ reverse (load_recursive (suc max_import_depth) disk [] path).0
unfolding resolve_include_paths load_recursive
resolve_include_paths_visited disk path =
    ap (λ (st : Walked). st.1)
      (parsed_walk max_import_depth disk (collect_include_paths max_import_depth disk)
        (collect-Agrees max_import_depth disk) path (path ∷ []) (disk.read path))
