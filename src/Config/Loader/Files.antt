-- ===== src/Config/Loader/Files.antt =====
-- pkg/config/loader.go: which files a load visits, and what it keeps of the main file.
use axctl.Common.{
  ℕ, zero, suc, ◌≡◌, ◌≢◌, ◌∙◌, ap, refl, String, false, Option, none, some, List, [], ◌∷◌, length,
  ◌==◌, Bool-cases, inl, inr,
}
use axctl.Ipc.Types.{Value}
use axctl.Config.Types.{TomlConfig, no_toml, AppearanceConfig}
use axctl.Config.Loader.{
  Disk, Loaded, merge_config, merge_found, load_matches, load_includes, load_parsed, load_recursive,
  visited_before, merge_sections, no_sections,
}
use axctl.Config.Loader.Merge.{
  Setting, setting, workspace_style, workspace_style-merge_appearance, setting-merge_appearance,
}

-- No path stands twice.
abbrev pub IsFresh : List String → Type 0
IsFresh [] = Unit {0}
IsFresh (p ∷ ps) = (visited_before ps p ≡ false) × IsFresh ps

-- A loader of files that visits no file twice.
abbrev KeepsFresh : (List String → String → Loaded) → Type 0
KeepsFresh load = (seen : List String) (path : String) → IsFresh seen → IsFresh (load seen path).0

load_matches-IsFresh :
    (load : List String → String → Loaded) (seen : List String) (merged : TomlConfig)
    (matches : List String)
    → KeepsFresh load
    → IsFresh seen
    → IsFresh (load_matches load seen merged matches).0
unfolding load_matches
load_matches-IsFresh load seen merged [] k f = f
load_matches-IsFresh load seen merged (path ∷ rest) k f =
    load_matches-IsFresh load (load seen path).0 (merge_found merged (load seen path).1) rest k
      (k seen path f)

load_includes-IsFresh :
    (load : List String → String → Loaded) (disk : Disk) (path : String) (seen : List String)
    (merged : TomlConfig) (patterns : List String)
    → KeepsFresh load
    → IsFresh seen
    → IsFresh (load_includes load disk path seen merged patterns).0
unfolding load_includes
load_includes-IsFresh load disk path seen merged [] k f = f
load_includes-IsFresh load disk path seen merged (pattern ∷ rest) k f =
    let r = load_matches load seen merged (disk.glob path pattern) in
    load_includes-IsFresh load disk path r.0 r.1 rest k
      (load_matches-IsFresh load seen merged (disk.glob path pattern) k f)

load_parsed-IsFresh :
    (load : List String → String → Loaded) (disk : Disk) (path : String) (seen : List String)
    (o : Option TomlConfig)
    → KeepsFresh load
    → IsFresh seen
    → IsFresh (load_parsed load disk path seen o).0
unfolding load_parsed
load_parsed-IsFresh load disk path seen none k f = f
load_parsed-IsFresh load disk path seen (some cfg) k f =
    elim (Bool-cases (length cfg.includes == 0)) [
      | inl e ↦ rw e f
      | inr e ↦ rw e (load_includes-IsFresh load disk path seen no_toml cfg.includes k f)
    ]

pub load_recursive-IsFresh :
    (depth : ℕ) (disk : Disk) (seen : List String) (path : String)
    → IsFresh seen
    → IsFresh (load_recursive depth disk seen path).0
unfolding load_recursive
load_recursive-IsFresh zero disk seen path f = f
load_recursive-IsFresh (suc depth) disk seen path f = elim (Bool-cases (visited_before seen path)) [
  | inl e ↦ rw e f
  | inr e ↦ rw e (
      load_parsed-IsFresh (load_recursive depth disk) disk path (path ∷ seen) (disk.read path)
        (λ s p. load_recursive-IsFresh depth disk s p) (e, f))
]

-- What a merge never takes from its second side: the target and the workspace style.
abbrev pub style : Option AppearanceConfig → Option Value
style none = none
style (some a) = setting a workspace_style

record IsBare (c : TomlConfig) : Type 0 where
  no_target : c.target ≡ none
  no_style : style c.appearance ≡ none

style-merge_sections :
    (d s : Option AppearanceConfig) → style d ≡ none → style (merge_sections d s) ≡ none
style-merge_sections d none h = h
style-merge_sections none (some s) h =
    workspace_style-merge_appearance no_sections s ∙ (unfold setting in refl)
style-merge_sections (some d) (some s) h = workspace_style-merge_appearance d s ∙ h

merge_config-IsBare : (d s : TomlConfig) → IsBare d → IsBare (merge_config d s)
unfolding merge_config
merge_config-IsBare d s b = record {
  no_target = b.no_target;
  no_style = style-merge_sections d.appearance s.appearance b.no_style;
}

merge_found-IsBare : (d : TomlConfig) (o : Option TomlConfig) → IsBare d → IsBare (merge_found d o)
merge_found-IsBare d none b = b
merge_found-IsBare d (some s) b = merge_config-IsBare d s b

load_matches-IsBare :
    (load : List String → String → Loaded) (seen : List String) (merged : TomlConfig)
    (matches : List String)
    → IsBare merged
    → IsBare (load_matches load seen merged matches).1
unfolding load_matches
load_matches-IsBare load seen merged [] b = b
load_matches-IsBare load seen merged (path ∷ rest) b =
    load_matches-IsBare load (load seen path).0 (merge_found merged (load seen path).1) rest
      (merge_found-IsBare merged (load seen path).1 b)

load_includes-IsBare :
    (load : List String → String → Loaded) (disk : Disk) (path : String) (seen : List String)
    (merged : TomlConfig) (patterns : List String)
    → IsBare merged
    → IsBare (load_includes load disk path seen merged patterns).1
unfolding load_includes
load_includes-IsBare load disk path seen merged [] b = b
load_includes-IsBare load disk path seen merged (pattern ∷ rest) b =
    let r = load_matches load seen merged (disk.glob path pattern) in
    load_includes-IsBare load disk path r.0 r.1 rest
      (load_matches-IsBare load seen merged (disk.glob path pattern) b)

-- A file with includes that can be read and parsed and was not visited before loads to a
-- configuration without a target and without a workspace style, whatever it and its includes give.
pub load_recursive_loses :
    (depth : ℕ) (disk : Disk) (seen : List String) (path : String) (cfg : TomlConfig)
    → disk.read path ≡ some cfg
    → (length cfg.includes == 0) ≡ false
    → visited_before seen path ≡ false
    → (c : TomlConfig) × ((load_recursive (suc depth) disk seen path).1 ≡ some c)
      × (c.target ≡ none)
      × (style c.appearance ≡ none)
unfolding load_recursive load_parsed
load_recursive_loses depth disk seen path cfg reads includes fresh =
    let r =
      load_includes (load_recursive depth disk) disk path (path ∷ seen) no_toml cfg.includes in
    let c = merge_config r.1 (record cfg { includes = [] }) in
    let bare =
      merge_config-IsBare r.1 (record cfg { includes = [] })
        (load_includes-IsBare (load_recursive depth disk) disk path (path ∷ seen) no_toml
          cfg.includes (record { no_target = refl; no_style = refl })) in
    (
      c,
      rw fresh (
          ap (λ o. (load_parsed (load_recursive depth disk) disk path (path ∷ seen) o).1) reads
          ∙ rw includes),
      bare.no_target,
      bare.no_style,
    )

abbrev pub given_setting : Option AppearanceConfig → Setting → Option Value
given_setting none k = none
given_setting (some a) k = setting a k

given_setting-merge_sections :
    (d : Option AppearanceConfig) (a : AppearanceConfig) (k : Setting) (v : Value)
    → k ≢ workspace_style
    → setting a k ≡ some v
    → given_setting (merge_sections d (some a)) k ≡ some v
given_setting-merge_sections none a k v h e = rw (setting-merge_appearance no_sections a k h, e)
given_setting-merge_sections (some d) a k v h e = rw (setting-merge_appearance d a k h, e)

-- A file with includes that can be read and parsed and was not visited before loads to a
-- configuration that has every setting of the appearance the file gives, other than the workspace
-- style, whatever the includes give. Its other sections are not meant here.
pub load_recursive_overrides :
    (depth : ℕ) (disk : Disk) (seen : List String) (path : String) (cfg : TomlConfig)
    (a : AppearanceConfig) (k : Setting) (v : Value)
    → disk.read path ≡ some cfg
    → (length cfg.includes == 0) ≡ false
    → visited_before seen path ≡ false
    → cfg.appearance ≡ some a
    → k ≢ workspace_style
    → setting a k ≡ some v
    → (c : TomlConfig) × ((load_recursive (suc depth) disk seen path).1 ≡ some c)
      × (given_setting c.appearance k ≡ some v)
unfolding load_recursive load_parsed merge_config
load_recursive_overrides depth disk seen path cfg a k v reads includes fresh at h e =
    let r =
      load_includes (load_recursive depth disk) disk path (path ∷ seen) no_toml cfg.includes in
    (
      merge_config r.1 (record cfg { includes = [] }),
      rw fresh (
          ap (λ o. (load_parsed (load_recursive depth disk) disk path (path ∷ seen) o).1) reads
          ∙ rw includes),
      ap (λ o. given_setting (merge_sections r.1.appearance o) k) at
          ∙ given_setting-merge_sections r.1.appearance a k v h e,
    )
