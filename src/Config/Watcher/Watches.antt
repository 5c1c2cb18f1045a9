-- ===== src/Config/Watcher/Watches.antt =====
-- pkg/config/watcher.go: which files fsnotify tells of.
use axctl.Common.{
  ℕ, ◌≡◌, refl, sym, ap, ◌∙◌, String, text_eq, text_eq_iff, text_eq_refl, subst, Bool, true, false,
  inl, inr, none, List, [], ◌∷◌, arith, Bool-cases, if◌then◌else◌,
}
use axctl.Config.Loader.{load_config, visited_before}
use axctl.Config.Loader.Paths.{resolve_include_paths}
use axctl.Config.Watcher.{
  ConfigWatcher, Now, Op, add_watch, add_watches, remove_watch, remove_watches,
  update_watched_files, on_event, reload,
}

kept_in :
    (p q : String) (ws : List String)
    → visited_before (remove_watch p ws) q ≡ (if text_eq p q then false else visited_before ws q)
kept_in p q [] = elim (Bool-cases (text_eq p q)) [ inl e ↦ rw e | inr e ↦ rw e ]
kept_in p q (w ∷ ws) =
    ground (arith, kept_in p q ws, text_eq_iff w p, text_eq_iff w q, text_eq_iff p q)

added_self :
    (can : String → Bool) (p : String) (ws : List String)
    → visited_before (add_watch can p ws) p ≡ (if visited_before ws p then true else can p)
added_self can p ws = elim (Bool-cases (can p)) [
  | inl e ↦ elim (Bool-cases (visited_before ws p)) [
    | inl f ↦ rw (e, f, f) refl
    | inr f ↦ rw (e, f, text_eq_refl p) refl
  ]
  | inr e ↦ elim (Bool-cases (visited_before ws p)) [
    | inl f ↦ rw (e, f) refl
    | inr f ↦ rw (e, f) refl
  ]
]

added_other :
    (can : String → Bool) (p q : String) (ws : List String)
    → text_eq p q ≡ false
    → visited_before (add_watch can p ws) q ≡ visited_before ws q
added_other can p q ws d = elim (Bool-cases (can p)) [
  | inl e ↦ elim (Bool-cases (visited_before ws p)) [
    | inl f ↦ rw (e, f) refl
    | inr f ↦ rw (e, f, d) refl
  ]
  | inr e ↦ rw e refl
]

absorbed :
    (w c p : Bool)
    → (if (if w then true else c) then true else if c then p else false)
      ≡ (if w then true else if c then true else false)
absorbed true c p = refl
absorbed false true p = refl
absorbed false false p = refl

abbrev either : Bool → Bool → Bool → Bool
either in_watches can in_paths = if in_watches then true else if can then in_paths else false

added_watches :
    (can : String → Bool) (ps : List String) (q : String) (ws : List String)
    → visited_before (add_watches can ps ws) q
      ≡ either (visited_before ws q) (can q) (visited_before ps q)
added_watches can [] q ws = elim (Bool-cases (visited_before ws q)) [
  | inl e ↦ rw e refl
  | inr e ↦ elim (Bool-cases (can q)) [ inl f ↦ rw (e, f) refl | inr f ↦ rw (e, f) refl ]
]
added_watches can (p ∷ ps) q ws = elim (Bool-cases (text_eq p q)) [
  | inl e ↦
      added_watches can ps q (add_watch can p ws)
      ∙ ap (λ b. either b (can q) (visited_before ps q))
          (subst
            (λ r.
              visited_before (add_watch can p ws) r ≡ (if visited_before ws r then true else can r))
            ((text_eq_iff p q).0 e) (added_self can p ws))
      ∙ rw e (absorbed (visited_before ws q) (can q) (visited_before ps q))
  | inr e ↦
      added_watches can ps q (add_watch can p ws)
      ∙ ap (λ b. either b (can q) (visited_before ps q)) (added_other can p q ws e)
      ∙ rw e refl
]

abbrev unless_gone : Bool → Bool → Bool → Bool
unless_gone kept gone watch = if kept then watch else if gone then false else watch

kept_one :
    (same k g w : Bool)
    → (same ≡ true → k ≡ true)
    → unless_gone k g w ≡ unless_gone k (if same then true else g) w
kept_one true k g w h = rw (h refl) refl
kept_one false k g w h = refl

gone_one :
    (same k g w : Bool)
    → (same ≡ true → k ≡ false)
    → unless_gone k g (if same then false else w) ≡ unless_gone k (if same then true else g) w
gone_one true k true w h = rw (h refl) refl
gone_one true k false w h = rw (h refl) refl
gone_one false k g w h = refl

settled :
    (k b w c : Bool)
    → (w ≡ true → b ≡ true)
    → unless_gone k b (either w c k) ≡ (if k then (if w then true else c) else false)
settled true b true c h = refl
settled true b false true h = refl
settled true b false false h = refl
settled false true w c h = refl
settled false false true c h = cc (h refl)
settled false false false true h = refl
settled false false false false h = refl

removed_watches :
    (kept ps : List String) (q : String) (ws : List String)
    → visited_before (remove_watches kept ps ws) q
      ≡ unless_gone (visited_before kept q) (visited_before ps q) (visited_before ws q)
removed_watches kept [] q ws = elim (Bool-cases (visited_before kept q)) [
  | inl e ↦ rw e refl
  | inr e ↦ rw e refl
]
removed_watches kept (p ∷ ps) q ws = elim (Bool-cases (visited_before kept p)) [
  | inl e ↦ rw e (
      removed_watches kept ps q ws
      ∙ kept_one (text_eq p q) (visited_before kept q) (visited_before ps q) (visited_before ws q)
          (λ d. subst (λ r. visited_before kept r ≡ true) ((text_eq_iff p q).0 d) e))
  | inr e ↦ rw e (
      removed_watches kept ps q (remove_watch p ws)
      ∙ ap (unless_gone (visited_before kept q) (visited_before ps q)) (kept_in p q ws)
      ∙ gone_one (text_eq p q) (visited_before kept q) (visited_before ps q) (visited_before ws q)
          (λ d. subst (λ r. visited_before kept r ≡ false) ((text_eq_iff p q).0 d) e))
]

abbrev pub listed : Bool → Bool → Bool → Bool
listed in_paths was_watched can = if in_paths then (if was_watched then true else can) else false

-- Where only files that were believed to be watched had a watch, a file has one after the update
-- exactly when it is of the configuration and had one or can be watched.
pub update_watched_files-watches :
    (now : Now) (cw : ConfigWatcher) (q : String)
    → (visited_before cw.watches q ≡ true → visited_before cw.watched q ≡ true)
    → visited_before (update_watched_files now cw).watches q
      ≡ listed
          (visited_before (resolve_include_paths now.disk cw.config_path) q)
          (visited_before cw.watches q)
          (now.can_watch q)
unfolding update_watched_files
update_watched_files-watches now cw q tracked =
    let paths = resolve_include_paths now.disk cw.config_path in
    removed_watches paths cw.watched q (add_watches now.can_watch paths cw.watches)
    ∙ ap (unless_gone (visited_before paths q) (visited_before cw.watched q))
        (added_watches now.can_watch paths q cw.watches)
    ∙ settled (visited_before paths q) (visited_before cw.watched q) (visited_before cw.watches q)
        (now.can_watch q) tracked

none_listed : (b : Bool) → listed b false false ≡ false
none_listed true = refl
none_listed false = refl

-- Where the main file cannot be watched when its watch is lost, and not be loaded 200 ms later, it
-- has no watch afterwards and no reload is pending: what is written to it then goes unnoticed.
pub lost_watch :
    (now later : Now) (time : ℕ) (op : Op) (cw : ConfigWatcher)
    → op.remove ≡ true
    → visited_before cw.watches cw.config_path ≡ false
    → now.can_watch cw.config_path ≡ false
    → load_config later.disk cw.config_path ≡ none
    → (visited_before (reload later (on_event now time op cw)).0.watches cw.config_path ≡ false)
      × ((reload later (on_event now time op cw)).0.timer ≡ none)
      × ((reload later (on_event now time op cw)).1 ≡ none)
unfolding reload on_event
lost_watch now later time op cw removed unwatched missing fails =
    let path = cw.config_path in
    let gone =
      update_watched_files-watches now cw path (λ h. absurd (cc (sym unwatched ∙ h)))
      ∙ (rw (unwatched, missing)
          (none_listed (visited_before (resolve_include_paths now.disk path) path))) in
    rw (removed, fails) (gone, refl, refl)
