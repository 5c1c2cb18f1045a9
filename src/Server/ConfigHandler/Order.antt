-- ===== src/Server/ConfigHandler/Order.antt =====
-- pkg/server/config_handler.go: a configuration is loaded only after its files were written.
use axctl.Common.{
  String, text_eq, text_eq_iff, ◌≡◌, refl, ◌⊎◌, inl, inr, Option, none, some, Bool-cases,
}
use axctl.Ipc.Config.{ConfigUniversal}
use axctl.Ipc.Compositor.{Command}
use axctl.Server.ConfigHandler.{
  ConfigGenerator, ConfigHandler, Files, full_config, lua_config, output_path, lua_written,
  write_lua, written, in_directory, generate, apply_config,
}

module _ {C W : Type 0} (files : Files W) (reload : Command C) where
  -- The Lua file is written where the compositor has a Lua generator and a path for it.
  pub data LuaWritten (h : ConfigHandler) (p : ConfigUniversal) (v w : W) : Type 0 where
    no_lua : (h.lua_generator ≡ none) ⊎ (h.alt ≡ "") → v ≡ w → LuaWritten h p v w
    lua :
        {g : ConfigGenerator}
        → h.lua_generator ≡ some g
        → files.write_file h.alt (lua_config g p) v ≡ (w, none)
        → LuaWritten h p v w

  -- The directory was made and the files were written, one after the other.
  pub record Written (h : ConfigHandler) (p : ConfigUniversal) (u w : W) : Type 0 where
    generator : ConfigGenerator
    has_generator : h.generator ≡ some generator
    with_directory : W
    with_config : W
    directory_made :
        files.make_directory (files.directory (output_path h)) u ≡ (with_directory, none)
    config_written :
        files.write_file (output_path h) (full_config generator p) with_directory
        ≡ (with_config, none)
    lua_done : LuaWritten h p with_config w

  -- An error with the compositor untouched, or a load of what was written.
  abbrev pub Loads : (C × W) × Option String → C → (W → Type 0) → Type 0
  Loads r c P =
      ((e : String) × (r.1 ≡ some e) × (r.0.0 ≡ c))
      ⊎ (P r.0.1 × (r.0.0 ≡ (reload c).0) × (r.1 ≡ (reload c).1))

  lua_written-Loads :
      (path : String) (c : C) (r : W × Option String)
      → Loads (lua_written files reload path c r) c (λ w. r ≡ (w, none))
  lua_written-Loads path c (w, some e) = inl (_, refl, refl)
  lua_written-Loads path c (w, none) = inr (refl, refl, refl)

  write_lua-Loads :
      (h : ConfigHandler) (p : ConfigUniversal) (o : Option ConfigGenerator) (c : C) (v : W)
      → h.lua_generator ≡ o
      → Loads (write_lua files reload h p o (c, v)) c (LuaWritten h p v)
  write_lua-Loads h p none c v e = inr (no_lua (inl e) refl, refl, refl)
  write_lua-Loads h p (some g) c v e = elim (Bool-cases (text_eq h.alt "")) [
    | inl q ↦ rw q (inr (no_lua (inr ((text_eq_iff h.alt "").0 q)) refl, refl, refl))
    | inr q ↦ rw q (elim (lua_written-Loads h.alt c (files.write_file h.alt (lua_config g p) v)) [
      | inl failed ↦ inl failed
      | inr (done, at, answer) ↦ inr (lua {g = g} e done, at, answer)
    ])
  ]

  written-Loads :
      (h : ConfigHandler) (p : ConfigUniversal) (c : C) (r : W × Option String)
      → Loads (written files reload h p c r) c (λ w. (v : W) × (r ≡ (v, none)) × LuaWritten h p v w)
  written-Loads h p c (v, some e) = inl (_, refl, refl)
  written-Loads h p c (v, none) = elim (write_lua-Loads h p h.lua_generator c v refl) [
    | inl failed ↦ inl failed
    | inr (done, at, answer) ↦ inr ((v, refl, done), at, answer)
  ]

  in_directory-Loads :
      (h : ConfigHandler) (p : ConfigUniversal) (g : ConfigGenerator) (c : C) (u : W)
      (r : W × Option String)
      → h.generator ≡ some g
      → files.make_directory (files.directory (output_path h)) u ≡ r
      → Loads (in_directory files reload h p g c r) c (Written h p u)
  in_directory-Loads h p g c u (v, some e) q made = inl (_, refl, refl)
  in_directory-Loads h p g c u (v, none) q made =
      elim (written-Loads h p c (files.write_file (output_path h) (full_config g p) v)) [
        | inl failed ↦ inl failed
        | inr ((x, config_written, lua_done), at, answer) ↦ inr (
          record {
            generator = g;
            has_generator = q;
            with_directory = v;
            with_config = x;
            directory_made = made;
            config_written = config_written;
            lua_done = lua_done;
          },
          at,
          answer,
        )
      ]

  generate-Loads :
      (h : ConfigHandler) (p : ConfigUniversal) (o : Option ConfigGenerator) (c : C) (w : W)
      → h.generator ≡ o
      → Loads (generate files reload h p o (c, w)) c (Written h p w)
  generate-Loads h p none c w q = inl (_, refl, refl)
  generate-Loads h p (some g) c w q = in_directory-Loads h p g c w _ q refl

  -- Applying a configuration ends in one of two ways: with an error and the compositor untouched; or
  -- the directory, the generated file and, where there is one, the Lua file were written, each from the
  -- payload and in this order, and the compositor was told to reload after that, whose answer is the
  -- answer.
  pub apply_config-Loads :
      (h : ConfigHandler) (p : ConfigUniversal) (c : C) (w : W)
      → Loads (apply_config files reload h p (c, w)) c (Written h p w)
  unfolding apply_config
  apply_config-Loads h p c w = generate-Loads h p h.generator c w refl
