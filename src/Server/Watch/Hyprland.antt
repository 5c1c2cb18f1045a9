-- ===== src/Server/Watch/Hyprland.antt =====
-- pkg/ipc/hyprland/client.go and pkg/server/server.go: what a line of Hyprland does to the cache.
use axctl.Common.{ℤ, ◌≡◌, refl, ap, ◌∙◌, String, text_eq, false, lookup, text_key}
use axctl.Common.Strings.{has_char}
use axctl.Ipc.Cache.{update_window_floating, remove_window}
use axctl.Ipc.Hyprland.{told, told_event, read_line, address}
use axctl.Ipc.Hyprland.Lines.{line, comma, one_comma, read_line-line}
use axctl.Server.Broadcast.{Server}
use axctl.Server.Watch.{Answers, handle, event_id, track}
use axctl.Server.Watch.Events.{watched, cache_after, watched-cache}
use axctl.Server.Result.{Result}

module _ (active : Result String) (stamp : ℤ) (s : Server) (a : Answers) where
  by_line :
      (name rest : String)
      → has_char b'>' name ≡ false
      → (watched s a (read_line active stamp (line name rest))).cache
        ≡ cache_after s a (told_event active stamp name rest)
  by_line name rest h =
      watched-cache s a (read_line active stamp (line name rest))
      ∙ ap (cache_after s a) (read_line-line active stamp name rest h)

  -- The line that tells of a new title leaves the cache as it was, since it does not hold the title.
  pub windowtitle_keeps :
      (addr : String)
      → (watched s a (read_line active stamp (line "windowtitle" addr))).cache ≡ s.cache
  windowtitle_keeps addr =
      by_line "windowtitle" addr (unfold has_char in refl)
      ∙ (unfold told handle event_id track lookup in refl)

  -- A window that a line says was closed is removed from the cache.
  closewindow_removes :
      (addr : String)
      → (watched s a (read_line active stamp (line "closewindow" addr))).cache
        ≡ remove_window s.cache (address addr)
  closewindow_removes addr =
      by_line "closewindow" addr (unfold has_char in refl)
      ∙ (unfold told handle event_id lookup in refl)

  -- A change of floating sets the flag of that window, and nothing is asked of the compositor.
  floating_followed :
      (addr on : String)
      → has_char b',' addr ≡ false
      → (watched s a (read_line active stamp (line "changefloatingmode" (comma addr on)))).cache
        ≡ update_window_floating s.cache (address addr) (text_eq on "1")
  floating_followed addr on h =
      by_line "changefloatingmode" (comma addr on) (unfold has_char in refl)
      ∙ (unfold told in rw (one_comma addr on h) (unfold handle lookup in refl))
