-- ===== src/Lib.antt =====
-- axctl: a daemon that puts one JSON-RPC interface in front of the Wayland compositors Hyprland,
-- niri and Mango. The server (pkg/server) holds a cache of windows, workspaces and monitors that the
-- compositor's events keep current, broadcasts each event to the subscribed connections with a dump
-- of the cache, and keeps the last configuration that was applied, which partial updates change. A
-- TOML file with includes (pkg/config) gives that configuration; on niri a monitor of the keyboards
-- (pkg/keymon) runs a command when a modifier is tapped alone, for the binds of the configuration.
--
-- Where each part is modelled:
--   Keymon/Machine.antt      pkg/keymon/machine.go: `Process` is `process`, its two cases are `press`
--                            and `release`; a Go map of keys is a list without repetition.
--   Keymon/Monitor.antt      pkg/keymon/monitor.go: one function per method. What the devices report
--                            is an argument (`Probe`); a round of `readLoop` is `read_event`.
--   Ipc/Types.antt, Ipc/Cache.antt
--                            pkg/ipc/types.go and pkg/ipc/cache.go: one function per method.
--   Ipc/Appearance.antt, Ipc/Appearance/Coerce.antt
--                            pkg/ipc/config.go: `SetAppearanceKey`, `GetAppearanceKey` and the coercions.
--   Ipc/Keybinds.antt, Ipc/Config.antt
--                            pkg/ipc/config.go and pkg/ipc/modifier_self.go: the payload.
--   Config/Types.antt, Config/Loader.antt
--                            pkg/config/types.go and pkg/config/loader.go: conversion, merging, loading.
--   Server/ConfigState.antt  pkg/server/config_state.go: one function per method; a JSON round trip is
--                            `round_trip`, which drops the field that is tagged "-". Where the trip
--                            fails the clone shares its sections, which `thrown_away` writes out.
--   Server/Layouts.antt      pkg/server/server.go: `listLayouts`, `currentLayout`, `cycleLayout`; an
--                            index out of range is the outcome `panics`.
--   Server/Watch.antt        pkg/server/server.go: `initCache` and `watchEvents`.
--   Server/Broadcast.antt    pkg/server/server.go: `broadcastEvent`, `writeLoop`, `System.Subscribe`.
--   Server/IdleMonitors.antt pkg/server/idle.go: the registry of idle monitors; a deleted monitor is one
--                            that is not in the registry, and what the compositor answers is `Attempts`.
--   Server/IdleInhibitors.antt
--                            pkg/server/idle.go: the registry of inhibitors; the objects that an
--                            inhibitor holds are one value, and the answers of the compositor to the
--                            attempts of `setInhibitorEnabledLocked` are `Attempts`.
--   Server/Brightness.antt, Server/Brightness/Devices.antt
--                            pkg/server/brightness.go: one function per function; the external
--                            programs are the record `Tools`.
--   Server/ConfigHandler.antt, Server/DarkMode.antt
--                            pkg/server/config_handler.go (`ApplyConfig`) and pkg/server/darkmode.go.
--   Server/Paths.antt        pkg/server/paths.go: one function per function; the environment is a
--                            record, and `filepath.Join` is described for Unix.
--   Server/Requests.antt     pkg/server/server.go: `handleConnection`. A case of its switch is an entry
--                            of a table with the decoding of the parameters (Requests/Decode.antt), and
--                            a constructor that a `run_…` function carries out; one child per prefix of
--                            the methods. How the switch is left is an `Answer`, a panic among them;
--                            what the connection gets of it is a `Sending`: the error of `Encode` is
--                            thrown away by the code, and a result that does not encode is silence.
--   Ipc/Niri.antt            pkg/ipc/niri/client.go: the state of the client. Its children are the IDs
--                            (Ids), `handleEvent` and the stream (Events), the operations (Client,
--                            Workspaces, Outputs), which Interface puts in the record of Compositor, and
--                            proofs on fullscreen (Fullscreen, Toggles) and the background refreshes.
--   Ipc/Hyprland.antt        pkg/ipc/hyprland/client.go: `Subscribe`, line by line.
--   Server/Watch/Niri.antt, Server/Watch/Hyprland.antt
--                            what the events of these two streams do to the cache of the daemon.
--   Config/Apply.antt        pkg/config/apply.go: the paths, the handler and the files together.
--   Config/Watcher.antt      pkg/config/watcher.go, with `ResolveIncludePaths` of pkg/config/loader.go
--                            in Config/Loader/Paths.antt.
--   Ipc/Compositor.antt, Ipc/Mock.antt, Ipc/Errors.antt
--                            pkg/ipc/interface.go as a record of operations that the requests use, and
--                            pkg/ipc/mock/compositor.go as an instance of it; pkg/ipc/errors.go.
--   Common.antt              maps as association lists, Boolean tests, texts as code points.
--
-- How it is modelled. State is passed explicitly; a mutex makes each method one step, and where
-- steps of several goroutines meet, a list or a relation has every order of them (`Call` of
-- Keymon/Monitor/Alone.antt, `History` of Server/Broadcast/Queues.antt). A Go map whose order
-- matters is an association list in the order of its iteration. Numbers are unbounded but for the
-- conversions, which are written with their bounds; floating-point numbers are their exact binary
-- values with both infinities and NaN.
--
-- Bounds and fuel. A queue of notifications holds 256 (`eventClientQueueSize`), the channel of
-- niri's events 64. The recursion over includes is on the number of imports that may still be nested, eleven at the start, which is the
-- source's own limit: depth 0 to 10 is allowed (`maxImportDepth`), and no fuel means its error. A
-- decimal number is written with 20 digits of fuel; a 64-bit integer has at most 19, an unsigned one 20.
--
-- A write to a connection succeeds in the model; one that fails ends `writeLoop`, after which no round
-- of it follows, and ends the requests of its connection.
--
-- What is an argument: the answers of the compositor and how a reconnection goes, the reading,
-- parsing and globbing of files, the capabilities of input devices, the reading of `%g` by
-- fmt.Sscanf, the quoting by `%q`, the programs that find and set the brightness, the rounding arithmetic of float64 and
-- the parsing of its numbers, the generators of the three compositors, the decoding of a payload of
-- configuration by pkg/ipc/config_unmarshal.go, the exchange of requests over the
-- socket of niri, which files fsnotify can watch, and, among the requests, the waits and the
-- inhibitors of the idle manager, whose registry has a model of its own. Two steps do not overlap: an
-- event of a stream, the end of a background refresh and a reload of the configuration are one each.
--
-- What is not modelled: the bindings that are generated from the Wayland protocols
-- (pkg/ipc/wayland), the client of mango, the commands of Hyprland, the generators of the three
-- compositors, the checks of media and applications, and the command line (main.go); they are input
-- and output for the most part, or stand beside the parts above.
pub mod Common
pub mod Keymon
pub mod Ipc
pub mod Config
pub mod Server
