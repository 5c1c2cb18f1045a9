-- ===== src/Server/IdleInhibitors.antt =====
-- pkg/server/idle.go: the registry of idle inhibitors, the inhibitor of the command line and the
-- inhibitor of the system. What the compositor answers, how a reconnection goes and whether a program
-- starts are arguments. An inhibitor that holds its objects of the compositor tells whether its
-- surface is mapped.
use axctl.Common.{
  ℕ, suc, ◌%◌, ◌^◌, String, text_append, Bool, true, false, not, ◌&&◌, Option, none, some, List, [],
  ◌∷◌, ◌==◌, if◌then◌else◌, lookup, insert, erase, number_key,
}
use axctl.Server.Result.{Result, ok, err}
pub mod Held

pub record Inhibitor : Type 0 where
  pub enabled : Bool
  -- `none` while there is no inhibitor object; else whether the surface is mapped.
  pub held : Option Bool

-- The part of `IdleManager` that concerns inhibitors: whether there are a compositor and an inhibitor
-- manager, whether there are a layer shell and shared memory, and the ID of the legacy inhibitor,
-- which is 0 while there is none.
pub record Inhibitors : Type 0 where
  pub supported : Bool
  pub layered : Bool
  pub legacy : ℕ
  pub next_id : ℕ
  pub inhibitors : List (ℕ × Inhibitor)

pub record InhibitorState : Type 0 where
  pub id : ℕ
  pub enabled : Bool

-- The answer to `CreateInhibitor`; `broken` is an error of a broken pipe.
pub data Answer : Type 0 where
  granted : Answer
  broken refused : String → Answer

-- One attempt: whether a surface was made, how its mapping failed, and the answer.
pub record Attempt : Type 0 where
  pub surface : Bool
  pub mapping : Option String
  pub answer : Answer

-- How `connectWayland` ends, with what it then supports; an early failure leaves what was.
pub data Connection : Type 0 where
  connected : Bool → Bool → Connection
  broken_off : Bool → Bool → String → Connection
  refused_at_once : String → Connection

pub record Attempts : Type 0 where
  pub first : Attempt
  pub reconnection : Connection
  pub second : Attempt

abbrev pub not_found : String
not_found = "idle inhibitor not found"

-- `invalidateStaleProxies`, on the inhibitors; what is enabled stays so.
unfoldable pub invalidate : List (ℕ × Inhibitor) → List (ℕ × Inhibitor)
invalidate [] = []
invalidate ((id, inh) ∷ rest) = (id, record inh { held = none }) ∷ invalidate rest

unfoldable pub reconnect : Inhibitors → Connection → Inhibitors
unfolding invalidate
reconnect im (connected supported layered) = record im {
  supported = supported;
  layered = layered;
  inhibitors = invalidate im.inhibitors;
}
reconnect im (broken_off supported layered e) = record im {
  supported = supported;
  layered = layered;
}
reconnect im (refused_at_once e) = im

abbrev pub connection_error : Connection → Option String
connection_error (connected s l) = none
connection_error (broken_off s l e) = some e
connection_error (refused_at_once e) = some e

-- How an attempt ends: with the mapping of its surface, for good, or by a broken pipe.
pub data Ending : Type 0 where
  holds : Bool → Ending
  fails breaks : String → Ending

abbrev is_none : Option String → Bool
is_none none = true
is_none (some e) = false

abbrev pub answered : Bool → Answer → Ending
answered mapped granted = holds mapped
answered mapped (broken e) = breaks e
answered mapped (refused e) = fails e

-- The body of the loop of `setInhibitorEnabledLocked`; a failure of the mapping is no error.
unfoldable pub attempt : Inhibitors → Attempt → Ending
attempt im a =
    if not im.supported
    then fails "idle_inhibit not supported by compositor"
    else if not a.surface
    then fails "failed to create wl_surface"
    else answered (im.layered && is_none a.mapping) a.answer

abbrev pub last_ending : Inhibitors → Ending → Inhibitors × Result Bool
last_ending im (holds m) = (im, ok m)
last_ending im (fails e) = (im, err e)
last_ending im (breaks e) = (im, err e)

abbrev pub reconnected : Inhibitors → String → Option String → Attempt → Inhibitors × Result Bool
reconnected im e none second = last_ending im (attempt im second)
reconnected im e (some e') second = (
  im,
  err (
      text_append "wayland reconnect failed: "
        (text_append e' (text_append " (original: " (text_append e ")")))),
)

abbrev pub retried : Inhibitors → Attempts → Ending → Inhibitors × Result Bool
retried im a (holds m) = (im, ok m)
retried im a (fails e) = (im, err e)
retried im a (breaks e) =
    reconnected (reconnect im a.reconnection) e (connection_error a.reconnection) a.second

abbrev pub acquired : Inhibitors → Attempts → Option Bool → Inhibitors × Result Bool
acquired im a (some m) = (im, ok m)
acquired im a none = retried im a (attempt im a.first)

abbrev pub held_of : Result Bool → Result (Option Bool)
held_of (ok m) = ok (some m)
held_of (err e) = err e

-- `setInhibitorEnabledLocked`: what the inhibitor then holds.
unfoldable pub set_held :
    Inhibitors → Inhibitor → Bool → Attempts → Inhibitors × Result (Option Bool)
unfolding attempt reconnect
set_held im inh enabled a =
    let (im', r) = acquired im a inh.held in if enabled then (im', held_of r) else (im, ok none)

abbrev pub state_of : ℕ → Inhibitor → InhibitorState
state_of id inh = record { id = id; enabled = inh.enabled }

-- The end of an operation that has set what an inhibitor holds.
abbrev pub switched :
    ℕ → Bool → Inhibitors × Result (Option Bool) → Inhibitors × Result InhibitorState
switched id enabled (im, err e) = (im, err e)
switched id enabled (im, ok held) =
    let inh : Inhibitor = record { enabled = enabled; held = held } in
    (record im { inhibitors = insert id inh im.inhibitors }, ok (state_of id inh))

abbrev pub created : ℕ → Inhibitors × Result InhibitorState → Inhibitors × Result InhibitorState
created id (im, ok s) = (im, ok s)
created id (im, err e) = (record im { inhibitors = erase id im.inhibitors }, err e)

abbrev pub fresh : Inhibitor
fresh = record { enabled = false; held = none }

unfoldable pub create_idle_inhibitor :
    Inhibitors → Bool → Attempts → Inhibitors × Result InhibitorState
unfolding set_held
create_idle_inhibitor im enabled a =
    let id = suc im.next_id % 2 ^ 32 in
    let im' : Inhibitors = record im { next_id = id; inhibitors = insert id fresh im.inhibitors } in
    if enabled
    then created id (switched id true (set_held im' fresh true a))
    else (im', ok (state_of id fresh))

abbrev pub same_bool : Bool → Bool → Bool
same_bool true b = b
same_bool false b = not b

abbrev pub set_found :
    Inhibitors → ℕ → Bool → Attempts → Option Inhibitor → Inhibitors × Result InhibitorState
set_found im id enabled a none = (im, err not_found)
set_found im id enabled a (some inh) =
    if same_bool inh.enabled enabled
    then (im, ok (state_of id inh))
    else switched id enabled (set_held im inh enabled a)

unfoldable pub set_idle_inhibitor_enabled :
    Inhibitors → ℕ → Bool → Attempts → Inhibitors × Result InhibitorState
unfolding set_held
set_idle_inhibitor_enabled im id enabled a = set_found im id enabled a (lookup id im.inhibitors)

abbrev found_state : ℕ → Option Inhibitor → Result InhibitorState
found_state id none = err not_found
found_state id (some inh) = ok (state_of id inh)

unfoldable pub get_idle_inhibitor : Inhibitors → ℕ → Result InhibitorState
get_idle_inhibitor im id = found_state id (lookup id im.inhibitors)

abbrev pub destroy_found : Inhibitors → ℕ → Option Inhibitor → Inhibitors × Option String
destroy_found im id none = (im, some not_found)
destroy_found im id (some inh) = (
  record im {
    legacy = if im.legacy == id then 0 else im.legacy;
    inhibitors = erase id im.inhibitors;
  },
  none,
)

-- `DestroyIdleInhibitor`; what the inhibitor held is destroyed with it.
unfoldable pub destroy_idle_inhibitor : Inhibitors → ℕ → Inhibitors × Option String
destroy_idle_inhibitor im id = destroy_found im id (lookup id im.inhibitors)

abbrev pub error_of : Inhibitors × Result InhibitorState → Inhibitors × Option String
error_of (im, ok s) = (im, none)
error_of (im, err e) = (im, some e)

abbrev pub inhibit_found :
    Inhibitors → Bool → Attempts → Option Inhibitor → Inhibitors × Option String
inhibit_found im on a none = (im, some "idle inhibitor not initialized")
inhibit_found im on a (some inh) =
    if same_bool inh.enabled on
    then (im, none)
    else error_of (switched im.legacy on (set_held im inh on a))

-- The inhibitor of `Inhibit` is made when it is first needed.
unfoldable pub with_legacy : Inhibitors → Inhibitors
with_legacy im =
    let id = suc im.next_id % 2 ^ 32 in
    if im.legacy == 0
    then record im { legacy = id; next_id = id; inhibitors = insert id fresh im.inhibitors }
    else im

-- `Inhibit`.
unfoldable pub inhibit : Inhibitors → Bool → Attempts → Inhibitors × Option String
unfolding set_held with_legacy
inhibit im on a =
    let im' = with_legacy im in inhibit_found im' on a (lookup im'.legacy im'.inhibitors)

abbrev is_enabled : Option Inhibitor → Bool
is_enabled none = false
is_enabled (some inh) = inh.enabled

-- `IsInhibited`.
unfoldable pub is_inhibited : Inhibitors → Bool
is_inhibited im = if im.legacy == 0 then false else is_enabled (lookup im.legacy im.inhibitors)

-- The inhibitor of the system, with whether its program was started.
pub record SystemInhibitor : Type 0 where
  pub enabled : Bool
  pub running : Bool

abbrev started : SystemInhibitor → Option String → SystemInhibitor × Option String
started s (some e) = (s, some (text_append "failed to start systemd-inhibit: " e))
started s none = (record { enabled = true; running = true }, none)

-- `InhibitSystem`, on the error of starting the program.
unfoldable pub inhibit_system :
    SystemInhibitor → Bool → Option String → SystemInhibitor × Option String
inhibit_system s on start =
    if same_bool s.enabled on
    then (s, none)
    else if on
    then (if s.running then (s, none) else started s start)
    else (record { enabled = false; running = false }, none)
