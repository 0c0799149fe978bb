-- ===== src/Adapters/Examples.antt =====
-- The lifecycle hosts on concrete notifications and events.
use essenty.Common.{ℕ, ◌+◌, ◌≡◌, true, false, List, [], ◌∷◌, some, none, arith}
use essenty.Common.Ints.{pos}
use essenty.Lifecycle.State.{started, created, resumed, destroyed}
use essenty.Lifecycle.Registry.{World}
use essenty.Lifecycle.Subscribe.{exec}
use essenty.Android.BackHandler.{LegacyInput, back_up, handle_legacy_back, for_api_level}
use essenty.Android.BackExamples.{scene}
use essenty.Adapters.Macos as Macos
use essenty.Adapters.Uikit as Uikit
use essenty.Adapters.Watch as Watch
use essenty.Adapters.Targets.{macos_target, uikit_target, watch_target}
use essenty.Adapters.Applications.{Observes, applications-Observes}
use essenty.Adapters.Activity.{
  PollEvent, main, start, resume, stop, wake, new_activity, poll_events, InputStatus, unhandled,
  on_input, is_modern,
}
use essenty.Adapters.Polling.{callback_of, new_activity-poll, status_of, on_input-legacy}

-- A macOS application that runs hidden, a UIKit application in the background, and a watch.
abbrev app : Macos.Application
app = record { is_running = true; is_active = false }

abbrev macs : List Macos.Notification
macs = Macos.did_hide ∷ Macos.did_unhide ∷ Macos.will_terminate ∷ Macos.did_become_active ∷ []

abbrev kits : List Uikit.Notification
kits = Uikit.will_enter_foreground ∷ Uikit.did_become_active ∷ []

abbrev watches : List Watch.Notification
watches = Watch.will_resign_active ∷ []

applications-Observes_example :
    Observes {W = ℕ} 0 4
      (omega arith)
      (λ on_main. Macos.attach (exec 1) 4 on_main app 7)
      (Macos.on_notification (exec 1) 4)
      (Macos.drop (exec 1) 4)
      (some started)
      macos_target
      none
      macs
    × Observes {W = ℕ} 0 4
        (omega arith)
        (λ on_main. Uikit.attach (exec 1) 4 on_main Uikit.background 7)
        (Uikit.on_notification (exec 1) 4)
        (Uikit.drop (exec 1) 4)
        (some created)
        uikit_target
        none
        kits
    × Observes {W = ℕ} 0 4
        (omega arith)
        (λ on_main. Watch.attach (exec 1) 4 on_main (pos 0) 7)
        (Watch.on_notification (exec 1) 4)
        (Watch.drop (exec 1) 4)
        (some resumed)
        watch_target
        (some destroyed)
        watches
applications-Observes_example =
    applications-Observes 0 4 (omega arith) app macs Uikit.background kits (pos 0) watches 7

abbrev polled : List PollEvent
polled = main start ∷ wake ∷ main resume ∷ main stop ∷ []

-- The callback counts what it sees.
abbrev counting : PollEvent → ℕ → ℕ
counting e n = n + 1

new_activity-poll_example :
    (w w' : World ℕ) × (new_activity (exec 1) 4 0 ≡ some w)
    × (poll_events (exec 1) 4 (callback_of counting) polled w ≡ some w')
    × (w.state ≡ created)
    × (w'.state ≡ created)
    × (w'.memory ≡ 4)
new_activity-poll_example = new_activity-poll 0 4 (omega arith) counting polled 0

abbrev leave : LegacyInput → InputStatus
leave e = unhandled

on_input-legacy_example :
    on_input 2 leave (is_modern 30) back_up scene
    ≡ status_of 2 leave back_up (handle_legacy_back 2 (for_api_level 30) back_up scene)
on_input-legacy_example = on_input-legacy 2 leave 30 back_up scene
