-- ===== src/EventBus/Tests.antt =====
-- A bus with room for two events after three were published, and the theorems there.
use comet_l.Prelude.{ℕ, ◌-◌, ◌≡◌, refl, none, [], codes, length, arith}
use comet_l.EventBus.{Bus, new_bus, publish, call, list_events}
use comet_l.EventBus.Window.{
  NumberedFrom, IsWindow, new_bus-IsWindow, publish-IsWindow, list_events_complete,
}

abbrev full : Bus ℕ
full =
    (publish 9 (codes "log") 30
      (publish 8 (codes "log") 20 (publish 7 (codes "log") 10 (new_bus 2)).0).0).0

full_numbers : list_events 0 full ≡ full.events
unfolding list_events publish new_bus
full_numbers = refl

untyped_event : call 1 [] 5 full ≡ none
unfolding call
untyped_event = refl

full-IsWindow : IsWindow full
full-IsWindow = publish-IsWindow 9 (codes "log") 30 _ (
    publish-IsWindow 8 (codes "log") 20 _
      (publish-IsWindow 7 (codes "log") 10 _ (new_bus-IsWindow 2)))

publish-IsWindow_example : IsWindow (publish 4 (codes "end") 40 full).0
publish-IsWindow_example = publish-IsWindow 4 (codes "end") 40 full full-IsWindow

list_events_complete_example :
    NumberedFrom 2 (list_events 1 full) × (length (list_events 1 full) ≡ full.sequence - 1)
unfolding publish new_bus
list_events_complete_example = list_events_complete 1 full full-IsWindow (omega arith) (omega arith)
