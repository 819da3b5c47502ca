-- ===== src/Stream/Tests.antt =====
-- A bus with room for two events per topic, at concrete inputs.
use ecn.Common.{
  ◌+◌, String, ◌≡◌, refl, sym, ◌⊎◌, inl, inr, false, [], ◌∷◌, arith, if◌then◌else◌, Bool-cases, ok,
  raise,
}
use ecn.Common.Dict.{contains, insert}
use ecn.Common.Text.{str_eq}
use ecn.Common.Ring.{push}
use ecn.Stream.{
  unknown_topic, Topic, EventBus, new_bus, append_event, publish, collect, consume, next_offset,
  fan_out, update_queue,
}
use ecn.Stream.Window.{IsWindow, IsBus, publish-IsBus, consume-take}

program : Unit {0}
unfolding new_bus append_event publish collect consume next_offset fan_out update_queue push insert
program = tt

abbrev faults : Topic String
faults = record { buffer = (1, "b") ∷ (2, "c") ∷ []; seq = 3; subscribers = [] }

abbrev bus : EventBus String
bus = record { maxlen = 2; topics = ("faults", faults) ∷ []; queues = [] }

faults-IsWindow : IsWindow String 2 faults
faults-IsWindow = record { oldest = 1; run = (refl, (refl, refl)); bounded = omega arith }

bus-IsBus : IsBus String bus
bus-IsBus topic t e = elim (Bool-cases (str_eq topic "faults")) [
  | inl same ↦ let here : faults ≡ t = ground (arith, e, same) in rw (sym here) faults-IsWindow
  | inr other ↦ absurd (ground (arith, e, other))
]

publish-IsBus_example :
    ((contains "faults" bus.topics ≡ false)
      × (publish String "faults" "d" bus ≡ raise (unknown_topic "faults")))
    ⊎ ((bus' : EventBus String) × (publish String "faults" "d" bus
          ≡ ok (bus', next_offset String "faults" bus))
        × IsBus String bus'
        × ((k : String)
            → next_offset String k bus' ≡ (
                if str_eq k "faults"
                then next_offset String k bus + 1
                else next_offset String k bus)))
publish-IsBus_example = publish-IsBus String "faults" "d" bus bus-IsBus

-- A limit of 0 gives one event.
consume-take_example : consume String "faults" 0 0 bus ≡ ok ((1, "b") ∷ [])
consume-take_example = consume-take String "faults" 0 0 bus faults refl
