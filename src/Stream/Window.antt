-- ===== src/Stream/Window.antt =====
-- What a topic keeps: the last events that were published, numbered without a gap.
use ecn.Common.{
  ℕ, zero, suc, ◌+◌, ◌-◌, ◌≤◌, max, String, ◌≡◌, refl, sym, ◌⊎◌, inl, inr, false, some, List, [],
  ◌∷◌, ◌++◌, arith, leb, if◌then◌else◌, Bool-cases, Option-cases, length, take, drop, keep, ok,
  raise,
}
use ecn.Common.Dict.{lookup, contains, insert, lookup-insert}
use ecn.Common.Text.{str_eq, eq_iff}
use ecn.Common.Ring.{push, length-push}
use ecn.Stream.{
  unknown_topic, Event, Topic, EventBus, append_event, publish, collect, consume, next_offset,
  fan_out,
}

module _ (Payload : Type 0) where
  -- Consecutive numbers from the first to before the second.
  abbrev pub IsRun : ℕ → List (Event Payload) → ℕ → Type 0
  IsRun n [] m = n ≡ m
  IsRun n (e ∷ buffer) m = (e.0 ≡ n) × IsRun (n + 1) buffer m

  -- The buffer holds the events from some number on up to the last one.
  pub record IsWindow (maxlen : ℕ) (t : Topic Payload) : Type 0 where
    pub oldest : ℕ
    pub run : IsRun oldest t.buffer t.seq
    pub bounded : length t.buffer ≤ maxlen

  IsRun-append :
      (n m : ℕ) (x : Payload) (buffer : List (Event Payload))
      → IsRun n buffer m
      → IsRun n (buffer ++ (m, x) ∷ []) (m + 1)
  IsRun-append n m x [] run = (sym run, omega (arith, run))
  IsRun-append n m x (e ∷ buffer) run = (run.0, IsRun-append (n + 1) m x buffer run.1)

  IsRun-drop :
      (k n m : ℕ) (buffer : List (Event Payload))
      → IsRun n buffer m
      → (n' : ℕ) × IsRun n' (drop k buffer) m
  IsRun-drop zero n m buffer run = (n, run)
  IsRun-drop (suc k) n m [] run = (n, run)
  IsRun-drop (suc k) n m (e ∷ buffer) run = IsRun-drop k (n + 1) m buffer run.1

  append_event-IsWindow :
      (maxlen : ℕ) (x : Payload) (t : Topic Payload)
      → IsWindow maxlen t
      → IsWindow maxlen (append_event Payload maxlen x t)
  unfolding append_event push
  append_event-IsWindow maxlen x t w =
      let (oldest, run) =
        IsRun-drop (length t.buffer + 1 - maxlen) w.oldest (t.seq + 1) (t.buffer ++ (t.seq, x) ∷ [])
          (IsRun-append w.oldest t.seq x t.buffer w.run) in
      record { oldest = oldest; run = run; bounded = length-push maxlen t.buffer (t.seq, x) }

  -- Every topic is a window.
  abbrev pub IsBus : EventBus Payload → Type 0
  IsBus bus =
      (topic : String) (t : Topic Payload)
      → lookup topic bus.topics ≡ some t
      → IsWindow bus.maxlen t

  -- Replacing a topic by a window keeps the bus one of windows.
  insert_topic :
      (bus : EventBus Payload) (topic : String) (t' : Topic Payload)
      → IsWindow bus.maxlen t'
      → IsBus bus
      → (k : String) (u : Topic Payload) → lookup k (insert topic t' bus.topics) ≡ some u
      → IsWindow bus.maxlen u
  insert_topic bus topic t' w is_bus k u e = elim (Bool-cases (str_eq k topic)) [
    | inl here ↦
        let same : t' ≡ u = ground (arith, e, here, lookup-insert k topic t' bus.topics) in
        rw (sym same) w
    | inr elsewhere ↦ is_bus k u (ground (arith, e, elsewhere, lookup-insert k topic t' bus.topics))
  ]

  next_offset_after :
      (bus : EventBus Payload) (topic : String) (x : Payload) (t : Topic Payload)
      → lookup topic bus.topics ≡ some t
      → (k : String)
      → next_offset Payload k (record bus {
        topics = insert topic (append_event Payload bus.maxlen x t) bus.topics;
        queues = fan_out Payload (t.seq, x) t.subscribers bus.queues;
      })
        ≡ (if str_eq k topic then next_offset Payload k bus + 1 else next_offset Payload k bus)
  unfolding next_offset append_event
  next_offset_after bus topic x t found k =
      let t' = append_event Payload bus.maxlen x t in
      elim (Bool-cases (str_eq k topic)) [
        | inl here ↦
            let before : lookup k bus.topics ≡ some t =
              ground (arith, here, found, eq_iff k topic) in
            let after : lookup k (insert topic t' bus.topics) ≡ some t' =
              ground (arith, here, lookup-insert k topic t' bus.topics) in
            rw (here, after, before, next_offset) refl
        | inr elsewhere ↦
            let same : lookup k (insert topic t' bus.topics) ≡ lookup k bus.topics =
              ground (arith, elsewhere, lookup-insert k topic t' bus.topics) in
            rw (elsewhere, same, next_offset) refl
      ]

  -- On a bus whose topics are windows, `publish` fails on an unknown topic only. Otherwise it returns
  -- the next offset of the topic, which grows by one while every other topic keeps its own; the topics
  -- are windows again, bounded by `maxlen`.
  pub publish-IsBus :
      (topic : String) (x : Payload) (bus : EventBus Payload)
      → IsBus bus
      → ((contains topic bus.topics ≡ false)
          × (publish Payload topic x bus ≡ raise (unknown_topic topic)))
        ⊎ ((bus' : EventBus Payload) × (publish Payload topic x bus
              ≡ ok (bus', next_offset Payload topic bus))
            × IsBus bus'
            × ((k : String)
                → next_offset Payload k bus' ≡ (
                    if str_eq k topic
                    then next_offset Payload k bus + 1
                    else next_offset Payload k bus)))
  unfolding publish next_offset
  publish-IsBus topic x bus is_bus = elim (Option-cases (lookup topic bus.topics)) [
    | inl missing ↦ inl (rw (missing, contains) refl, rw (missing, publish) refl)
    | inr (t, found) ↦
        let t' = append_event Payload bus.maxlen x t in
        inr (
          record bus {
            topics = insert topic t' bus.topics;
            queues = fan_out Payload (t.seq, x) t.subscribers bus.queues;
          },
          rw (found, publish, next_offset) refl,
          insert_topic bus topic t' (append_event-IsWindow bus.maxlen x t (is_bus topic t found))
              is_bus,
          next_offset_after bus topic x t found,
        )
  ]

  take-nil : (n : ℕ) → take {A = Event Payload} n [] ≡ []
  take-nil zero = refl
  take-nil (suc n) = refl

  -- What `consume` returns of a list of events: those from the offset on, as many as the limit, but at
  -- least one.
  collect-take :
      (offset limit found : ℕ) (buffer : List (Event Payload))
      → collect Payload offset limit found buffer
        ≡ take (max (limit - found) 1) (keep (λ e. leb offset e.0) buffer)
  unfolding collect
  collect-take offset limit found [] = sym (take-nil (max (limit - found) 1))
  collect-take offset limit found (e ∷ buffer) = elim (Bool-cases (leb limit (found + 1))) [
    | inl full ↦
        let one : max (limit - found) 1 ≡ suc 0 = ground (arith, full) in
        rw (full, one) (ground (arith, collect-take offset limit found buffer, one))
    | inr room ↦
        let more : max (limit - found) 1 ≡ suc (max (limit - (found + 1)) 1) =
          ground (arith, room) in
        rw (room, more)
          (ground (
            arith,
            collect-take offset limit found buffer,
            collect-take offset limit (found + 1) buffer,
            more,
          ))
  ]

  -- `consume` returns the events of the topic from the offset on, as many as the limit, but one even
  -- when the limit is 0.
  pub consume-take :
      (topic : String) (offset limit : ℕ) (bus : EventBus Payload) (t : Topic Payload)
      → lookup topic bus.topics ≡ some t
      → consume Payload topic offset limit bus
        ≡ ok (take (max limit 1) (keep (λ e. leb offset e.0) t.buffer))
  unfolding consume
  consume-take topic offset limit bus t found =
      rw (found, consume) (ground (arith, collect-take offset limit 0 t.buffer))
