-- ===== src/Stream.antt =====
-- ecn/stream.py: the event bus. The dictionaries `_buffers`, `_seq` and `_subscribers`, which have
-- the topics as their keys, are one dictionary of records; an `asyncio.Queue` that several topics
-- share is named by its place in the list of all queues. `put_nowait` raises nothing but
-- `QueueFull`, so `dead` stays empty. The coroutine `sse_generator` is not modelled.
mod Window
mod Tests
use ecn.Common.{
  ℕ, zero, suc, ◌+◌, String, ◌&&◌, none, some, List, [], ◌∷◌, ◌++◌, map, ltb, leb, ◌==◌,
  if◌then◌else◌, length, Result, ok, raise,
}
use ecn.Common.Dict.{Dict, lookup, insert}
use ecn.Common.Ring.{push}

-- `ValueError(f"Unknown topic: ...")`
pub data StreamError : Type 0 where
  unknown_topic : String → StreamError

abbrev pub all_topics : List String
all_topics = "transactions" ∷ "faults" ∷ []

module _ (Payload : Type 0) where
  abbrev pub Event : Type 0
  Event = ℕ × Payload

  pub record Topic : Type 0 where
    pub buffer : List Event
    pub seq : ℕ
    pub subscribers : List ℕ

  -- `asyncio.Queue(maxsize)`: without bound when `maxsize` is 0
  pub record Queue : Type 0 where
    pub maxsize : ℕ
    pub items : List Event

  pub record EventBus : Type 0 where
    pub maxlen : ℕ
    pub topics : Dict Topic
    pub queues : List Queue

  abbrev pub empty_topic : Topic
  empty_topic = record { buffer = []; seq = 0; subscribers = [] }

  -- `EventBus.__init__`
  unfoldable pub new_bus : ℕ → EventBus
  new_bus maxlen = record {
    maxlen = maxlen;
    topics = map (λ t. (t, empty_topic)) all_topics;
    queues = [];
  }

  -- `put_nowait`, where a full queue drops the event
  abbrev pub put_nowait : Event → Queue → Queue
  put_nowait event q =
      if ltb 0 q.maxsize && leb q.maxsize (length q.items)
      then q
      else record q { items = q.items ++ event ∷ [] }

  -- An update of the queue of that name.
  unfoldable pub update_queue : ℕ → (Queue → Queue) → List Queue → List Queue
  update_queue i f [] = []
  update_queue zero f (q ∷ queues) = f q ∷ queues
  update_queue (suc i) f (q ∷ queues) = q ∷ update_queue i f queues

  -- The loop over the subscribers.
  unfoldable pub fan_out : Event → List ℕ → List Queue → List Queue
  fan_out event [] queues = queues
  fan_out event (i ∷ subscribers) queues =
      fan_out event subscribers (update_queue i (put_nowait event) queues)

  -- What `publish` does to its topic.
  unfoldable pub append_event : ℕ → Payload → Topic → Topic
  append_event maxlen payload t = record t {
    buffer = push maxlen t.buffer (t.seq, payload);
    seq = t.seq + 1;
  }

  unfoldable pub publish : String → Payload → EventBus → Result StreamError (EventBus × ℕ)
  publish topic payload bus = elim (lookup topic bus.topics) [
    | none ↦ raise (unknown_topic topic)
    | some t ↦ ok (
      record bus {
        topics = insert topic (append_event bus.maxlen payload t) bus.topics;
        queues = fan_out (t.seq, payload) t.subscribers bus.queues;
      },
      t.seq,
    )
  ]

  -- The loop of `consume`, with the number of results so far.
  unfoldable pub collect : ℕ → ℕ → ℕ → List Event → List Event
  collect offset limit found [] = []
  collect offset limit found (event ∷ buffer) =
      let skipped = collect offset limit found buffer in
      let rest = collect offset limit (found + 1) buffer in
      if ltb event.0 offset
      then skipped
      else (if leb limit (found + 1) then event ∷ [] else event ∷ rest)

  -- `consume`, for an offset and a limit that are not negative, without the topic in each result
  unfoldable pub consume : String → ℕ → ℕ → EventBus → Result StreamError (List Event)
  consume topic offset limit bus = elim (lookup topic bus.topics) [
    | none ↦ raise (unknown_topic topic)
    | some t ↦ ok (collect offset limit 0 t.buffer)
  ]

  unfoldable pub next_offset : String → EventBus → ℕ
  next_offset topic bus = elim (lookup topic bus.topics) [ none ↦ 0 | some t ↦ t.seq ]

  abbrev pub add_subscriber : ℕ → Topic → Topic
  add_subscriber i t = record t { subscribers = t.subscribers ++ i ∷ [] }

  unfoldable pub subscribe_topics : ℕ → List String → Dict Topic → Dict Topic
  subscribe_topics i [] topics = topics
  subscribe_topics i (name ∷ names) topics = subscribe_topics i names (elim (lookup name topics) [
    | none ↦ topics
    | some t ↦ insert name (add_subscriber i t) topics
  ])

  -- `subscribe_live`: the bus and the name of the new queue
  unfoldable pub subscribe_live : List String → ℕ → EventBus → EventBus × ℕ
  subscribe_live names maxsize bus = (
    record bus {
      queues = bus.queues ++ record { maxsize = maxsize; items = [] } ∷ [];
      topics = subscribe_topics (length bus.queues) names bus.topics;
    },
    length bus.queues,
  )

  -- `list.remove`: the first occurrence
  unfoldable pub remove_first : ℕ → List ℕ → List ℕ
  remove_first i [] = []
  remove_first i (j ∷ subscribers) = if i == j then subscribers else j ∷ remove_first i subscribers

  -- `unsubscribe_live`
  unfoldable pub unsubscribe_live : ℕ → EventBus → EventBus
  unsubscribe_live i bus = record bus {
    topics =
        map (λ e. (e.0, record e.1 { subscribers = remove_first i e.1.subscribers })) bus.topics;
  }
