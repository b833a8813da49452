-- ===== src/Trio.antt =====
-- What trio_asyncio/_base.py and _async.py use of Trio's memory channels and events, as Trio
-- documents it. A channel here carries references to handles.
pub mod Buffers
use trio_asyncio.Prelude.{
  ℕ, ◌≡◌, ◌⊎◌, Bool, true, false, Option, none, some, List, [], ◌∷◌, ◌++◌, length, ltb,
}

-- Whether a buffer of this size (`none` is `math.inf`) takes one more item.
abbrev pub has_room : Option ℕ → ℕ → Bool
has_room none n = true
has_room (some max) n = ltb n max

pub record Trio : Type 1 where
  -- Both ends of a memory channel, with the items that are sent and not yet received.
  pub Channel : Type 0
  pub open_memory_channel : Option ℕ → Channel
  -- `none` is `trio.WouldBlock`.
  pub send_nowait : ℕ → Channel → Option Channel
  pub receive_nowait : Channel → Option (ℕ × Channel)
  -- The buffered items, oldest first, and the buffer's size.
  pub contents : Channel → List ℕ
  pub max_buffer_size : Channel → Option ℕ
  pub contents-open : (n : Option ℕ) → contents (open_memory_channel n) ≡ []
  pub max-open : (n : Option ℕ) → max_buffer_size (open_memory_channel n) ≡ n
  pub send_cases :
      (x : ℕ) (c : Channel)
      → (has_room (max_buffer_size c) (length (contents c)) ≡ false) × (send_nowait x c ≡ none)
        ⊎ ((d : Channel) × (has_room (max_buffer_size c) (length (contents c)) ≡ true)
            × (send_nowait x c ≡ some d)
            × (contents d ≡ contents c ++ x ∷ [])
            × (max_buffer_size d ≡ max_buffer_size c))
  pub receive_cases :
      (c : Channel)
      → (contents c ≡ []) × (receive_nowait c ≡ none)
        ⊎ ((x : ℕ) × (d : Channel) × (receive_nowait c ≡ some (x, d))
            × (contents c ≡ x ∷ contents d)
            × (max_buffer_size d ≡ max_buffer_size c))
  pub Event : Type 0
  pub event : Event
  pub set : Event → Event
  pub is_set : Event → Bool
  -- `Event.clear()`; `none` is the `AttributeError` of a Trio whose events have no such method.
  pub clear : Event → Option Event
  pub is_set-event : is_set event ≡ false
  pub is_set-set : (e : Event) → is_set (set e) ≡ true
