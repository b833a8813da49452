-- ===== src/Trio/Buffers.antt =====
-- Channels as lists and events as flags, which meet what is asked of Trio.
use trio_asyncio.Prelude.{
  ℕ, ◌≡◌, refl, ◌⊎◌, inl, inr, Bool, true, false, Option, none, some, List, [], ◌∷◌, ◌++◌, length,
  arith, if◌then◌else◌, Bool-cases,
}
use trio_asyncio.Trio.{Trio, has_room}

pub record Buffer : Type 0 where
  pub size : Option ℕ
  pub items : List ℕ

abbrev pub send : ℕ → Buffer → Option Buffer
send x b =
    if has_room b.size (length b.items) then some (record b { items = b.items ++ x ∷ [] }) else none

abbrev pub take_first : Option ℕ → List ℕ → Option (ℕ × Buffer)
take_first n [] = none
take_first n (x ∷ xs) = some (x, record { size = n; items = xs })

pub send_lem :
    (x : ℕ) (c : Buffer)
    → (has_room c.size (length c.items) ≡ false) × (send x c ≡ none)
      ⊎ ((d : Buffer) × (has_room c.size (length c.items) ≡ true)
          × (send x c ≡ some d)
          × (d.items ≡ c.items ++ x ∷ [])
          × (d.size ≡ c.size))
send_lem x c = elim (Bool-cases (has_room c.size (length c.items))) [
  | inl room ↦ inr (record c { items = c.items ++ x ∷ [] }, room, ground arith, refl, refl)
  | inr full ↦ inl (full, ground arith)
]

pub take_first_lem :
    (n : Option ℕ) (l : List ℕ)
    → (l ≡ []) × (take_first n l ≡ none)
      ⊎ ((x : ℕ) × (d : Buffer) × (take_first n l ≡ some (x, d)) × (l ≡ x ∷ d.items) × (d.size ≡ n))
take_first_lem n [] = inl (refl, refl)
take_first_lem n (x ∷ xs) = inr (x, record { size = n; items = xs }, refl, refl, refl)

abbrev pub buffers : Trio
buffers = record {
  Channel = Buffer;
  open_memory_channel = λ n. record { size = n; items = [] };
  send_nowait = send;
  receive_nowait = λ b. take_first b.size b.items;
  contents = λ b. b.items;
  max_buffer_size = λ b. b.size;
  contents-open = λ n. refl;
  max-open = λ n. refl;
  send_cases = send_lem;
  receive_cases = λ b. take_first_lem b.size b.items;
  Event = Bool;
  event = false;
  set = λ e. true;
  is_set = λ e. e;
  clear = λ e. none;
  is_set-event = refl;
  is_set-set = λ e. refl;
}
