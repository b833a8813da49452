-- ===== src/Futures/Generators/Items.antt =====
-- The items that pass an adapted generator, and how it ends.
use mathlib.Core.Path.{ap₂}
use trio_asyncio.Prelude.{
  ℕ, ◌≡◌, refl, sym, ap, ◌∙◌, true, false, Option, none, some, List, [], ◌∷◌, ◌++◌, arith,
  append-nil, append_assoc,
}
use trio_asyncio.Futures.Generators.{
  Read, item, stop_iteration, failure, cancelled, Event, abort, read_ends, Ending, exhausted,
  raised, raised_trio_cancelled, Generator, start, consume_next, abort_cb, on_event,
  run_aio_generator, run_trio_generator, first,
}

abbrev pub items : List ℕ → List Event
items [] = []
items (v ∷ vs) = read_ends (item v) ∷ items vs

abbrev pub read_items : List ℕ → List Read
read_items [] = []
read_items (v ∷ vs) = item v ∷ read_items vs

-- How the iteration ends with this event, if it does.
abbrev pub ends_with : Event → Option Ending
ends_with abort = some raised_trio_cancelled
ends_with (read_ends (item v)) = none
ends_with (read_ends stop_iteration) = some exhausted
ends_with (read_ends (failure e)) = some (raised e)
ends_with (read_ends cancelled) = none

-- The items, and how the iteration ended, if it did.
abbrev pub seen : Generator → List ℕ × Option Ending
seen g = (g.yielded, g.ending)

-- The generator waits for its next item.
abbrev waiting : List ℕ → Generator
waiting ys = record { reading = true; saved = false; yielded = ys; ending = none }

ended :
    (xs : List Event) (g : Generator) (e : Ending) → g.ending ≡ some e → run_aio_generator xs g ≡ g
unfolding run_aio_generator
ended [] g e h = refl
ended (x ∷ xs) g e h = ground (arith, h)

reads_items :
    (vs ys : List ℕ) (xs : List Event)
    → run_aio_generator (items vs ++ xs) (waiting ys) ≡ run_aio_generator xs (waiting (ys ++ vs))
unfolding run_aio_generator on_event consume_next
reads_items [] ys xs = ap (λ l. run_aio_generator xs (waiting l)) (sym (append-nil ys))
reads_items (v ∷ vs) ys xs =
    reads_items vs (ys ++ v ∷ []) xs
    ∙ ap (λ l. run_aio_generator xs (waiting l)) (append_assoc ys (v ∷ []) vs)

last_event :
    (x : Event) (e : Ending) (ys : List ℕ) (rest : List Event)
    → ends_with x ≡ some e
    → let g = run_aio_generator (x ∷ rest) (waiting ys) in (g.yielded ≡ ys) × (g.ending ≡ some e)
unfolding run_aio_generator on_event consume_next abort_cb
last_event abort e ys rest h =
    rw (ended rest (abort_cb (waiting ys)) raised_trio_cancelled refl) (refl, h)
last_event (read_ends (item v)) e ys rest h = absurd (cc h)
last_event (read_ends stop_iteration) e ys rest h =
    rw (ended rest (consume_next stop_iteration (waiting ys)) exhausted refl) (refl, h)
last_event (read_ends (failure n)) e ys rest h =
    rw (ended rest (consume_next (failure n) (waiting ys)) (raised n) refl) (refl, h)
last_event (read_ends cancelled) e ys rest h = absurd (cc h)

trio_items :
    (vs : List ℕ) (r : Read) (e : Ending) (rest : List Read)
    → ends_with (read_ends r) ≡ some e
    → run_trio_generator (read_items vs ++ r ∷ rest) ≡ (vs, some e)
unfolding run_trio_generator
trio_items [] (item v) e rest h = absurd (cc h)
trio_items [] stop_iteration e rest h = ap (λ o. ([], o)) h
trio_items [] (failure n) e rest h = ap (λ o. ([], o)) h
trio_items [] cancelled e rest h = absurd (cc h)
trio_items (v ∷ vs) r e rest h = ap (first v) (trio_items vs r e rest h)

-- Both adapters yield exactly the items that the iterator gave before it was exhausted or failed, in
-- order, and then end in that way, whatever comes after. `run_aio_generator` that is cancelled while
-- it waits has yielded the items until then and ends with `trio.Cancelled`.
pub run_aio_generator-run_trio_generator :
    (vs : List ℕ) (r : Read) (e : Ending) (rest : List Event) (others : List Read)
    → ends_with (read_ends r) ≡ some e
    → let g = run_aio_generator (items vs ++ read_ends r ∷ rest) start in
      let c = run_aio_generator (items vs ++ abort ∷ rest) start in
      (seen g ≡ run_trio_generator (read_items vs ++ r ∷ others))
      × (run_trio_generator (read_items vs ++ r ∷ others) ≡ (vs, some e))
      × (seen c ≡ (vs, some raised_trio_cancelled))
unfolding start
run_aio_generator-run_trio_generator vs r e rest others h =
    let trio = trio_items vs r e others h in
    let read = last_event (read_ends r) e vs rest h in
    let stopped = last_event abort raised_trio_cancelled vs rest refl in
    let given = reads_items vs [] (read_ends r ∷ rest) in
    let given' = reads_items vs [] (abort ∷ rest) in
    rw (given, given', trio)
      (ap₂ (λ a b. (a, b)) read.0 read.1, refl, ap₂ (λ a b. (a, b)) stopped.0 stopped.1)

stuck :
    (xs : List Event) (g : Generator)
    → g.ending ≡ none
    → g.reading ≡ false
    → ((run_aio_generator xs g).ending ≡ none) × ((run_aio_generator xs g).yielded ≡ g.yielded)
unfolding run_aio_generator on_event abort_cb
stuck [] g e r = (e, refl)
stuck (abort ∷ xs) g e r =
    let rest = stuck xs (record g { saved = true }) e r in ground (arith, e, r, rest)
stuck (read_ends x ∷ xs) g e r = let rest = stuck xs g e r in ground (arith, e, r, rest)

-- When the iterator's `__anext__` ends with a `CancelledError` that Trio did not ask for,
-- `run_aio_generator` never ends, whatever happens afterwards: a cancellation by Trio does not end it
-- either.
pub run_aio_generator_stuck :
    (vs : List ℕ) (xs : List Event)
    → let g = run_aio_generator (items vs ++ read_ends cancelled ∷ xs) start in
      (g.ending ≡ none) × (g.yielded ≡ vs)
unfolding start run_aio_generator on_event consume_next
run_aio_generator_stuck vs xs =
    rw (reads_items vs [] (read_ends cancelled ∷ xs))
      (stuck xs (consume_next cancelled (waiting vs)) refl refl)
