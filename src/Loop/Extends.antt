-- ===== src/Loop/Extends.antt =====
-- What the methods that put work into the loop leave alone, and what they add.
use trio_asyncio.Prelude.{
  ℕ, ◌≤◌, ◌<◌, ◌≡◌, refl, sym, ap, ◌∙◌, Bool, true, false, Option, List, [], ◌∷◌, ◌++◌,
  append_assoc, append-nil, arith,
}
use trio_asyncio.Trio.{Trio}
use trio_asyncio.Heapq.{Heapq}
use trio_asyncio.Loop.{
  Callback, user, stop_me, set_event, Handle, asyncio, Occurrence, ran, started, skipped, scheduled,
  propagated, Loop,
}

-- A callback that the loop put into a handle itself.
abbrev pub is_own : Callback → Bool
is_own (user c) = false
is_own (stop_me w) = true
is_own (set_event w) = true

abbrev pub Kept : Handle → Handle → Type 0
Kept a b =
    (b.kind ≡ a.kind)
    × (b.callback ≡ a.callback)
    × (is_own a.callback ≡ true → b.cancelled ≡ a.cancelled)
    × (a.cancelled ≡ true → b.cancelled ≡ true)

pub Kept-refl : (a : Handle) → Kept a a
Kept-refl a = (refl, refl, (λ _. refl), (λ c. c))

pub Kept-trans : (a b c : Handle) → Kept a b → Kept b c → Kept a c
Kept-trans a b c x y =
    (y.0 ∙ x.0, y.1 ∙ x.1, (λ own. y.2 (ap is_own x.1 ∙ own) ∙ x.2 own), (λ gone. y.3 (x.3 gone)))

-- Every callback in the list ran with sniffio's library set to asyncio.
abbrev pub AllTagged : List Occurrence → Type 0
AllTagged [] = Unit
AllTagged (ran h l ∷ os) = (l ≡ asyncio) × AllTagged os
AllTagged (started h ∷ os) = AllTagged os
AllTagged (skipped h ∷ os) = AllTagged os
AllTagged (scheduled h ∷ os) = AllTagged os
AllTagged (propagated n ∷ os) = AllTagged os

pub AllTagged-append :
    (xs ys : List Occurrence) → AllTagged xs → AllTagged ys → AllTagged (xs ++ ys)
AllTagged-append [] ys hx hy = hy
AllTagged-append (ran h l ∷ xs) ys hx hy = (hx.0, AllTagged-append xs ys hx.1 hy)
AllTagged-append (started h ∷ xs) ys hx hy = AllTagged-append xs ys hx hy
AllTagged-append (skipped h ∷ xs) ys hx hy = AllTagged-append xs ys hx hy
AllTagged-append (scheduled h ∷ xs) ys hx hy = AllTagged-append xs ys hx hy
AllTagged-append (propagated n ∷ xs) ys hx hy = AllTagged-append xs ys hx hy

module _ {t : Trio} {q : Heapq} where
  abbrev pub queued : Loop t q → List ℕ
  queued s = t.contents s.queue

  -- The trace only grows at its end, and every callback in it runs with sniffio's library set to
  -- asyncio; the library itself is as before. Handles keep their kind and callback, stay cancelled,
  -- and the loop's own handles stay uncancelled.
  pub record Grows (s s' : Loop t q) : Type 0 where
    pub logged : List Occurrence
    pub traced : s'.trace ≡ s.trace ++ logged
    pub tagged : AllTagged logged
    pub same_library : s'.library ≡ s.library
    pub same_closed : s'.closed ≡ s.closed
    pub same_entered : s'.entered ≡ s.entered
    pub same_stopped : s'.stopped ≡ s.stopped
    pub handle_le : s.next_handle ≤ s'.next_handle
    pub kept : (h : ℕ) → h < s.next_handle → Kept (s.handles h) (s'.handles h)

  -- Besides, the queue only grows at its end, and the timers stay as they are.
  pub record Extends (s s' : Loop t q) : Type 0 where
    pub grows : Grows s s'
    pub open grows use *
    pub sent : List ℕ
    pub queued_eq : queued s' ≡ queued s ++ sent
    pub same_timers : s'.timers ≡ s.timers

  pub Grows-stores :
      (s : Loop t q) (hs : ℕ → Handle) (n : ℕ) (es : ℕ → t.Event) (m : ℕ) (w : Option ℕ)
      (c : t.Channel) (g : q.Heap)
      → s.next_handle ≤ n
      → ((h : ℕ) → h < s.next_handle → Kept (s.handles h) (hs h))
      → Grows s (record s {
        queue = c;
        timers = g;
        handles = hs;
        next_handle = n;
        events = es;
        next_event = m;
        stop_wait = w;
      })
  Grows-stores s hs n es m w c g le kept = record {
    logged = [];
    traced = sym (append-nil _);
    tagged = tt;
    same_library = refl;
    same_closed = refl;
    same_entered = refl;
    same_stopped = refl;
    handle_le = le;
    kept = kept;
  }

  -- Only the queue, the timers and the events differ.
  pub Grows-queues :
      (s : Loop t q) (c : t.Channel) (g : q.Heap) (es : ℕ → t.Event)
      → Grows s (record s { queue = c; timers = g; events = es })
  Grows-queues s c g es =
      Grows-stores s s.handles s.next_handle es s.next_event s.stop_wait c g (omega arith)
        (λ h _. Kept-refl (s.handles h))

  pub Grows-refl : (s : Loop t q) → Grows s s
  Grows-refl s = Grows-queues s s.queue s.timers s.events

  pub Grows-trans : {s s' s'' : Loop t q} → Grows s s' → Grows s' s'' → Grows s s''
  Grows-trans {s} {s'} {s''} a b = record {
    logged = a.logged ++ b.logged;
    traced = b.traced ∙ ap (λ l. l ++ b.logged) a.traced ∙ append_assoc s.trace a.logged b.logged;
    tagged = AllTagged-append a.logged b.logged a.tagged b.tagged;
    same_library = b.same_library ∙ a.same_library;
    same_closed = b.same_closed ∙ a.same_closed;
    same_entered = b.same_entered ∙ a.same_entered;
    same_stopped = b.same_stopped ∙ a.same_stopped;
    handle_le = omega (arith, a.handle_le, b.handle_le);
    kept = λ h below.
        Kept-trans (s.handles h) (s'.handles h) (s''.handles h) (a.kept h below)
          (b.kept h (omega (arith, a.handle_le)));
  }

  pub Extends-refl : (s : Loop t q) → Extends s s
  Extends-refl s = record {
    grows = Grows-refl s;
    sent = [];
    queued_eq = sym (append-nil _);
    same_timers = refl;
  }

  pub Extends-trans : {s s' s'' : Loop t q} → Extends s s' → Extends s' s'' → Extends s s''
  Extends-trans {s} {s'} {s''} a b = record {
    grows = Grows-trans a.grows b.grows;
    sent = a.sent ++ b.sent;
    queued_eq =
        b.queued_eq ∙ ap (λ l. l ++ b.sent) a.queued_eq ∙ append_assoc (queued s) a.sent b.sent;
    same_timers = b.same_timers ∙ a.same_timers;
  }
