-- ===== src/Loop/Dealing.antt =====
-- What it means that queued objects are dealt with, in their order.
use trio_asyncio.Prelude.{ℕ, ◌≡◌, refl, ◌⊎◌, inl, inr, Bool, true, false, List, [], ◌∷◌, ◌++◌}
use trio_asyncio.Loop.{
  HandleKind, plain, timer, async_task, Callback, user, stop_me, set_event, asyncio, Occurrence,
  ran, started, skipped, scheduled,
}
use trio_asyncio.Loop.Extends.{AllTagged}
use trio_asyncio.Loop.Progress.{verdict, occurrence_of}

abbrev pub is_stop : Callback → Bool
is_stop (user c) = false
is_stop (stop_me w) = true
is_stop (set_event w) = false

-- How an object that was queued may be dealt with: a callback runs, with sniffio's library set to
-- asyncio, unless its handle is cancelled; a timer is put with the timers; a task is started.
abbrev pub DealsWith : HandleKind → (cancelled : Bool) → ℕ → Occurrence → Type 0
DealsWith plain c h o = (o ≡ ran h asyncio) ⊎ ((o ≡ skipped h) × (c ≡ true))
DealsWith (timer when) c h o = o ≡ scheduled h
DealsWith async_task c h o = o ≡ started h

-- The objects are dealt with in their order, each by one occurrence; others may come in between.
pub data DealtWith (kind : ℕ → HandleKind) (gone : ℕ → Bool)
    : List ℕ → List Occurrence → Type 0 where
  done : (os : List Occurrence) → DealtWith kind gone [] os
  next :
      {h : ℕ} {hs : List ℕ} {o : Occurrence} {os : List Occurrence}
      → DealsWith (kind h) (gone h) h o
      → DealtWith kind gone hs os
      → DealtWith kind gone (h ∷ hs) (o ∷ os)
  other :
      {hs : List ℕ} {o : Occurrence} {os : List Occurrence}
      → DealtWith kind gone hs os
      → DealtWith kind gone hs (o ∷ os)

module _ {kind : ℕ → HandleKind} {gone : ℕ → Bool} where
  pub others_first :
      (xs : List Occurrence) {hs : List ℕ} {os : List Occurrence}
      → DealtWith kind gone hs os
      → DealtWith kind gone hs (xs ++ os)
  others_first [] d = d
  others_first (x ∷ xs) d = other (others_first xs d)

pub DealsWith-occurrence_of :
    (k : HandleKind) (before after : Bool) (h : ℕ)
    → (before ≡ true → after ≡ true)
    → DealsWith k after h (occurrence_of k before h)
DealsWith-occurrence_of plain true after h c = inr (refl, c refl)
DealsWith-occurrence_of plain false after h c = inl refl
DealsWith-occurrence_of (timer when) before after h c = refl
DealsWith-occurrence_of async_task before after h c = refl

pub tagged_verdict : (b : Bool) (h : ℕ) → AllTagged (verdict b h ∷ [])
tagged_verdict true h = tt
tagged_verdict false h = (refl, tt)

pub tagged_occurrence : (k : HandleKind) (b : Bool) (h : ℕ) → AllTagged (occurrence_of k b h ∷ [])
tagged_occurrence plain b h = tagged_verdict b h
tagged_occurrence (timer when) b h = tt
tagged_occurrence async_task b h = tt
