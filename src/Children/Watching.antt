-- ===== src/Children/Watching.antt =====
-- The callbacks of a child watcher.
use trio_asyncio.Prelude.{
  ℕ, ◌≡◌, refl, Bool, true, none, some, List, [], ◌∷◌, ◌==◌, if◌then◌else◌, arith,
}
use trio_asyncio.Exec.{ok}
use trio_asyncio.Children.{
  Watcher, store, lookup, remove, add_child_handler, remove_child_handler, remove_all, close,
  watcher_exit,
}

lookup-store :
    (pid f other : ℕ) (xs : List (ℕ × ℕ))
    → lookup other (store pid f xs) ≡ (if pid == other then some f else lookup other xs)
lookup-store pid f other [] = ground arith
lookup-store pid f other (x ∷ xs) = ground (arith, lookup-store pid f other xs)

remove-store :
    (pid f : ℕ) (xs : List (ℕ × ℕ)) → lookup pid xs ≡ none → remove pid (store pid f xs) ≡ xs
remove-store pid f [] e = ground arith
remove-store pid f (x ∷ xs) e = ground (arith, remove-store pid f xs)

-- Removing the handler that was just added for a process without one gives back the callbacks as they
-- were and cancels the new handler's future.
add_child_handler-remove_child_handler :
    (pid loop : ℕ) (s : Watcher)
    → s.loop ≡ some loop
    → lookup pid s.callbacks ≡ none
    → let (r, s₁) = add_child_handler pid s in
      let (removed, s₂) = remove_child_handler pid s₁ in
      (r ≡ ok tt)
      × (removed ≡ true)
      × (s₂.callbacks ≡ s.callbacks)
      × (s₂.cancelled s.next_future ≡ true)
unfolding add_child_handler remove_child_handler
add_child_handler-remove_child_handler pid loop s attached e =
    let found = lookup-store pid s.next_future pid s.callbacks in
    let back = remove-store pid s.next_future s.callbacks e in ground (arith, found, back)

abbrev pub AllCancelled : (ℕ → Bool) → List (ℕ × ℕ) → Type 0
AllCancelled c [] = Unit
AllCancelled c (x ∷ xs) = (c x.1 ≡ true) × AllCancelled c xs

remove_all-kept :
    (xs : List (ℕ × ℕ)) (s : Watcher) (f : ℕ)
    → s.cancelled f ≡ true
    → (remove_all xs s).cancelled f ≡ true
unfolding remove_all
remove_all-kept [] s f e = e
remove_all-kept (x ∷ xs) s f e = remove_all-kept xs (remove_child_handler x.0 s).1 f (ground arith)

remove_all-AllCancelled :
    (xs : List (ℕ × ℕ)) (s : Watcher)
    → s.callbacks ≡ xs
    → ((remove_all xs s).callbacks ≡ []) × AllCancelled (remove_all xs s).cancelled xs
unfolding remove_all
remove_all-AllCancelled [] s e = (e, tt)
remove_all-AllCancelled (x ∷ xs) s e =
    let s' = (remove_child_handler x.0 s).1 in
    let front : s'.callbacks ≡ xs = ground (arith, e) in
    let first : s'.cancelled x.1 ≡ true = ground (arith, e) in
    let rest = remove_all-AllCancelled xs s' front in
    (rest.0, (remove_all-kept xs s' x.1 first, rest.1))

-- `close` drops every handler, cancels the future of each, and detaches the loop.
close-AllCancelled :
    (s : Watcher)
    → let s' = close s in
      (s'.callbacks ≡ []) × AllCancelled s'.cancelled s.callbacks × (s'.loop ≡ none)
unfolding close
close-AllCancelled s =
    let (empty, all) = remove_all-AllCancelled s.callbacks s refl in (empty, all, refl)

-- The end of a `with` statement drops every handler and cancels the future of each.
watcher_exit-AllCancelled :
    (s : Watcher)
    → let s' = watcher_exit s in
      (s'.callbacks ≡ []) × AllCancelled s'.cancelled s.callbacks × (s'.loop ≡ none)
unfolding watcher_exit
watcher_exit-AllCancelled s = close-AllCancelled s
