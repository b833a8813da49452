-- ===== src/Exceptions/Traceback.antt =====
-- `concat_tb` in trio_asyncio/_handles.py, against plain concatenation.
use mathlib.Core.List.{reverse-append, foldl-append}
use trio_asyncio.Prelude.{
  ℕ, ◌≡◌, refl, ◌∙◌, sym, ap, List, [], ◌∷◌, ◌++◌, foldl, reverse, append_assoc, append-nil,
}
use trio_asyncio.Exceptions.{Traceback, head_tbs, concat_tb}

head_tbs-append : (tb : Traceback) (acc : List ℕ) → head_tbs tb acc ≡ acc ++ tb
unfolding head_tbs
head_tbs-append [] acc = sym (append-nil acc)
head_tbs-append (x ∷ tb) acc = head_tbs-append tb (acc ++ x ∷ []) ∙ append_assoc acc (x ∷ []) tb

abbrev push : Traceback → ℕ → Traceback
push current entry = entry ∷ current

foldl-push : (xs acc : Traceback) → foldl push acc (reverse xs) ≡ xs ++ acc
foldl-push [] acc = refl
foldl-push (x ∷ xs) acc =
    ap (foldl push acc) (reverse-append (x ∷ []) xs)
    ∙ foldl-append push acc (reverse xs) (x ∷ [])
    ∙ ap (λ l. x ∷ l) (foldl-push xs acc)

-- The two loops of `concat_tb` put the head's entries, in their order, before the tail's.
concat_tb-append : (head tail : Traceback) → concat_tb head tail ≡ head ++ tail
unfolding concat_tb
concat_tb-append head tail =
    ap (λ l. foldl push tail (reverse l)) (head_tbs-append head []) ∙ foldl-push head tail
