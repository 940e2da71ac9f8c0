-- ===== src/NetworkManager/Tasks.antt =====
-- The futures that nobody waits for.
use friendviewer.Prelude.{
  ℕ, zero, suc, ◌<◌, ◌≡◌, refl, sym, ◌∙◌, ap, inl, inr, Bool, true, false, Bool-cases, none, some,
  List, [], ◌∷◌, ◌++◌, arith, length, get_elem?, length-append, append_assoc, append-nil,
}
use friendviewer.NetworkManager.{Task, erase_at, sweep}

module _ {ℓ} {Cb : Type ℓ} (ready : Task Cb → Bool) where
  -- The futures that are not ready, in their order.
  abbrev pub unfinished : List (Task Cb) → List (Task Cb)
  unfinished [] = []
  unfinished (t ∷ ts) = elim (ready t) [ true ↦ unfinished ts | false ↦ t ∷ unfinished ts ]

  get_elem?-middle :
      (xs ys : List (Task Cb)) (t : Task Cb) → get_elem? (xs ++ (t ∷ ys)) (length xs) ≡ some t
  get_elem?-middle [] ys t = refl
  get_elem?-middle (x ∷ xs) ys t = get_elem?-middle xs ys t

  get_elem?-end : (xs : List (Task Cb)) → get_elem? xs (length xs) ≡ none
  get_elem?-end [] = refl
  get_elem?-end (x ∷ xs) = get_elem?-end xs

  erase_at-middle :
      (xs ys : List (Task Cb)) (t : Task Cb)
      → erase_at ready (xs ++ (t ∷ ys)) (length xs) ≡ xs ++ ys
  unfolding erase_at
  erase_at-middle [] ys t = refl
  erase_at-middle (x ∷ xs) ys t = ap (◌∷◌ x) (erase_at-middle xs ys t)

  module _ (fuel : ℕ) (kept ts : List (Task Cb)) (t : Task Cb) where
    sweep-ready :
        ready t ≡ true
        → sweep ready (suc fuel) (length kept) (kept ++ (t ∷ ts))
          ≡ sweep ready fuel (length kept) (kept ++ ts)
    unfolding sweep
    sweep-ready r =
        rw (get_elem?-middle kept ts t, sweep)
          (rw (r, sweep) (ap (sweep ready fuel (length kept)) (erase_at-middle kept ts t)))

    sweep-waiting :
        ready t ≡ false
        → sweep ready (suc fuel) (length kept) (kept ++ (t ∷ ts))
          ≡ sweep ready fuel (suc (length kept)) (kept ++ (t ∷ ts))
    unfolding sweep
    sweep-waiting r = rw (get_elem?-middle kept ts t, sweep) (rw (r, sweep))

  sweep-end :
      (fuel : ℕ) (kept : List (Task Cb)) → sweep ready (suc fuel) (length kept) kept ≡ some kept
  unfolding sweep
  sweep-end fuel kept = rw (get_elem?-end kept, sweep)

  length-snoc : (xs : List (Task Cb)) (t : Task Cb) → length (xs ++ (t ∷ [])) ≡ suc (length xs)
  length-snoc xs t = length-append xs (t ∷ []) ∙ omega arith

  sweep-from :
      (ts kept : List (Task Cb)) (fuel : ℕ)
      → length ts < fuel
      → sweep ready fuel (length kept) (kept ++ ts) ≡ some (kept ++ unfinished ts)
  sweep-from ts kept zero h = absurd (omega arith)
  sweep-from [] kept (suc fuel) h = rw (append-nil kept) (sweep-end fuel kept)
  sweep-from (t ∷ ts) kept (suc fuel) h = elim (Bool-cases (ready t)) [
    | inl r ↦
        rw (r, unfinished) (sweep-ready fuel kept ts t r ∙ sweep-from ts kept fuel (omega arith))
    | inr r ↦
        rw (r, unfinished)
          (sweep-waiting fuel kept ts t r
            ∙ ap (sweep ready fuel (suc (length kept))) (sym (append_assoc kept (t ∷ []) ts))
            ∙ ap (λ i. sweep ready fuel i ((kept ++ (t ∷ [])) ++ ts)) (sym (length-snoc kept t))
            ∙ sweep-from ts (kept ++ (t ∷ [])) fuel (omega arith)
            ∙ ap some (append_assoc kept (t ∷ []) (unfinished ts)))
  ]

  -- A pass over the futures ends, and removes exactly those that are ready.
  pub sweep-unfinished :
      (tasks : List (Task Cb)) → sweep ready (suc (length tasks)) 0 tasks ≡ some (unfinished tasks)
  sweep-unfinished tasks = sweep-from tasks [] (suc (length tasks)) (omega arith)
