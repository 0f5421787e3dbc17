-- ===== src/AlertsHistory/Batches.antt =====
-- Which records are deleted, and in batches of what size.
use bezel_custom.Prelude.{
  ℕ, suc, ◌≤◌, ◌<◌, ◌≡◌, ◌⊎◌, inl, inr, refl, ap, sym, subst, ◌∙◌, String, Bool, false, List, [],
  ◌∷◌, ◌++◌, arith, ltb, length, length-append, All, All-append, Bool-cases,
}
use mathlib.Core.List.{append_assoc, append-nil}
use bezel_custom.AlertsHistory.{Outcome, last_batch, delete_loop, handle_bulk_delete}

-- The entries of all lists, in order.
abbrev pub flatten : List (List String) → List String
flatten [] = []
flatten (xs ∷ xss) = xs ++ flatten xss

abbrev pub IsBatch : List String → Type 0
IsBatch batch = (0 < length batch) × (length batch ≤ 21)

-- The ids that were sent are the first ones, all of them if the deletion went through, in batches.
abbrev pub IsOutcome : List String → Outcome → Type 0
IsOutcome ids outcome =
    (rest : List String) × (flatten outcome.sent ++ rest ≡ ids)
    × ((outcome.done ≡ false) ⊎ (rest ≡ []))
    × All IsBatch outcome.sent

flatten-append : (xss yss : List (List String)) → flatten (xss ++ yss) ≡ flatten xss ++ flatten yss
flatten-append [] yss = refl
flatten-append (xs ∷ xss) yss =
    ap (λ zs. xs ++ zs) (flatten-append xss yss) ∙ sym (append_assoc xs (flatten xss) (flatten yss))

flatten_last :
    (xss : List (List String)) (xs : List String) → flatten (xss ++ xs ∷ []) ≡ flatten xss ++ xs
flatten_last xss xs = flatten-append xss (xs ∷ []) ∙ ap (λ ys. flatten xss ++ ys) (append-nil xs)

full_length :
    (batch : List String) (id : String) (n : ℕ)
    → length batch ≡ n
    → length (batch ++ id ∷ []) ≡ suc n
full_length batch id n e = omega (arith, length-append batch (id ∷ []), e)

module _ (accepts : ℕ → List String → Bool) where
  last_batch-IsOutcome :
      (count : ℕ) (batch : List String) (sent : List (List String))
      → length batch ≤ 21
      → All IsBatch sent
      → IsOutcome (flatten sent ++ batch) (last_batch accepts count batch sent)
  unfolding last_batch
  last_batch-IsOutcome count [] sent small h = ([], refl, inr refl, h)
  last_batch-IsOutcome count (id ∷ ids) sent small h =
      elim (Bool-cases (accepts count (id ∷ ids))) [
        | inl taken ↦ rw taken (
          [],
          append-nil (flatten (sent ++ (id ∷ ids) ∷ [])) ∙ flatten_last sent (id ∷ ids),
          inr refl,
          All-append IsBatch sent ((id ∷ ids) ∷ []) h ((omega arith, small), tt),
        )
        | inr refused ↦ rw refused (id ∷ ids, refl, inl refl, h)
      ]

  delete_loop-IsOutcome :
      (ids batch : List String) (n count : ℕ) (sent : List (List String))
      → length batch ≡ n
      → n ≤ 20
      → All IsBatch sent
      → IsOutcome (flatten sent ++ (batch ++ ids)) (delete_loop accepts ids batch n count sent)
  unfolding delete_loop
  delete_loop-IsOutcome [] batch n count sent e small h =
      rw (append-nil batch) (last_batch-IsOutcome count batch sent (omega (arith, e, small)) h)
  delete_loop-IsOutcome (id ∷ ids) batch n count sent e small h =
      let full : List String = batch ++ id ∷ [] in
      let joined : batch ++ id ∷ ids ≡ full ++ ids = sym (append_assoc batch (id ∷ []) ids) in
      elim (Bool-cases (ltb 20 (suc n))) [
        | inl many ↦ elim (Bool-cases (accepts count full)) [
          | inl taken ↦
              let rest =
                delete_loop-IsOutcome ids [] 0 (suc count) (sent ++ full ∷ []) refl (omega arith) (
                  All-append IsBatch sent (full ∷ []) h (
                    (
                      omega (arith, full_length batch id n e),
                      omega (arith, full_length batch id n e, small),
                    ),
                    tt,
                  )) in
              rw (many, taken)
                (subst
                  (λ xs.
                    IsOutcome xs (delete_loop accepts ids [] 0 (suc count) (sent ++ full ∷ [])))
                  (ap (λ xs. xs ++ ids) (flatten_last sent full)
                    ∙ append_assoc (flatten sent) full ids
                    ∙ ap (λ xs. flatten sent ++ xs) (sym joined))
                  rest)
          | inr refused ↦ rw (many, refused) (batch ++ id ∷ ids, refl, inl refl, h)
        ]
        | inr few ↦
            rw (few, joined)
              (delete_loop-IsOutcome ids full (suc n) count sent (full_length batch id n e)
                (ground (arith, few)) h)
      ]

  -- Whatever the server answers, the batches that it took hold the first of the selected ids in
  -- their order, each once; each batch has 1 to 21 of them; and all ids were taken if the deletion
  -- went through.
  pub handle_bulk_delete-IsOutcome :
      (selected_ids : List String)
      → IsOutcome selected_ids (handle_bulk_delete accepts selected_ids)
  unfolding handle_bulk_delete
  handle_bulk_delete-IsOutcome selected_ids =
      delete_loop-IsOutcome selected_ids [] 0 0 [] refl (omega arith) tt
