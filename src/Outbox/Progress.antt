-- ===== src/Outbox/Progress.antt =====
-- What a batch of the outbox leaves behind.
use xg_mangement.Base.{
  ℕ, suc, ◌+◌, String, ◌≡◌, refl, Bool, true, false, ◌||◌, none, List, [], ◌∷◌, ◌⊎◌, inl, inr, ◌=ₛ◌,
  any, All, All-imp, arith, Bool-cases, Option-cases, eq_iff,
}
use xg_mangement.Errors.{GoError}
use xg_mangement.Store.{published, OutboxRow, update}
use xg_mangement.Store.Runs.Updates.{All-update}
use xg_mangement.Outbox.{
  Claimed, Answers, publish_all, complete_outbox, retry_outbox, published_row, retrying_row,
  in_flight, is_publishing,
}

module _ (a : Answers) (Was : String → Type 0) where
  -- A row that counts as published was so before, or the publisher has confirmed its message.
  abbrev pub IsHonestRow : OutboxRow → Type 0
  IsHonestRow row = row.status ≡ published → Was row.id ⊎ (a.send row.id ≡ none)

  complete_outbox-IsHonestRow :
      (id : String) (rows : List OutboxRow)
      → a.send id ≡ none
      → All IsHonestRow rows
      → All IsHonestRow (complete_outbox a id rows).1
  unfolding complete_outbox published_row
  complete_outbox-IsHonestRow id rows sent h = elim (Option-cases (a.write_error id)) [
    | inr (e, w) ↦ rw (w, complete_outbox) h
    | inl w ↦
        rw (w, complete_outbox)
          (All-update IsHonestRow (in_flight id) (published_row (a.time id))
            (λ row _ mine p. inr (rw ((eq_iff row.id id).0 (ground arith)) sent)) rows h)
  ]

  retry_outbox-IsHonestRow :
      (id : String) (attempts : ℕ) (cause : GoError) (rows : List OutboxRow)
      → All IsHonestRow rows
      → All IsHonestRow (retry_outbox a id attempts cause rows).1
  unfolding retry_outbox retrying_row
  retry_outbox-IsHonestRow id attempts cause rows h = elim (Option-cases (a.write_error id)) [
    | inr (e, w) ↦ rw (w, retry_outbox) h
    | inl w ↦
        rw (w, retry_outbox)
          (All-update IsHonestRow (in_flight id) (retrying_row (a.time id) attempts cause)
            (λ row _ mine p. cc p) rows h)
  ]

  pub publish_all-IsHonestRow :
      (ms : List Claimed) (n : ℕ) (rows : List OutboxRow)
      → All IsHonestRow rows
      → All IsHonestRow (publish_all a ms n rows).rows
  unfolding publish_all
  publish_all-IsHonestRow [] n rows h = h
  publish_all-IsHonestRow (m ∷ ms) n rows h = elim (Option-cases (a.send m.id)) [
    | inr (cause, e) ↦
        let kept = retry_outbox-IsHonestRow m.id (m.attempts + 1) cause rows h in
        elim (Option-cases (retry_outbox a m.id (m.attempts + 1) cause rows).0) [
          | inr (err, w) ↦ rw (e, w, publish_all) kept
          | inl w ↦ rw (e, w, publish_all) (publish_all-IsHonestRow ms n _ kept)
        ]
    | inl e ↦
        let kept = complete_outbox-IsHonestRow m.id rows e h in
        elim (Option-cases (complete_outbox a m.id rows).0) [
          | inr (err, w) ↦ rw (e, w, publish_all) kept
          | inl w ↦ rw (e, w, publish_all) (publish_all-IsHonestRow ms (suc n) _ kept)
        ]
  ]

-- No row that `p` accepts is in flight.
abbrev pub IsLanded : (OutboxRow → Bool) → List OutboxRow → Type 0
IsLanded p rows = All (λ row. p row ≡ true → is_publishing row.status ≡ false) rows

IsLanded-update :
    (id : String) (p : String → Bool) (f : OutboxRow → OutboxRow)
    → ((row : OutboxRow) → (f row).id ≡ row.id)
    → ((row : OutboxRow) → is_publishing (f row).status ≡ false)
    → (rows : List OutboxRow) → IsLanded (λ row. p row.id) rows
    → IsLanded (λ row. id =ₛ row.id || p row.id) (update (in_flight id) f rows)
IsLanded-update id p f same landed [] h = tt
IsLanded-update id p f same landed (row ∷ rows) (first, h) = elim (Bool-cases (in_flight id row)) [
  | inl e ↦ rw e ((λ _. landed row), IsLanded-update id p f same landed rows h)
  | inr e ↦ rw e (
    (λ k. ground (arith, first, eq_iff id row.id, eq_iff row.id id)),
    IsLanded-update id p f same landed rows h,
  )
]

module _ (a : Answers) where
  complete_outbox-IsLanded :
      (id : String) (p : String → Bool) (rows : List OutboxRow)
      → (complete_outbox a id rows).0 ≡ none
      → IsLanded (λ row. p row.id) rows
      → IsLanded (λ row. id =ₛ row.id || p row.id) (complete_outbox a id rows).1
  unfolding complete_outbox published_row
  complete_outbox-IsLanded id p rows ok h = elim (Option-cases (a.write_error id)) [
    | inr (e, w) ↦ let stuck = rw (w, complete_outbox) at ok in cc stuck
    | inl w ↦
        rw (w, complete_outbox)
          (IsLanded-update id p (published_row (a.time id)) (λ row. refl) (λ row. refl) rows h)
  ]

  retry_outbox-IsLanded :
      (id : String) (attempts : ℕ) (cause : GoError) (p : String → Bool) (rows : List OutboxRow)
      → (retry_outbox a id attempts cause rows).0 ≡ none
      → IsLanded (λ row. p row.id) rows
      → IsLanded (λ row. id =ₛ row.id || p row.id) (retry_outbox a id attempts cause rows).1
  unfolding retry_outbox retrying_row
  retry_outbox-IsLanded id attempts cause p rows ok h = elim (Option-cases (a.write_error id)) [
    | inr (e, w) ↦ let stuck = rw (w, retry_outbox) at ok in cc stuck
    | inl w ↦
        rw (w, retry_outbox)
          (IsLanded-update id p (retrying_row (a.time id) attempts cause) (λ row. refl)
            (λ row. refl) rows h)
  ]

  IsLanded-move :
      (m : Claimed) (ms : List Claimed) (p : String → Bool) (rows : List OutboxRow)
      → IsLanded (λ row. any (λ x. x.id =ₛ row.id) ms || (m.id =ₛ row.id || p row.id)) rows
      → IsLanded (λ row. any (λ x. x.id =ₛ row.id) (m ∷ ms) || p row.id) rows
  IsLanded-move m ms p rows h =
      All-imp
        (λ row.
          any (λ x. x.id =ₛ row.id) ms || (m.id =ₛ row.id || p row.id) ≡ true
          → is_publishing row.status ≡ false)
        (λ row.
          any (λ x. x.id =ₛ row.id) (m ∷ ms) || p row.id ≡ true → is_publishing row.status ≡ false)
        (λ row k g. ground (arith, k)) rows h

  pub publish_all-IsLanded :
      (ms : List Claimed) (n : ℕ) (p : String → Bool) (rows : List OutboxRow)
      → (publish_all a ms n rows).error ≡ none
      → IsLanded (λ row. p row.id) rows
      → IsLanded (λ row. any (λ x. x.id =ₛ row.id) ms || p row.id) (publish_all a ms n rows).rows
  unfolding publish_all
  publish_all-IsLanded [] n p rows ok h = h
  publish_all-IsLanded (m ∷ ms) n p rows ok h = elim (Option-cases (a.send m.id)) [
    | inr (cause, e) ↦ elim (Option-cases (retry_outbox a m.id (m.attempts + 1) cause rows).0) [
      | inr (err, w) ↦ let stuck = rw (e, w, publish_all) at ok in cc stuck
      | inl w ↦
          rw (e, w, publish_all)
            (IsLanded-move m ms p _ (
              publish_all-IsLanded ms n (λ id. m.id =ₛ id || p id) _ (rw (e, w, publish_all) at ok)
                (retry_outbox-IsLanded m.id (m.attempts + 1) cause p rows w h)))
    ]
    | inl e ↦ elim (Option-cases (complete_outbox a m.id rows).0) [
      | inr (err, w) ↦ let stuck = rw (e, w, publish_all) at ok in cc stuck
      | inl w ↦
          rw (e, w, publish_all)
            (IsLanded-move m ms p _ (
              publish_all-IsLanded ms (suc n) (λ id. m.id =ₛ id || p id) _
                (rw (e, w, publish_all) at ok) (complete_outbox-IsLanded m.id p rows w h)))
    ]
  ]

  pub all-IsLanded : (rows : List OutboxRow) → IsLanded (λ row. false) rows
  all-IsLanded [] = tt
  all-IsLanded (row ∷ rows) = ((λ h. cc h), all-IsLanded rows)
