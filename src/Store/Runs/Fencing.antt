-- ===== src/Store/Runs/Fencing.antt =====
-- The lease of a run: no two owners at once, and none of the
-- statements of a worker that lost its lease has an effect.
use xg_mangement.Base.{
  ℕ, ◌≤◌, ◌≡◌, refl, sym, ◌∙◌, ap, ◌≢◌, inl, inr, Bool, true, false, ◌&&◌, Option, none, some, List,
  ◌⊎◌, [], ◌∷◌, String, arith, Bool-cases, eq_iff, eq_refl, any,
}
use xg_mangement.Errors.{GoError, plain}
use xg_mangement.Sync.{SyncRequest, ResourceCounts}
use xg_mangement.Store.Tables.{Run, update, count, equals}
use xg_mangement.Store.Runs.{
  starts, holds, active_in, started_row, start_sync_run, heartbeat_sync_run, fail_sync_run,
  complete_sync_run,
}
use xg_mangement.Store.Runs.Leases.{IsTable, start_sync_run-IsTable}

module _ {ℓ} {A : Type ℓ} where
  count-pos :
      (p q : A → Bool)
      → ((x : A) → p x ≡ true → q x ≡ true)
      → (xs : List A) → any p xs ≡ true
      → 1 ≤ count q xs
  count-pos p q h (x ∷ xs) a = ground (arith, h x, count-pos p q h xs)
  count-pos p q h [] a = cc

  -- Two rows of a kind of which there is at most one are the same row.
  pub any-and :
      (p p' q : A → Bool)
      → ((x : A) → p x ≡ true → q x ≡ true)
      → ((x : A) → p' x ≡ true → q x ≡ true)
      → (xs : List A) → count q xs ≤ 1
      → any p xs ≡ true
      → any p' xs ≡ true
      → any (λ x. p x && p' x) xs ≡ true
  any-and p p' q h h' [] one a a' = a
  any-and p p' q h h' (x ∷ xs) one a a' =
      ground (arith, h x, h' x, count-pos p q h xs, count-pos p' q h' xs, any-and p p' q h h' xs)

  pub any-elim {κ} :
      {C : Type κ} (p : A → Bool) → ((x : A) → p x ≡ true → C) → (xs : List A) → any p xs ≡ true → C
  any-elim p f [] a = cc
  any-elim p f (x ∷ xs) a = elim (Bool-cases (p x)) [
    | inl e ↦ f x e
    | inr e ↦ any-elim p f xs (rw e at a)
  ]

  update-none : (p : A → Bool) (f : A → A) (xs : List A) → any p xs ≡ false → update p f xs ≡ xs
  update-none p f [] h = refl
  update-none p f (x ∷ xs) h = ground (arith, update-none p f xs)

-- The two requests are for one store.
abbrev pub SameStore : SyncRequest → SyncRequest → Type 0
SameStore r r' = (r'.organization_id ≡ r.organization_id) × (r'.store_id ≡ r.store_id)

holds-active :
    (r : SyncRequest) (run : Run)
    → holds r run ≡ true
    → active_in r.organization_id r.store_id run ≡ true
holds-active r run h = ground arith

holds-active_same :
    (r r' : SyncRequest) (run : Run)
    → SameStore r r'
    → holds r' run ≡ true
    → active_in r.organization_id r.store_id run ≡ true
holds-active_same r r' run (eo, es) h = rw (← eo, ← es) (holds-active r' run h)

equals-eq : (o : Option String) (b : String) → equals o b ≡ true → o ≡ some b
equals-eq none b h = cc
equals-eq (some a) b h = ap some ((eq_iff a b).0 h)

holds-eq :
    (r r' : SyncRequest) (run : Run)
    → (holds r run && holds r' run) ≡ true
    → (r'.run_id ≡ r.run_id) × (r'.lease_owner ≡ r.lease_owner)
holds-eq r r' run h =
    let owner = equals-eq run.lease_owner r.lease_owner (ground arith) in
    let owner' = equals-eq run.lease_owner r'.lease_owner (ground arith) in
    let id = (eq_iff run.id r.run_id).0 (ground arith) in
    let id' = (eq_iff run.id r'.run_id).0 (ground arith) in (sym id' ∙ id, cc (owner, owner'))

-- In a well-formed table two requests for one store that both hold a lease hold it on the same run
-- and under the same owner: two workers with different owners are never both let through.
pub lease_exclusive :
    (r r' : SyncRequest) (runs : List Run)
    → IsTable runs
    → SameStore r r'
    → any (holds r) runs ≡ true
    → any (holds r') runs ≡ true
    → (r'.run_id ≡ r.run_id) × (r'.lease_owner ≡ r.lease_owner)
lease_exclusive r r' runs t same h h' =
    any-elim (λ run. holds r run && holds r' run) (holds-eq r r') runs
      (any-and (holds r) (holds r') (active_in r.organization_id r.store_id) (holds-active r)
        (λ run. holds-active_same r r' run same) runs (t.one_active _ _) h h')

module _ (now : ℕ) (owner : String) (later : GoError ⊎ List Run) (r r' : SyncRequest)
    (runs started : List Run) (t : IsTable runs)
    (taken : start_sync_run now owner none later r runs ≡ (inr owner, started))
    (same : SameStore r r') (other : r'.lease_owner ≢ owner) where
  any-started :
      (rows : List Run)
      → any (starts now r) rows ≡ true
      → any
          (holds (record r { lease_owner = owner }))
          (update (starts now r) (started_row now owner) rows)
        ≡ true
  unfolding started_row
  any-started [] h = cc
  any-started (row ∷ rows) h = elim (Bool-cases (starts now r row)) [
    | inl e ↦ rw e (ground (arith, eq_refl owner))
    | inr e ↦ rw e (ground (arith, any-started rows))
  ]

  well_formed : IsTable started
  well_formed = rw (ap (λ p. p.1) taken) at (start_sync_run-IsTable now owner none later r runs t)

  new_owner : any (holds (record r { lease_owner = owner })) started ≡ true
  unfolding start_sync_run started_row
  new_owner =
      let e : update (starts now r) (started_row now owner) runs ≡ started = ground arith in
      rw (← e) (any-started runs (ground arith))

  old_owner : any (holds r') started ≡ false
  old_owner = elim (Bool-cases (any (holds r') started)) [
    | inr no_row ↦ no_row
    | inl held ↦ absurd (
        other
          (lease_exclusive (record r { lease_owner = owner }) r' started well_formed same new_owner
            held).1)
  ]

  -- Once a run of a well-formed table has been taken over, the statements of a worker at the same
  -- store whose lease owner differs have no effect, at any time: its heartbeat and its failure report
  -- change no row, and its completion is refused.
  pub lost_lease_fenced :
      (now' : ℕ) (later' : GoError ⊎ List Run) (counts : ResourceCounts) (code message : String)
      → ((heartbeat_sync_run now' none later' r' started).1 ≡ started)
        × (fail_sync_run now' none r' code message started ≡ (none, started))
        × (complete_sync_run now' counts r' started
            ≡ inl (plain "Shopify sync lease was lost before mirror commit"))
  unfolding heartbeat_sync_run fail_sync_run complete_sync_run
  lost_lease_fenced now' later' counts code message = (
    rw old_owner,
    ap (λ rows. (none, rows)) (update-none (holds r') _ started old_owner),
    rw old_owner,
  )
