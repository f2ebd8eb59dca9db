-- ===== src/Service/Polls.antt =====
-- The loop of waitForBulk, in service.go: when it ends.
use xg_mangement.Base.{
  none, ℕ, zero, suc, ◌+◌, ◌<◌, ◌≤◌, ◌≡◌, refl, ◌∙◌, ap, sym, String, Option, arith,
}
use xg_mangement.Errors.{GoError}
use xg_mangement.Sync.{SyncRequest}
use xg_mangement.Bulk.{Parser}
use xg_mangement.Service.{
  Result, ok, failed, panicked, BulkOperation, SyncTarget, SyncRepository, World, poll_of, Poll,
  ready, refused, again,
}
use xg_mangement.Service.Calls.{State, beat, beats, call}
use xg_mangement.Service.Actions.{Settings, Action, proceed, ◌>>=◌, or_default, settled}
use xg_mangement.Service.Sync.{sleep, rounds, wait_for_bulk, wait_until_done}

or_default-positive : (n : ℕ) → 0 < or_default n 5000000000
or_default-positive zero = omega arith
or_default-positive (suc n) = omega arith

proceed-cong :
    {D A B : Type 0} (x : Result A) (f g : A → Action D B) (s : State D)
    → ((a : A) → x ≡ ok a → f a s ≡ g a s)
    → proceed f x s ≡ proceed g x s
proceed-cong (ok a) f g s h = h a refl
proceed-cong (failed e) f g s h = refl
proceed-cong panicked f g s h = refl

settled-cong :
    {D : Type 0} (x : Poll) (f g : Action D BulkOperation) (s : State D)
    → f s ≡ g s
    → settled x f s ≡ settled x g s
settled-cong (ready found) f g s h = refl
settled-cong (refused e) f g s h = refl
settled-cong again f g s h = h

module _ {D : Type 0} (repo : SyncRepository D) (world : World D) (p : Parser) (c : Settings)
    (r : SyncRequest) where
  beat-left : (s : State D) → (beat repo r s).left ≡ s.left
  unfolding beat
  beat-left s = ground arith

  beats-left : (n : ℕ) (s : State D) → (beats repo r n s).left ≡ s.left
  unfolding beats
  beats-left zero s = refl
  beats-left (suc n) s = beats-left n (beat repo r s) ∙ beat-left s

  -- a sleep that ends well has taken its time
  sleep-left :
      (i : ℕ) (s : State D) (a : Unit {0})
      → c.sleeper ≡ none
      → (sleep repo world p c r i s).0 ≡ ok a
      → (sleep repo world p c r i s).1.left + i ≡ s.left
  unfolding sleep
  sleep-left i s a nil h = ground (arith, nil, beats-left (c.ticks s.calls) s)

  abbrev interval : ℕ
  interval = or_default c.poll_interval 5000000000

  -- a call takes no time back
  call-left :
      {A : Type 0} (elapsed : ℕ → ℕ) (f : Option GoError → ℕ → D → A × D) (s : State D)
      → (call repo r c.ticks elapsed f s).1.left ≤ s.left
  unfolding call
  call-left elapsed f s = omega (arith, beats-left (c.ticks s.calls) s)

  interval-positive : 0 < interval
  interval-positive = or_default-positive c.poll_interval

  -- the rounds after the first, while time is left for a sleep
  wait_for_bulk-round :
      (n m : ℕ) (target : SyncTarget) (token : String) (op : BulkOperation) (s : State D)
      → c.sleeper ≡ none
      → ((polled : BulkOperation) (later : State D)
          → later.left < s.left
          → wait_for_bulk repo world p c r n target token polled later
            ≡ wait_for_bulk repo world p c r m target token polled later)
      → wait_for_bulk repo world p c r (suc n) target token op s
        ≡ wait_for_bulk repo world p c r (suc m) target token op s
  unfolding wait_for_bulk ◌>>=◌
  wait_for_bulk-round n m target token op s nil same =
      let slept : Result (Unit {0}) × State D = sleep repo world p c r interval s in
      let asked : Result BulkOperation × State D =
        call repo r c.ticks world.elapsed (λ e n. world.get_bulk_operation e n target token op.id)
          slept.1 in
      settled-cong (poll_of op) _ _ s (
        proceed-cong slept.0 _ _ slept.1 (λ _ sleeps. proceed-cong asked.0 _ _ asked.1 (λ polled _.
          same polled asked.1 (
            omega (
              arith,
              interval-positive,
              sleep-left interval s tt nil sleeps,
              call-left world.elapsed (λ e n. world.get_bulk_operation e n target token op.id)
                  slept.1,
            )))))

  wait_for_bulk-fuel :
      (n m : ℕ) (target : SyncTarget) (token : String) (op : BulkOperation) (s : State D)
      → c.sleeper ≡ none
      → s.left < n
      → s.left < m
      → wait_for_bulk repo world p c r n target token op s
        ≡ wait_for_bulk repo world p c r m target token op s
  wait_for_bulk-fuel zero m target token op s nil h k = ground arith
  wait_for_bulk-fuel (suc n) zero target token op s nil h k = ground arith
  wait_for_bulk-fuel (suc n) (suc m) target token op s nil h k =
      wait_for_bulk-round n m target token op s nil (λ polled later less.
        wait_for_bulk-fuel n m target token polled later nil (omega arith) (omega arith))

  rounds-nil : (s : State D) → c.sleeper ≡ none → rounds repo world p c r s ≡ suc s.left
  rounds-nil s nil = rw nil refl

  -- The loop of waitForBulk ends when the Service has no Sleeper of its own, so that sleepContext is
  -- used: each round that goes on has slept for a positive interval, so that with more rounds than nanoseconds are left until the deadline it does what it does with any such
  -- number of rounds, and the bound that `wait_until_done` puts on the rounds is never met.
  pub wait_until_done-ends :
      (n : ℕ) (target : SyncTarget) (token : String) (op : BulkOperation) (s : State D)
      → c.sleeper ≡ none
      → s.left < n
      → wait_for_bulk repo world p c r n target token op s
        ≡ wait_until_done repo world p c r target token op s
  wait_until_done-ends n target token op s nil h =
      wait_for_bulk-fuel n (suc s.left) target token op s nil h (omega arith)
      ∙ ap (λ k. wait_for_bulk repo world p c r k target token op s) (sym (rounds-nil s nil))
