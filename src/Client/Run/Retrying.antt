-- ===== src/Client/Run/Retrying.antt =====
-- Whether a client goes on trying (rathole/src/client.rs: ControlChannelHandle::new).
use rathole_with_proxy.Base.{
  ℕ, zero, suc, ◌≤◌, ◌≡◌, ◌≢◌, refl, ap, true, false, Option, none, some, List, [], ◌∷◌, ◌++◌,
}
use rathole_with_proxy.Server.Run.{Backoff}
use rathole_with_proxy.Client.Run.{Attempt, Status, three_seconds, settle, retry}

-- The attempts end with errors while the handle is there.
abbrev pub AllFail : List Attempt → Type 0
AllFail [] = Unit
AllFail (Attempt.failed false elapsed ∷ rest) = AllFail rest
AllFail (a ∷ rest) = ⊥

-- So do these, after three seconds at most.
abbrev pub AllShort : List Attempt → Type 0
AllShort [] = Unit
AllShort (Attempt.failed false elapsed ∷ rest) = (elapsed ≤ three_seconds) × AllShort rest
AllShort (a ∷ rest) = ⊥

-- The first delays of a policy, from a state on.
module _ (b : Backoff) where
  abbrev pub wait_then : (b.State → List ℕ) → Option (ℕ × b.State) → List ℕ
  wait_then rest none = []
  wait_then rest (some (d, next)) = d ∷ rest next

  unfoldable pub policy : ℕ → b.State → List ℕ
  policy zero s = []
  policy (suc n) s = wait_then (policy n) (b.next_backoff s)

module _ (b : Backoff) (never : (s : b.State) → b.next_backoff s ≢ none) where
  delay-some :
      (o : Option (ℕ × b.State)) → o ≢ none → (d : ℕ) × (next : b.State) × (o ≡ some (d, next))
  delay-some none h = absurd (h refl)
  delay-some (some (d, next)) h = (d, next, refl)

  retry-append :
      (fails more : List Attempt) (state : b.State)
      → AllFail fails
      → (next : b.State) × ((retry b (fails ++ more) state).status ≡ (retry b more next).status)
        × ((retry b (fails ++ more) state).delays
            ≡ (retry b fails state).delays ++ (retry b more next).delays)
  unfolding retry
  retry-append [] more state h = (state, refl, refl)
  retry-append (Attempt.failed false elapsed ∷ fails) more state h =
      let (d, s, q) =
        delay-some (b.next_backoff (settle b elapsed state)) (never (settle b elapsed state)) in
      let (next, st, ds) = retry-append fails more s h in (next, rw q st, rw q (ap (◌∷◌ d) ds))
  retry-append (Attempt.failed true elapsed ∷ fails) more state h = absurd h
  retry-append (Attempt.ended ∷ fails) more state h = absurd h
  retry-append (Attempt.panicked ∷ fails) more state h = absurd h

  -- A panic ends the task for good, after however many attempts.
  pub retry-panicked :
      (fails more : List Attempt) (state : b.State)
      → AllFail fails
      → (retry b (fails ++ Attempt.panicked ∷ more) state).status ≡ Status.dead
  unfolding retry
  retry-panicked fails more state h =
      let (next, st, n) = retry-append fails (Attempt.panicked ∷ more) state h in st
