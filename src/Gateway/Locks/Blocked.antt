-- ===== src/Gateway/Locks/Blocked.antt =====
-- A request of the route `/tunnel` that nobody answers (rathole/src/main.rs: tunnel).
use rathole_with_proxy.Base.{
  ℕ, zero, suc, ◌≡◌, ◌≢◌, inl, inr, refl, sym, ◌∙◌, ap, subst, true, false, some, List, [], ◌∷◌,
  ◌++◌, Text, text_eq, ==_iff, eqb, if◌then◌else◌, All, Bool-cases, arith,
}
use rathole_with_proxy.Gateway.Locks.{
  Want, RwLock, Op, Tasks, task, set_task, member, advance, act, await_tunnel, Event, step, run,
}

-- The task does not answer the request.
abbrev pub Silent : Text → List Op → Type 0
Silent r = All (λ o. o ≢ Op.respond r)

-- A new task does not either, and neither the task `k` nor the task `m` is dropped.
abbrev pub SilentEvent : (k m : ℕ) → Text → Event → Type 0
SilentEvent k m r (Event.turn n) = Unit
SilentEvent k m r (Event.cancel n) = (k ≢ n) × (m ≢ n)
SilentEvent k m r (Event.spawn ops) = Silent r ops

task-set_task :
    (k n : ℕ) (ops : List Op) (ts : List (List Op)) → k ≢ n → task k (set_task n ops ts) ≡ task k ts
unfolding task set_task
task-set_task k n ops [] h = refl
task-set_task zero zero ops (t ∷ ts) h = absurd (h refl)
task-set_task zero (suc n) ops (t ∷ ts) h = refl
task-set_task (suc k) zero ops (t ∷ ts) h = refl
task-set_task (suc k) (suc n) ops (t ∷ ts) h = task-set_task k n ops ts (λ e. h (ap suc e))

task-append :
    (k : ℕ) (ops o : List Op) (ts : List (List Op)) (x : Op)
    → task k ts ≡ x ∷ o
    → task k (ts ++ ops ∷ []) ≡ x ∷ o
unfolding task
task-append k ops o [] x h = absurd cc
task-append zero ops o (t ∷ ts) x h = h
task-append (suc k) ops o (t ∷ ts) x h = task-append k ops o ts x h

Silent-set_task :
    (r : Text) (n : ℕ) (ops : List Op) (ts : List (List Op))
    → All (Silent r) ts
    → Silent r ops
    → All (Silent r) (set_task n ops ts)
unfolding set_task
Silent-set_task r n ops [] a h = tt
Silent-set_task r zero ops (t ∷ ts) a h = (h, a.1)
Silent-set_task r (suc n) ops (t ∷ ts) a h = (a.0, Silent-set_task r n ops ts a.1 h)

Silent-task : (r : Text) (n : ℕ) (ts : List (List Op)) → All (Silent r) ts → Silent r (task n ts)
unfolding task
Silent-task r n [] a = tt
Silent-task r zero (t ∷ ts) a = a.0
Silent-task r (suc n) (t ∷ ts) a = Silent-task r n ts a.1

Silent-append :
    (r : Text) (ops : List Op) (ts : List (List Op))
    → All (Silent r) ts
    → Silent r ops
    → All (Silent r) (ts ++ ops ∷ [])
Silent-append r ops [] a h = (h, tt)
Silent-append r ops (t ∷ ts) a h = (a.0, Silent-append r ops ts a.1 h)

module _ (l : RwLock) (k m : ℕ) (r : Text) where
  -- The task `k` has the lock and waits for the response to `r`, which nobody has given and no task
  -- will give, and the task `m` is a writer and the next to get the lock.
  pub record IsBlocked (s : Tasks l) : Type 0 where
    pub waits : task k s.tasks ≡ await_tunnel r
    pub holds_lock : l.holds k s.lock ≡ true
    pub next : l.next_writer s.lock ≡ some m
    pub unanswered : member r s.answered ≡ false
    pub silent : All (Silent r) s.tasks

  -- Everyone who has the lock in the second state has it in the first.
  abbrev pub NoneNew : Tasks l → Tasks l → Type 0
  NoneNew s s' = (n : ℕ) → l.holds n s'.lock ≡ true → l.holds n s.lock ≡ true

  abbrev Kept : Tasks l → Tasks l → Type 0
  Kept s s' = IsBlocked s' × NoneNew s s'

  kept : (s : Tasks l) → IsBlocked s → Kept s s
  kept s b = (b, λ n h. h)

  module _ (s : Tasks l) (b : IsBlocked s) (n : ℕ) (other : k ≢ n) (ops : List Op)
      (silent : Silent r ops) where
    -- A step of another task that leaves the writer the next.
    moved :
        (t : l.State) (a : List Text)
        → l.holds k t ≡ true
        → l.next_writer t ≡ some m
        → ((j : ℕ) → l.holds j t ≡ true → l.holds j s.lock ≡ true)
        → member r a ≡ false
        → Kept s (record { tasks = set_task n ops s.tasks; lock = t; answered = a })
    moved t a h e sub u = (
      record {
        waits = task-set_task k n ops s.tasks other ∙ b.waits;
        holds_lock = h;
        next = e;
        unanswered = u;
        silent = Silent-set_task r n ops s.tasks b.silent silent;
      },
      sub,
    )

    -- It changes only itself.
    stepped : Kept s (advance l n ops s)
    stepped = moved s.lock s.answered b.holds_lock b.next (λ j g. g) b.unanswered

    asked : (w : Want) → Kept s (record (advance l n ops s) { lock = l.ask n w s.lock })
    asked w =
        let same : (j : ℕ) → l.holds j (l.ask n w s.lock) ≡ l.holds j s.lock =
          λ j. l.holds-ask k m n j w s.lock b.holds_lock b.next in
        moved (l.ask n w s.lock) s.answered (same k ∙ b.holds_lock)
          (l.next_writer-ask k m n w s.lock b.holds_lock b.next) (λ j g. sym (same j) ∙ g)
          b.unanswered

    released : Kept s (record (advance l n ops s) { lock = l.give_back n s.lock })
    released =
        let left : (j : ℕ)
            → l.holds j (l.give_back n s.lock) ≡ (if eqb n j then false else l.holds j s.lock) =
          λ j. l.holds-give_back k m n j s.lock b.holds_lock other b.next in
        moved (l.give_back n s.lock) s.answered (left k ∙ ground (arith, b.holds_lock, other))
          (l.next_writer-give_back k m n s.lock b.holds_lock other b.next)
          (λ j g. ground (arith, left j)) b.unanswered

    dropped :
        m ≢ n → Kept s (record (advance l n ops s) { lock = l.give_back n (l.leave n s.lock) })
    dropped not_writer =
        let t = l.leave n s.lock in
        let same : (j : ℕ) → l.holds j t ≡ l.holds j s.lock =
          λ j. l.holds-leave k m n j s.lock b.holds_lock not_writer b.next in
        let here : l.holds k t ≡ true = same k ∙ b.holds_lock in
        let first = l.next_writer-leave k m n s.lock b.holds_lock not_writer b.next in
        let left : (j : ℕ)
            → l.holds j (l.give_back n t) ≡ (if eqb n j then false else l.holds j t) =
          λ j. l.holds-give_back k m n j t here other first in
        moved (l.give_back n t) s.answered (left k ∙ ground (arith, here, other))
          (l.next_writer-give_back k m n t here other first) (λ j g. ground (arith, left j, same j))
          b.unanswered

    responded :
        (i : Text) → i ≢ r → Kept s (record (advance l n ops s) { answered = i ∷ s.answered })
    unfolding member
    responded i h =
        moved s.lock (i ∷ s.answered) b.holds_lock b.next (λ j g. g)
          (ground (arith, ==_iff r i, b.unanswered))

  act-Kept :
      (s : Tasks l) (n : ℕ) (ops : List Op)
      → IsBlocked s
      → k ≢ n
      → Silent r ops
      → Kept s (act l n ops s)
  unfolding act
  act-Kept s n [] b h i = kept s b
  act-Kept s n (Op.ask w ∷ ops) b h i = asked s b n h ops i.1 w
  act-Kept s n (Op.obtain w ∷ ops) b h i = elim (Bool-cases (l.holds n s.lock)) [
    | inl q ↦ rw q (stepped s b n h ops i.1)
    | inr q ↦ rw q (kept s b)
  ]
  act-Kept s n (Op.release ∷ ops) b h i = released s b n h ops i.1
  act-Kept s n (Op.work ∷ ops) b h i = stepped s b n h ops i.1
  act-Kept s n (Op.await_response q ∷ ops) b h i = elim (Bool-cases (member q s.answered)) [
    | inl e ↦ rw e (stepped s b n h ops i.1)
    | inr e ↦ rw e (kept s b)
  ]
  act-Kept s n (Op.respond q ∷ ops) b h i = responded s b n h ops i.1 q (λ e. i.0 (ap Op.respond e))

  -- The task that waits does nothing.
  act-waiting : (s : Tasks l) → IsBlocked s → act l k (task k s.tasks) s ≡ s
  unfolding act
  act-waiting s b = rw (b.waits, b.unanswered) refl

  step-Kept : (s : Tasks l) (e : Event) → IsBlocked s → SilentEvent k m r e → Kept s (step l e s)
  unfolding step
  step-Kept s (Event.turn n) b h = elim (Bool-cases (eqb k n)) [
    | inl q ↦
        let e : k ≡ n = ground arith in
        subst (λ i. Kept s (act l i (task i s.tasks) s)) e
          (subst (Kept s) (sym (act-waiting s b)) (kept s b))
    | inr q ↦
        let ne : k ≢ n = λ e. ground arith in
        act-Kept s n (task n s.tasks) b ne (Silent-task r n s.tasks b.silent)
  ]
  step-Kept s (Event.cancel n) b h = dropped s b n h.0 [] tt h.1
  step-Kept s (Event.spawn ops) b h = (
    record {
      waits = task-append k ops (Op.release ∷ []) s.tasks (Op.await_response r) b.waits;
      holds_lock = b.holds_lock;
      next = b.next;
      unanswered = b.unanswered;
      silent = Silent-append r ops s.tasks b.silent h;
    },
    λ n g. g,
  )

  -- Nothing ends this, as long as neither of the two tasks is dropped.
  pub run-IsBlocked :
      (s : Tasks l) (es : List Event)
      → IsBlocked s
      → All (SilentEvent k m r) es
      → IsBlocked (run l es s) × NoneNew s (run l es s)
  unfolding run
  run-IsBlocked s [] b h = kept s b
  run-IsBlocked s (e ∷ es) b h =
      let (c, new) = step-Kept s e b h.0 in
      let (d, more) = run-IsBlocked (step l e s) es c h.1 in (d, λ n g. new n (more n g))
