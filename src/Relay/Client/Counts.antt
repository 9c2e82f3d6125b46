-- ===== src/Relay/Client/Counts.antt =====
-- The responses that a client of the relay has in its hands (client/src/main.rs).
use rathole_with_proxy.Base.{
  ℕ, zero, suc, ◌+◌, ◌≡◌, ◌⊎◌, inl, inr, refl, ap, Bool, true, false, none, some, List, [], ◌∷◌,
  ◌++◌, Text, text_eq, ◌==◌, Bool-cases, if◌then◌else◌, arith,
}
use rathole_with_proxy.Relay.{ControlMessage}
use rathole_with_proxy.Relay.Client.{
  Answer, Client, hand_over, take_task, finish_task, stop, messages, shut_down, send_with,
  write_message, write_next,
}

module _ {F : Type 0} (i : Text) where
  abbrev pub responds : ControlMessage F → ℕ
  responds (ControlMessage.response j st hs b) = if j == i then 1 else 0
  responds (ControlMessage.register k t) = 0
  responds (ControlMessage.request j m p hs b) = 0
  responds (ControlMessage.health c l) = 0
  responds ControlMessage.pong = 0

  -- The responses to the request `i` among some messages, and among what some tasks hand over.
  unfoldable pub count : List (ControlMessage F) → ℕ
  count [] = 0
  count (m ∷ ms) = responds m + count ms

  unfoldable pub count_answers : List (Answer F) → ℕ
  count_answers [] = 0
  count_answers (Answer.message m ∷ ts) = responds m + count_answers ts
  count_answers (Answer.panicked ∷ ts) = count_answers ts

  abbrev pub total : Client F → ℕ
  total c = count_answers c.tasks + (count c.channel + (count c.sent + count c.lost))

  pub count-append : (ms ns : List (ControlMessage F)) → count (ms ++ ns) ≡ count ms + count ns
  unfolding count
  count-append [] ns = ground arith
  count-append (m ∷ ms) ns = ground (arith, count-append ms ns)

  pub count_answers-append :
      (ts us : List (Answer F)) → count_answers (ts ++ us) ≡ count_answers ts + count_answers us
  unfolding count_answers
  count_answers-append [] us = ground arith
  count_answers-append (Answer.message m ∷ ts) us = ground (arith, count_answers-append ts us)
  count_answers-append (Answer.panicked ∷ ts) us = count_answers-append ts us

  -- Handing over, sending and stopping lose no response.
  pub total-hand_over :
      (a : Answer F) (c : Client F) → total (hand_over a c) ≡ count_answers (a ∷ []) + total c
  unfolding count count_answers
  total-hand_over Answer.panicked c = ground arith
  total-hand_over (Answer.message m) c = elim (Bool-cases c.writing) [
    | inl q ↦ rw q (ground (arith, count-append c.channel (m ∷ [])))
    | inr q ↦ rw q (ground arith)
  ]

  pub total-stop : (c : Client F) → total (stop c) ≡ total c
  unfolding count
  total-stop c = ground (arith, count-append c.channel c.lost)

  count-messages : (ts : List (Answer F)) → count (messages ts) ≡ count_answers ts
  unfolding count count_answers
  count-messages [] = refl
  count-messages (Answer.message m ∷ ts) = ap (λ n. responds m + n) (count-messages ts)
  count-messages (Answer.panicked ∷ ts) = count-messages ts

  pub total-shut_down : (c : Client F) → total (shut_down c) ≡ total c
  unfolding count_answers
  total-shut_down c = ground (
    arith,
    total-stop (record c { tasks = []; lost = messages c.tasks ++ c.lost }),
    count-append (messages c.tasks) c.lost,
    count-messages c.tasks,
  )

  abbrev pub gone : ControlMessage F → Client F → Client F
  gone m c = record c { lost = m ∷ c.lost }

  pub total-send_with :
      (n : ℕ) (m : ControlMessage F) (c : Client F) → total (send_with n m c) ≡ responds m + total c
  unfolding count
  total-send_with zero m c = ground (arith, total-stop (gone m c))
  total-send_with (suc n) m c = ground (arith, count-append c.sent (m ∷ []))

  pub total-write_message :
      (encodes : ControlMessage F → Bool) (m : ControlMessage F) (c : Client F)
      → total (write_message encodes m c) ≡ responds m + total c
  unfolding count
  total-write_message encodes m c = elim (Bool-cases (encodes m)) [
    | inl q ↦ rw q (total-send_with c.writes m c)
    | inr q ↦ rw q (ground (arith, total-stop (gone m c)))
  ]

  pub total-write_next :
      (encodes : ControlMessage F → Bool) (ms : List (ControlMessage F)) (c : Client F)
      → c.channel ≡ ms
      → total (write_next encodes ms c) ≡ total c
  unfolding count
  total-write_next encodes [] c e = refl
  total-write_next encodes (m ∷ ms) c e =
      ground (arith, total-write_message encodes m (record c { channel = ms }), ap count e)

  pub if-total :
      (b : Bool) (d c : Client F) → total d ≡ total c → total (if b then d else c) ≡ total c
  if-total true d c e = e
  if-total false d c e = refl

  pub take_task-cases :
      (n : ℕ) (ts : List (Answer F))
      → (take_task n ts ≡ none)
        ⊎ ((a : Answer F) × (rest : List (Answer F)) × (take_task n ts ≡ some (a, rest))
            × (count_answers ts ≡ count_answers (a ∷ []) + count_answers rest))
  unfolding take_task count_answers
  take_task-cases n [] = inl refl
  take_task-cases zero (a ∷ ts) = inr (a, ts, refl, count_answers-append (a ∷ []) ts)
  take_task-cases (suc n) (a ∷ ts) = elim (take_task-cases n ts) [
    | inl q ↦ inl (rw q refl)
    | inr (b, rest, q, e) ↦ inr (
      b,
      a ∷ rest,
      rw q refl,
      ground (
        arith,
        e,
        count_answers-append (a ∷ []) ts,
        count_answers-append (a ∷ []) rest,
        count_answers-append (a ∷ []) (b ∷ rest),
      ),
    )
  ]

  pub total-finish_task :
      (n : ℕ) (c : Client F) → total (finish_task (take_task n c.tasks) c) ≡ total c
  total-finish_task n c = elim (take_task-cases n c.tasks) [
    | inl q ↦ rw q refl
    | inr (a, rest, q, e) ↦ rw q (ground (arith, e, total-hand_over a (record c { tasks = rest })))
  ]
