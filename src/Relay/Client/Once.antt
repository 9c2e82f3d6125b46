-- ===== src/Relay/Client/Once.antt =====
-- Each request of the relay is answered at most once (client/src/main.rs).
use rathole_with_proxy.Base.{
  ℕ, ◌+◌, ◌≡◌, ◌⊎◌, inl, inr, refl, ◌∙◌, ap, Bool, true, false, Option, none, some, List, [], ◌∷◌,
  ◌++◌, Text, text_eq, Bytes, ◌==◌, if◌then◌else◌, arith,
}
use rathole_with_proxy.Proxy.Http.{Http}
use rathole_with_proxy.Gateway.Tunnel.{all_pairs}
use rathole_with_proxy.HttpClient.{LocalResponse, Local}
use rathole_with_proxy.Relay.{ControlMessage}
use rathole_with_proxy.Relay.Client.{
  Answer, Client, Event, or_panic, insert_headers, to_message, unless_panic, answer, on_message,
  take_task, finish_task, write_message, write_next, health, step, run,
}
use rathole_with_proxy.Relay.Client.Counts.{
  count, count_answers, total, count_answers-append, total-write_message, total-write_next,
  if-total, total-finish_task, total-shut_down,
}

module _ (h : Http) (F : Type 0) where
  -- A task ends by a panic or with a response to its request.
  abbrev Responds : Text → Answer F → Type 0
  Responds j a =
      (a ≡ Answer.panicked)
      ⊎ ((st : ℕ) × (hs : List (Text × Text)) × (b : Bytes) × (a
            ≡ Answer.message (ControlMessage.response j st hs b)))

  or_panic-Responds :
      {A : Type 0} (j : Text) (o : Option A) (k : A → Answer F)
      → ((a : A) → Responds j (k a))
      → Responds j (or_panic h F o k)
  or_panic-Responds j none k f = inl refl
  or_panic-Responds j (some a) k f = f a

  insert_headers-Responds :
      (j : Text) (hs : h.Headers) (l : List (Text × Text)) (k : h.Headers → Answer F)
      → ((a : h.Headers) → Responds j (k a))
      → Responds j (insert_headers h F hs l k)
  unfolding insert_headers
  insert_headers-Responds j hs [] k f = f hs
  insert_headers-Responds j hs ((n, v) ∷ l) k f = or_panic-Responds j (h.header_name n) _ (λ a.
      or_panic-Responds j (h.from_str v) _
        (λ b. insert_headers-Responds j (h.insert_header hs a b) l k f))

  to_message-Responds : (j : Text) (o : Option (LocalResponse h)) → Responds j (to_message h F j o)
  to_message-Responds j none = inr (_, _, _, refl)
  to_message-Responds j (some r) =
      or_panic-Responds j r.body _
        (λ b. or_panic-Responds j (all_pairs h (h.iter r.headers)) _ (λ hs. inr (_, _, _, refl)))

  unless_panic-Responds :
      (j : Text) (b : Bool) (a : Answer F) → Responds j a → Responds j (unless_panic h F b a)
  unless_panic-Responds j true a f = f
  unless_panic-Responds j false a f = inl refl

  answer-Responds :
      (valid_method : Text → Bool) (url : Text) (local : Local h) (j m p : Text)
      (hs : List (Text × Text)) (b : Bytes)
      → Responds j (answer h F valid_method url local j m p hs b)
  unfolding answer
  answer-Responds valid_method url local j m p hs b = unless_panic-Responds j (valid_method m) _ (
      or_panic-Responds j (h.parse_uri (url ++ p)) _
        (λ u. insert_headers-Responds j h.no_headers hs _ (λ g. to_message-Responds j _)))

  module _ (valid_method : Text → Bool) (url : Text) (parse : Text → Option (ControlMessage F))
      (encodes : ControlMessage F → Bool) (cpu_usage : F) (i : Text) where
    -- The requests `i` among the events before the end of the stream, and those whose task panics.
    abbrev asks : Option (ControlMessage F) → ℕ
    asks (some (ControlMessage.request j m p hs b)) = if j == i then 1 else 0
    asks (some (ControlMessage.register k t)) = 0
    asks (some (ControlMessage.response j st hs b)) = 0
    asks (some (ControlMessage.health c l)) = 0
    asks (some ControlMessage.pong) = 0
    asks none = 0

    abbrev panics : Answer F → ℕ
    panics Answer.panicked = 1
    panics (Answer.message m) = 0

    abbrev panics_on : Local h → Option (ControlMessage F) → ℕ
    panics_on local (some (ControlMessage.request j m p hs b)) =
        if j == i then panics (answer h F valid_method url local j m p hs b) else 0
    panics_on local (some (ControlMessage.register k t)) = 0
    panics_on local (some (ControlMessage.response j st hs b)) = 0
    panics_on local (some (ControlMessage.health c l)) = 0
    panics_on local (some ControlMessage.pong) = 0
    panics_on local none = 0

    pub requests_of : List (Event h) → ℕ
    requests_of [] = 0
    requests_of (Event.text t local ∷ es) = asks (parse t) + requests_of es
    requests_of (Event.other_message ∷ es) = requests_of es
    requests_of (Event.finish n ∷ es) = requests_of es
    requests_of (Event.write ∷ es) = requests_of es
    requests_of (Event.tick ∷ es) = requests_of es
    requests_of (Event.closed ∷ es) = 0

    pub panics_of : List (Event h) → ℕ
    panics_of [] = 0
    panics_of (Event.text t local ∷ es) = panics_on local (parse t) + panics_of es
    panics_of (Event.other_message ∷ es) = panics_of es
    panics_of (Event.finish n ∷ es) = panics_of es
    panics_of (Event.write ∷ es) = panics_of es
    panics_of (Event.tick ∷ es) = panics_of es
    panics_of (Event.closed ∷ es) = 0

    counts :
        (j : Text) (a : Answer F)
        → Responds j a
        → count_answers i (a ∷ []) + (if j == i then panics a else 0) ≡ (if j == i then 1 else 0)
    unfolding count_answers
    counts j a (inl q) = rw q (ground arith)
    counts j a (inr (st, hs, b, q)) = rw q (ground arith)

    on_message-counts :
        (local : Local h) (o : Option (ControlMessage F))
        → count_answers i (on_message h F valid_method url parse encodes cpu_usage local o)
            + panics_on local o
          ≡ asks o
    unfolding count_answers
    on_message-counts local (some (ControlMessage.request j m p hs b)) =
        counts j _ (answer-Responds valid_method url local j m p hs b)
    on_message-counts local (some (ControlMessage.register k t)) = ground arith
    on_message-counts local (some (ControlMessage.response j st hs b)) = ground arith
    on_message-counts local (some (ControlMessage.health c l)) = ground arith
    on_message-counts local (some ControlMessage.pong) = ground arith
    on_message-counts local none = ground arith

    abbrev run_from : List (Event h) → Client F → Client F
    run_from = run h F valid_method url parse encodes cpu_usage

    abbrev step_of : Event h → Client F → Client F
    step_of = step h F valid_method url parse encodes cpu_usage

    abbrev health_of : ControlMessage F
    health_of = health h F valid_method url parse encodes cpu_usage

    -- For every id, the responses that wait in a task or in the channel, have gone out or are lost,
    -- and the requests whose task has panicked, are as many as before and the requests that have
    -- come before the end of the stream: no request is answered twice, and one whose task has not
    -- panicked has its one response, which may be lost with the task that writes or at the end of
    -- the stream.
    pub run-total :
        (es : List (Event h)) (c : Client F)
        → total i (run_from es c) + panics_of es ≡ total i c + requests_of es
    unfolding run step count requests_of panics_of
    run-total [] c = ground arith
    run-total (Event.text t local ∷ es) c = ground (
      arith,
      run-total es (step_of (Event.text t local) c),
      on_message-counts local (parse t),
      count_answers-append i c.tasks
          (on_message h F valid_method url parse encodes cpu_usage local (parse t)),
    )
    run-total (Event.other_message ∷ es) c = run-total es c
    run-total (Event.finish n ∷ es) c =
        ground (arith, run-total es (finish_task (take_task n c.tasks) c), total-finish_task i n c)
    run-total (Event.write ∷ es) c =
        run-total es (step_of Event.write c)
        ∙ ap (λ n. n + requests_of es)
            (if-total i c.writing (write_next encodes c.channel c) c
              (total-write_next i encodes c.channel c refl))
    run-total (Event.tick ∷ es) c =
        run-total es (step_of Event.tick c)
        ∙ ap (λ n. n + requests_of es)
            (if-total i c.writing (write_message encodes health_of c) c
              (total-write_message i encodes health_of c ∙ ground arith))
    run-total (Event.closed ∷ es) c = ap (λ n. n + 0) (total-shut_down i c)
