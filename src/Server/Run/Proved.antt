-- ===== src/Server/Run/Proved.antt =====
-- Whose control channels a running server has (rathole/src/server.rs: Server::run with its tasks and
-- hot reloads).
use rathole_with_proxy.Base.{
  ℕ, zero, suc, ◌≡◌, refl, sym, Bool, true, false, Option, none, some, List, [], ◌∷◌, ◌++◌, All, In,
  inl, inr, text_eq, HashMap, subst,
}
use rathole_with_proxy.Config.{ServerServiceConfig}
use rathole_with_proxy.Watcher.{ServerServiceChange, ConfigChange}
use rathole_with_proxy.Protocol.{Codec, Digest}
use rathole_with_proxy.Protocol.Stream.{Result, ok, err, Conn}
use rathole_with_proxy.Server.{Server, ControlChannelMap, Session, handle_hot_reload, name_digest}
use rathole_with_proxy.Server.Run.{
  Backoff, Progress, Task, Event, Running, begin, next_task, run_task, run_nth, back_off, step,
  go_on, run,
}
use rathole_with_proxy.Server.Run.Turns.{begin-P}
use rathole_with_proxy.Server.Run.Reads.{IsRest-refl, IsRest-trans, begin-Eats}
use rathole_with_proxy.Server.Run.Opened.{
  Came, Proved, AllProved, drops, gives, authenticate-AllProved,
}

-- The connections that are accepted, each with the nonce of its session.
abbrev pub accepts : List Event → List (Digest × Conn)
accepts [] = []
accepts (Event.accepted (some c) ∷ es) = c ∷ accepts es
accepts (Event.accepted none ∷ es) = accepts es
accepts (Event.accept_failed is_io ∷ es) = accepts es
accepts (Event.turn n ∷ es) = accepts es
accepts (Event.update o ∷ es) = accepts es
accepts (Event.shutdown ∷ es) = accepts es

-- Those of one event are among them, and so are those of the later ones.
here :
    (e : Event) (es : List Event) (c : Digest × Conn)
    → In c (accepts (e ∷ []))
    → In c (accepts (e ∷ es))
here (Event.accepted (some d)) es c (inl q) = inl q
here (Event.accepted (some d)) es c (inr q) = absurd q
here (Event.accepted none) es c h = absurd h
here (Event.accept_failed is_io) es c h = absurd h
here (Event.turn n) es c h = absurd h
here (Event.update o) es c h = absurd h
here Event.shutdown es c h = absurd h

later :
    (e : Event) (es : List Event) (c : Digest × Conn) → In c (accepts es) → In c (accepts (e ∷ es))
later (Event.accepted (some d)) es c h = inr h
later (Event.accepted none) es c h = h
later (Event.accept_failed is_io) es c h = h
later (Event.turn n) es c h = h
later (Event.update o) es c h = h
later Event.shutdown es c h = h

All-append : {A : Type 0} (Q : A → Type 0) (xs ys : List A) → All Q xs → All Q ys → All Q (xs ++ ys)
All-append Q [] ys h k = k
All-append Q (x ∷ xs) ys h k = (h.0, All-append Q xs ys h.1 k)

module _ (x : Codec) (came : List (Digest × Conn)) where
  -- A task has the rest of the connection that came with its nonce.
  abbrev pub TaskCame : Task → Type 0
  TaskCame (Task.accepted n conn) = Came x came n conn
  TaskCame (Task.waiting n d v conn) = Came x came n conn

  next_task-AllProved :
      (n : Digest) (r : Session × Result Progress)
      → Came x came n r.0.conn
      → AllProved x came r.0.channels
      → AllProved x came (next_task x n r).0 × All TaskCame (next_task x n r).1
  next_task-AllProved n (s, ok (Progress.awaits_auth d v)) c h = (h, (c, tt))
  next_task-AllProved n (s, ok Progress.over) c h = (h, tt)
  next_task-AllProved n (s, err e) c h = (h, tt)

  abbrev None : Digest → ServerServiceConfig → Type 0
  None d v = ⊥

  module _ (services : HashMap Digest ServerServiceConfig) where
    run_task-AllProved :
        (t : Task) (c : ControlChannelMap)
        → TaskCame t
        → AllProved x came c
        → AllProved x came (run_task x services t c).0 × All TaskCame (run_task x services t c).1
    unfolding run_task
    run_task-AllProved (Task.accepted n conn) c (first, i, r) h =
        let s : Session = record { conn = conn; channels = c } in
        next_task-AllProved n (begin x services n s)
          (
            first,
            i,
            IsRest-trans first conn (begin x services n s).0.conn r (begin-Eats x services n s),
          )
          (begin-P x (AllProved x came) None (drops x came) (λ d m v e b f. absurd f) (gives x came)
            services n s h)
    run_task-AllProved (Task.waiting n d v conn) c i h = (
      authenticate-AllProved x came n d v v.token (record { conn = conn; channels = c }) refl i h,
      tt,
    )

    run_nth-AllProved :
        (n : ℕ) (ts : List Task) (c : ControlChannelMap)
        → All TaskCame ts
        → AllProved x came c
        → AllProved x came (run_nth x services n ts c).0
          × All TaskCame (run_nth x services n ts c).1
    unfolding run_nth
    run_nth-AllProved n [] c good h = (h, tt)
    run_nth-AllProved zero (t ∷ ts) c good h =
        let (p, left) = run_task-AllProved t c good.0 h in (p, All-append TaskCame _ ts left good.1)
    run_nth-AllProved (suc n) (t ∷ ts) c good h =
        let (p, left) = run_nth-AllProved n ts c good.1 h in (p, (good.0, left))

  handle_hot_reload-AllProved :
      (e : ConfigChange) (s : Server)
      → AllProved x came s.control_channels
      → AllProved x came (handle_hot_reload x e s).control_channels
  unfolding handle_hot_reload
  handle_hot_reload-AllProved (ConfigChange.server_change (ServerServiceChange.add cfg)) s h =
      drops x came (name_digest x cfg.name) s.control_channels h
  handle_hot_reload-AllProved (ConfigChange.server_change (ServerServiceChange.delete name)) s h =
      drops x came (name_digest x name) s.control_channels h
  handle_hot_reload-AllProved (ConfigChange.general c) s h = h
  handle_hot_reload-AllProved (ConfigChange.client_change c) s h = h

  module _ (b : Backoff) where
    -- Every control channel is proved, and every task has its connection.
    record Good (r : Running x b) : Type 0 where
      channels : AllProved x came r.server.control_channels
      tasks : All TaskCame r.tasks

    back_off-Good :
        (o : Option (ℕ × b.State)) (r : Running x b) → Good r → Good (back_off x b o r).0
    back_off-Good none r g = g
    back_off-Good (some d) r g = record { channels = g.channels; tasks = g.tasks }

    abbrev IsHere : Event → Type 0
    IsHere e = (c : Digest × Conn) → In c (accepts (e ∷ [])) → In c came

    step-Good : (e : Event) (r : Running x b) → IsHere e → Good r → Good (step x b e r).0
    unfolding step
    step-Good (Event.accept_failed true) r i g = back_off-Good (b.next_backoff r.backoff) r g
    step-Good (Event.accept_failed false) r i g = g
    step-Good (Event.accepted none) r i g = record { channels = g.channels; tasks = g.tasks }
    step-Good (Event.accepted (some (n, conn))) r i g = record {
      channels = g.channels;
      tasks =
          All-append TaskCame r.tasks (Task.accepted n conn ∷ []) g.tasks
            ((conn, i (n, conn) (inl refl), IsRest-refl conn), tt);
    }
    step-Good (Event.turn n) r i g =
        let (p, left) =
          run_nth-AllProved r.server.services n r.tasks r.server.control_channels g.tasks
            g.channels in
        record { channels = p; tasks = left }
    step-Good (Event.update none) r i g = record { channels = g.channels; tasks = g.tasks }
    step-Good (Event.update (some e)) r i g = record {
      channels = handle_hot_reload-AllProved e r.server g.channels;
      tasks = g.tasks;
    }
    step-Good Event.shutdown r i g = g

    go_on-AllProved :
        (p : Running x b × Bool) (rest : Running x b → Running x b)
        → (Good p.0 → AllProved x came (rest p.0).server.control_channels)
        → Good p.0
        → AllProved x came (go_on x b rest p).server.control_channels
    go_on-AllProved (r, true) rest f g = f g
    go_on-AllProved (r, false) rest f g = tt

    run-AllProved :
        (es : List Event) (r : Running x b)
        → ((c : Digest × Conn) → In c (accepts es) → In c came)
        → Good r
        → AllProved x came (run x b es r).server.control_channels
    unfolding run
    run-AllProved [] r i g = g.channels
    run-AllProved (e ∷ es) r i g =
        go_on-AllProved (step x b e r) (run x b es)
          (run-AllProved es (step x b e r).0 (λ c h. i c (later e es c h)))
          (step-Good e r (λ c h. i c (here e es c h)) g)

module _ (x : Codec) (b : Backoff) where
  -- At any time of a run of a server that starts without control channels and without tasks,
  -- however the turns of the tasks mix and whatever is reloaded between them, each control channel
  -- has been opened over a connection that the server has accepted in the run: its session key is
  -- the digest of the token of its service and the nonce of that connection, and this digest is an
  -- answer that the connection brings.
  pub run-Proved :
      (es : List Event) (r : Running x b)
      → r.server.control_channels ≡ []
      → r.tasks ≡ []
      → All (Proved x (accepts es)) (run x b es r).server.control_channels
  run-Proved es r no_channels no_tasks =
      run-AllProved x (accepts es) b es r (λ c h. h)
        (record {
          channels = subst (AllProved x (accepts es)) (sym no_channels) tt;
          tasks = subst (All (TaskCame x (accepts es))) (sym no_tasks) tt;
        })
