-- ===== src/Client/Run/Reload.antt =====
-- A change of the configuration of a running client (rathole/src/client.rs: Client::run and
-- handle_hot_reload, with the events of rathole/src/config_watcher.rs).
use rathole_with_proxy.Base.{
  ◌≡◌, refl, sym, List, [], ◌∷◌, ◌++◌, map, some, inl, inr, Text, text_eq, HashMap, get, keys,
  arith, Bool-cases,
}
use rathole_with_proxy.Config.{ClientServiceConfig, ClientConfig}
use rathole_with_proxy.Config.Equality.{client_service_eq}
use rathole_with_proxy.Watcher.{
  ConfigChange, client_instance, deletions, addition, calculate_instance_config_events,
}
use rathole_with_proxy.Watcher.Changes.{
  DistinctKeys, Separate, Named, delete_all, add_all, start_all, start_all-start, changes-get,
}
use rathole_with_proxy.Client as Client
use rathole_with_proxy.Client.{start, handle_hot_reload}
use rathole_with_proxy.Client.Run.{Event, wait, run}

-- The events of the watcher.
abbrev pub updates : List ConfigChange → List Event
updates v = map (λ e. Event.update (some e)) v

abbrev same : Text → Text
same n = n

abbrev handles : Client.Client → HashMap Text ClientServiceConfig
handles c = c.service_handles

wait-delete_all :
    (names : List Text) (c : Client.Client)
    → handles (wait (updates (map client_instance.service_delete_change names)) c)
      ≡ delete_all same names (handles c)
unfolding wait handle_hot_reload
wait-delete_all [] c = refl
wait-delete_all (n ∷ ns) c =
    wait-delete_all ns (handle_hot_reload (client_instance.service_delete_change n) c)

wait-add_all :
    (us : HashMap Text ClientServiceConfig) (c : Client.Client)
    → handles (wait (updates (map (λ u. client_instance.service_add_change u.1) us)) c)
      ≡ add_all same (λ s. s.name) us (handles c)
unfolding wait handle_hot_reload
wait-add_all [] c = refl
wait-add_all ((k, s) ∷ us) c =
    wait-add_all us (handle_hot_reload (client_instance.service_add_change s) c)

wait-append :
    (v w : List ConfigChange) (c : Client.Client)
    → wait (updates (v ++ w)) c ≡ wait (updates w) (wait (updates v) c)
unfolding wait
wait-append [] w c = refl
wait-append (e ∷ v) w c = wait-append v w (handle_hot_reload e c)

start_all-same :
    (us m : HashMap Text ClientServiceConfig) → Client.start_all us m ≡ start_all same us m
start_all-same [] m = refl
start_all-same ((k, s) ∷ us) m = start_all-same us _

-- Names are their own keys.
separate : (k : Text) (names : List Text) → Separate same k names
separate k [] = tt
separate k (n ∷ ns) = ((λ e. e), separate k ns)

start-get :
    (k : Text) (c : ClientConfig)
    → DistinctKeys c.services
    → get k (handles (start c)) ≡ get k c.services
unfolding start
start-get k c d =
    rw (start_all-same c.services [])
      (start_all-start same k c.services (separate k (keys c.services)) d)

events_of :
    (old new : ClientConfig) (v : List ConfigChange)
    → calculate_instance_config_events client_instance old new ≡ some v
    → (deletions client_instance old.services new.services
        ++ addition client_instance old.services new.services)
      ≡ v
unfolding calculate_instance_config_events
events_of old new v e = elim (Bool-cases (client_instance.equal_without_service old new)) [
  | inl h ↦ ground arith
  | inr h ↦ ground arith
]

-- A client that has started with the old configuration and gets the events of the new one runs, for
-- any name, the service that a client runs that starts with the new one. The rest of the
-- configuration is unchanged, keys are distinct, and the new services have the names of their
-- keys, as validation leaves them.
pub run-start :
    (old new : ClientConfig) (v : List ConfigChange) (k : Text)
    → DistinctKeys old.services
    → DistinctKeys new.services
    → Named same (λ s. s.name) new.services
    → calculate_instance_config_events client_instance old new ≡ some v
    → get k (run old (updates v)).service_handles ≡ get k (start new).service_handles
unfolding run
run-start old new v k od nd named e =
    let dels = deletions client_instance old.services new.services in
    let adds = addition client_instance old.services new.services in
    rw
      (
        sym (events_of old new v e),
        wait-append dels adds (start old),
        wait-add_all _ (wait (updates dels) (start old)),
        wait-delete_all _ (start old),
        start-get k new nd,
      )
      (changes-get same (λ s. s.name) k old.services new.services (start old).service_handles
        (separate k (keys old.services)) (separate k (keys new.services)) nd named
        (start-get k old od))
