-- ===== src/Server/Reload.antt =====
-- Reloading the services of a running server (rathole/src/server.rs: handle_hot_reload, with the
-- events of rathole/src/config_watcher.rs).
use rathole_with_proxy.Base.{
  ◌≡◌, refl, ◌∙◌, sym, List, [], ◌∷◌, ◌++◌, map, some, inl, inr, Text, text_eq, HashMap, get, keys,
  arith, Bool-cases,
}
use rathole_with_proxy.Config.{ServerServiceConfig, ServerConfig}
use rathole_with_proxy.Config.Equality.{server_service_eq}
use rathole_with_proxy.Watcher.{
  ConfigChange, server_instance, deletions, addition, calculate_instance_config_events,
}
use rathole_with_proxy.Watcher.Changes.{
  DistinctKeys, Separate, Named, delete_all, add_all, start_all, start_all-start, changes-get,
}
use rathole_with_proxy.Protocol.{Codec, Digest}
use rathole_with_proxy.Server.{
  Server, reload, name_digest, insert_services, generate_service_hashmap, from, handle_hot_reload,
}

module _ (x : Codec) where
  reload-delete_all :
      (names : List Text) (s : Server)
      → (reload x (map server_instance.service_delete_change names) s).services
        ≡ delete_all (name_digest x) names s.services
  unfolding handle_hot_reload
  reload-delete_all [] s = refl
  reload-delete_all (n ∷ ns) s =
      reload-delete_all ns (handle_hot_reload x (server_instance.service_delete_change n) s)

  reload-add_all :
      (us : HashMap Text ServerServiceConfig) (s : Server)
      → (reload x (map (λ u. server_instance.service_add_change u.1) us) s).services
        ≡ add_all (name_digest x) (λ c. c.name) us s.services
  unfolding handle_hot_reload
  reload-add_all [] s = refl
  reload-add_all ((k, c) ∷ us) s =
      reload-add_all us (handle_hot_reload x (server_instance.service_add_change c) s)

  insert_services-start_all :
      (us : HashMap Text ServerServiceConfig) (ret : HashMap Digest ServerServiceConfig)
      → insert_services x us ret ≡ start_all (name_digest x) us ret
  insert_services-start_all [] ret = refl
  insert_services-start_all ((k, c) ∷ us) ret = insert_services-start_all us _

  reload-append :
      (v w : List ConfigChange) (s : Server) → reload x (v ++ w) s ≡ reload x w (reload x v s)
  reload-append [] w s = refl
  reload-append (e ∷ v) w s = reload-append v w (handle_hot_reload x e s)

  start-get :
      (k : Text) (c : ServerConfig)
      → Separate (name_digest x) k (keys c.services)
      → DistinctKeys c.services
      → get (name_digest x k) (from x c).services ≡ get k c.services
  unfolding from generate_service_hashmap
  start-get k c sep d =
      rw (insert_services-start_all c.services [])
        (start_all-start (name_digest x) k c.services sep d)

  events_of :
      (old new : ServerConfig) (v : List ConfigChange)
      → calculate_instance_config_events server_instance old new ≡ some v
      → (deletions server_instance old.services new.services
          ++ addition server_instance old.services new.services)
        ≡ v
  unfolding calculate_instance_config_events
  events_of old new v e = elim (Bool-cases (server_instance.equal_without_service old new)) [
    | inl h ↦ ground arith
    | inr h ↦ ground arith
  ]

  -- A server that runs with the services of the old configuration and gets the events of the
  -- new one has, for any name, the service of a server that starts with the new one. The
  -- rest of the configuration is unchanged, no other service has the digest of the name,
  -- keys are distinct, and the new services have the names of their keys, as validation
  -- leaves them.
  pub reload-from :
      (old new : ServerConfig) (s : Server) (v : List ConfigChange) (k : Text)
      → Separate (name_digest x) k (keys old.services)
      → Separate (name_digest x) k (keys new.services)
      → DistinctKeys old.services
      → DistinctKeys new.services
      → Named (name_digest x) (λ c. c.name) new.services
      → calculate_instance_config_events server_instance old new ≡ some v
      → get (name_digest x k) s.services ≡ get (name_digest x k) (from x old).services
      → get (name_digest x k) (reload x v s).services ≡ get (name_digest x k) (from x new).services
  reload-from old new s v k so sn od nd named e same =
      let dels = deletions server_instance old.services new.services in
      let adds = addition server_instance old.services new.services in
      rw
        (
          sym (events_of old new v e),
          reload-append dels adds s,
          reload-add_all _ (reload x dels s),
          reload-delete_all _ s,
          start-get k new sn nd,
        )
        (changes-get (name_digest x) (λ c. c.name) k old.services new.services s.services so sn nd
          named (same ∙ start-get k old so od))
