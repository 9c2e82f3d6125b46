-- ===== src/Watcher.antt =====
-- What a change of the configuration file makes of the running instances
-- (rathole/src/config_watcher.rs). The file and its notifications are the events of a list.
pub mod Events
pub mod Changes
use rathole_with_proxy.Base.{
  Bool, true, false, ◌&&◌, ◌||◌, not, Option, none, some, List, [], ◌∷◌, ◌++◌, map, Eq, ◌==◌,
  if◌then◌else◌, filter, Text, text_eq, HashMap, keys, get,
}
use rathole_with_proxy.Config.{
  ClientServiceConfig, ServerServiceConfig, ClientConfig, ServerConfig, Config,
}
use rathole_with_proxy.Config.Equality.{
  option_eq, bool_eq, client_service_eq, server_service_eq, same_client, same_server, same_option,
  same_config,
}
use rathole_with_proxy.Config.Validate.{ConfigError, Result, ok, err, from_str}

pub data ClientServiceChange : Type 0 where
  add : ClientServiceConfig → ClientServiceChange
  delete : Text → ClientServiceChange

pub data ServerServiceChange : Type 0 where
  add : ServerServiceConfig → ServerServiceChange
  delete : Text → ServerServiceChange

pub data ConfigChange : Type 0 where
  general : Config → ConfigChange
  server_change : ServerServiceChange → ConfigChange
  client_change : ClientServiceChange → ConfigChange

-- The trait, with its type of services `S`.
pub record InstanceConfig (T S : Type 0) : Type 0 where
  pub equal_without_service : T → T → Bool
  pub service_delete_change : Text → ConfigChange
  pub service_add_change : S → ConfigChange
  pub get_services : T → HashMap Text S

abbrev pub server_instance : InstanceConfig ServerConfig ServerServiceConfig
server_instance = record {
  equal_without_service =
      λ l r. same_server (record l { services = [] }) (record r { services = [] });
  service_delete_change = λ s. ConfigChange.server_change (ServerServiceChange.delete s);
  service_add_change = λ c. ConfigChange.server_change (ServerServiceChange.add c);
  get_services = λ l. l.services;
}

abbrev pub client_instance : InstanceConfig ClientConfig ClientServiceConfig
client_instance = record {
  equal_without_service =
      λ l r. same_client (record l { services = [] }) (record r { services = [] });
  service_delete_change = λ s. ConfigChange.client_change (ClientServiceChange.delete s);
  service_add_change = λ c. ConfigChange.client_change (ClientServiceChange.add c);
  get_services = λ l. l.services;
}

abbrev pub is_none : {A : Type 0} → Option A → Bool
is_none none = true
is_none (some a) = false

module _ {T S : Type 0} ⦃e : Eq S⦄ (i : InstanceConfig T S) where
  abbrev pub deletions : HashMap Text S → HashMap Text S → List ConfigChange
  deletions old new =
      map i.service_delete_change (filter (λ name. is_none (get name new)) (keys old))

  abbrev pub addition : HashMap Text S → HashMap Text S → List ConfigChange
  addition old new =
      map (λ c. i.service_add_change c.1) (filter (λ c. not (get c.0 old == some c.1)) new)

  -- `none` asks for a general change.
  unfoldable pub calculate_instance_config_events : T → T → Option (List ConfigChange)
  calculate_instance_config_events old new =
      if i.equal_without_service old new
      then some (
          deletions (i.get_services old) (i.get_services new)
          ++ addition (i.get_services old) (i.get_services new))
      else none

  -- The events of one kind of instance, which must be there on both sides when they differ. The
  -- outer `none` is the panic of `unwrap`.
  unfoldable pub instance_events :
      (T → T → Bool) → Option T → Option T → Option (Option (List ConfigChange))
  unfolding calculate_instance_config_events
  instance_events same none none = some (some [])
  instance_events same none (some b) = none
  instance_events same (some a) none = none
  instance_events same (some a) (some b) =
      if same a b then some (some []) else some (calculate_instance_config_events a b)

-- The events of the servers, then those of the clients, unless one of them asks for a restart.
abbrev pub join_events :
    Config
    → Option (Option (List ConfigChange))
    → Option (Option (List ConfigChange))
    → Option (List ConfigChange)
join_events new none client = none
join_events new (some none) client = some (ConfigChange.general new ∷ [])
join_events new (some (some v)) none = none
join_events new (some (some v)) (some none) = some (ConfigChange.general new ∷ [])
join_events new (some (some v)) (some (some w)) = some (v ++ w)

-- The outer `none` is a panic, the inner one the `None` of the source.
unfoldable pub calculate_events : Config → Config → Option (Option (List ConfigChange))
unfolding instance_events
calculate_events old new =
    if same_config old new
    then some none
    else if (not (is_none old.server == is_none new.server)
        || not (is_none old.client == is_none new.client))
    then some (some (ConfigChange.general new ∷ []))
    else elim (join_events new (instance_events server_instance same_server old.server new.server)
        (instance_events client_instance same_client old.client new.client)) [
          | none ↦ none
          | some v ↦ some (some v)
        ]

-- `Option::into_iter().flatten()`
abbrev pub flatten : Option (List ConfigChange) → List ConfigChange
flatten none = []
flatten (some v) = v

-- What the loop of config_watcher meets: a modification of the file, whose text may be unreadable,
-- or the end of the notifications, or the signal to shut down.
pub data FileEvent : Type 0 where
  modified : (text : Option Text) → FileEvent
  closed shutdown : FileEvent

-- A new configuration: the events go out, then it becomes the old one.
abbrev pub rescan : Config → Result Config → Option (Config × List ConfigChange)
rescan old (err e) = some (old, [])
rescan old (ok new) = elim (calculate_events old new) [
  | none ↦ none
  | some v ↦ some (new, flatten v)
]

abbrev pub read_config : (Text → Option Config) → Option Text → Result Config
read_config parse none = err ConfigError.not_readable
read_config parse (some text) = from_str parse text

abbrev pub prepend :
    List ConfigChange → Option (Config × List ConfigChange) → Option (Config × List ConfigChange)
prepend v none = none
prepend v (some (old, w)) = some (old, v ++ w)

-- The loop of config_watcher over what it meets: the configuration that it holds in the end, and
-- the events that it has sent.
unfoldable pub config_watcher :
    (Text → Option Config) → Config → List FileEvent → Option (Config × List ConfigChange)
unfolding calculate_events
config_watcher parse old [] = some (old, [])
config_watcher parse old (FileEvent.modified text ∷ es) =
    elim (rescan old (read_config parse text)) [
      | none ↦ none
      | some (new, v) ↦ prepend v (config_watcher parse new es)
    ]
config_watcher parse old (FileEvent.closed ∷ es) = some (old, [])
config_watcher parse old (FileEvent.shutdown ∷ es) = some (old, [])

-- ConfigWatcherHandle::new sends the first configuration as a general change.
unfoldable pub start_watcher :
    (Text → Option Config)
    → Option Text
    → List FileEvent
    → Option (Result (Config × List ConfigChange))
unfolding config_watcher
start_watcher parse text es = elim (read_config parse text) [
  | err e ↦ some (err e)
  | ok origin ↦ elim (prepend (ConfigChange.general origin ∷ []) (config_watcher parse origin es)) [
    | none ↦ none
    | some r ↦ some (ok r)
  ]
]
