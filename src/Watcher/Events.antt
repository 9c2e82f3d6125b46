-- ===== src/Watcher/Events.antt =====
-- The events of a rescan (rathole/src/config_watcher.rs: calculate_events, config_watcher).
use rathole_with_proxy.Base.{
  Bool, true, ◌≡◌, refl, ◌⊎◌, inl, inr, Option, none, some, List, [], ◌∷◌, ◌++◌, Eq, ◌==◌, Text,
  Bool-cases, arith,
}
use rathole_with_proxy.Config.{Config}
use rathole_with_proxy.Config.Equality.{
  bool_eq, server_service_eq, client_service_eq, same_config, same_server, same_client,
}
use rathole_with_proxy.Config.Validate.{ConfigError, Result, ok, err}
use rathole_with_proxy.Watcher.{
  ConfigChange, FileEvent, is_none, InstanceConfig, instance_events, calculate_events,
  config_watcher, server_instance, client_instance, calculate_instance_config_events, join_events,
  read_config, flatten,
}

instance_events_total :
    {T S : Type 0} ⦃e : Eq S⦄ (i : InstanceConfig T S) (same : T → T → Bool) (old new : Option T)
    → (is_none old == is_none new) ≡ true
    → (r : Option (List ConfigChange)) × (instance_events i same old new ≡ some r)
unfolding instance_events
instance_events_total i same none none h = (some [], refl)
instance_events_total i same none (some b) h = cc
instance_events_total i same (some a) none h = cc
instance_events_total i same (some a) (some b) h = elim (Bool-cases (same a b)) [
  | inl s ↦ (some [], rw s)
  | inr s ↦ (calculate_instance_config_events i a b, rw s)
]

joined :
    (new : Config) (a b : Option (List ConfigChange))
    → (r : List ConfigChange) × (join_events new (some a) (some b) ≡ some r)
joined new none b = (ConfigChange.general new ∷ [], refl)
joined new (some v) none = (ConfigChange.general new ∷ [], refl)
joined new (some v) (some w) = (v ++ w, refl)

pub calculate_events-total :
    (old new : Config) → (r : Option (List ConfigChange)) × (calculate_events old new ≡ some r)
unfolding calculate_events
calculate_events-total old new = elim (Bool-cases (same_config old new)) [
  | inl s ↦ (none, rw s)
  | inr s ↦ elim (Bool-cases (is_none old.server == is_none new.server)) [
    | inr a ↦ (some (ConfigChange.general new ∷ []), ground (arith))
    | inl a ↦ elim (Bool-cases (is_none old.client == is_none new.client)) [
      | inr b ↦ (some (ConfigChange.general new ∷ []), ground (arith))
      | inl b ↦
          let v = instance_events_total server_instance same_server old.server new.server a in
          let w = instance_events_total client_instance same_client old.client new.client b in
          let r = joined new v.0 w.0 in (some r.0, ground (arith, v.1, w.1, r.1))
    ]
  ]
]

-- The configuration that the last valid text of the file gives, before the end of the events.
unfoldable pub last_valid : (Text → Option Config) → Config → List FileEvent → Config
last_valid parse old [] = old
last_valid parse old (FileEvent.modified text ∷ es) = elim (read_config parse text) [
  | err e ↦ last_valid parse old es
  | ok new ↦ last_valid parse new es
]
last_valid parse old (FileEvent.closed ∷ es) = old
last_valid parse old (FileEvent.shutdown ∷ es) = old

Result-cases :
    {A : Type 0} (r : Result A) → ((e : ConfigError) × (r ≡ err e)) ⊎ ((a : A) × (r ≡ ok a))
Result-cases (err e) = inl (e, refl)
Result-cases (ok a) = inr (a, refl)

-- The watcher never panics, and in the end it holds the last valid configuration that the file
-- had before the notifications ended: a text that cannot be read or is invalid changes
-- nothing.
pub config_watcher-last_valid :
    (parse : Text → Option Config) (old : Config) (es : List FileEvent)
    → (v : List ConfigChange) × (config_watcher parse old es ≡ some (last_valid parse old es, v))
unfolding config_watcher last_valid
config_watcher-last_valid parse old [] = ([], refl)
config_watcher-last_valid parse old (FileEvent.closed ∷ es) = ([], refl)
config_watcher-last_valid parse old (FileEvent.shutdown ∷ es) = ([], refl)
config_watcher-last_valid parse old (FileEvent.modified text ∷ es) =
    elim (Result-cases (read_config parse text)) [
      | inl (e, q) ↦
          let rest = config_watcher-last_valid parse old es in (rest.0, ground (arith, q, rest.1))
      | inr (new, q) ↦
          let rest = config_watcher-last_valid parse new es in
          let r = calculate_events-total old new in
          (flatten r.0 ++ rest.0, ground (arith, q, r.1, rest.1))
    ]
