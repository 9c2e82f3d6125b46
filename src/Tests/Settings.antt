-- ===== src/Tests/Settings.antt =====
-- Inputs for rathole/src/config.rs and rathole/src/config_watcher.rs: a file whose one letter tells
-- the configuration.
use rathole_with_proxy.Base.{
  ◌≡◌, refl, Option, none, some, List, [], ◌∷◌, Text, text_eq, codes, HashMap, ◌==◌, if◌then◌else◌,
}
use rathole_with_proxy.Config.{ServiceType, ServerServiceConfig, Config, default_server}
use rathole_with_proxy.Config.Validate.{
  ok, fill_server, validate_transport_config, validate_server_config, from_str,
}
use rathole_with_proxy.Config.Validate.Ready.{Ready, from_str-Ready}
use rathole_with_proxy.Watcher.{ConfigChange, FileEvent, config_watcher}
use rathole_with_proxy.Watcher.Events.{last_valid, config_watcher-last_valid}

abbrev web : ServerServiceConfig
web = record {
  service_type = ServiceType.tcp;
  name = [];
  bind_addr = codes "0.0.0.0:80";
  token = none;
  nodelay = none;
}

abbrev services : HashMap Text ServerServiceConfig
services = (codes "web", web) ∷ []

abbrev config_with : Option Text → Config
config_with token = record {
  server = some (record default_server { default_token = token; services = services });
  client = none;
}

abbrev parse : Text → Option Config
parse s =
    if s == codes "a"
    then some (config_with (some (codes "abc")))
    else if s == codes "b"
    then some (config_with none)
    else none

-- What the text `a` gives: the service has its name and the default token.
abbrev validated : Config
validated = record {
  server = some (record default_server {
    default_token = some (codes "abc");
    services = (codes "web", record web { name = codes "web"; token = some (codes "abc") }) ∷ [];
  });
  client = none;
}

reads_a : from_str parse (codes "a") ≡ ok validated
unfolding from_str validate_server_config fill_server validate_transport_config
reads_a = refl

from_str-Ready_example : Ready validated
from_str-Ready_example = from_str-Ready parse (codes "a") validated reads_a

abbrev no_token : Option Text
no_token = none

-- An invalid text, an unreadable file, a valid text, and the end.
abbrev file_events : List FileEvent
file_events =
    FileEvent.modified (some (codes "b"))
    ∷ FileEvent.modified none
    ∷ FileEvent.modified (some (codes "a"))
    ∷ FileEvent.shutdown
    ∷ []

config_watcher-last_valid_example :
    (v : List ConfigChange) × (config_watcher parse (config_with none) file_events
      ≡ some (last_valid parse (config_with none) file_events, v))
config_watcher-last_valid_example = config_watcher-last_valid parse (config_with none) file_events
