-- ===== src/Container.antt =====
-- include/hakoniwa/pdu/endpoint_container.hpp and src/endpoint_container.cpp: EndpointContainer, its
-- state and the parts of it that keep the map `cache_` of endpoints. The mutex makes each operation one
-- step. The order in which the hash map is walked is the library's, so it is a parameter.
pub mod Entries
pub mod Walk
pub mod Setup
pub mod Single
pub mod FirstError
pub mod Initialized
pub mod Released
pub mod Endpoints
use hakoniwa_pdu_endpoint.Prelude.{
  ℕ, Bool, true, false, Option, none, some, List, [], ◌∷◌, ◌++◌, if◌then◌else◌, StdString, str_Eq,
  codes,
}
use hakoniwa_pdu_endpoint.Prelude.Map.{Map, find, assign}
use hakoniwa_pdu_endpoint.Types.{
  HakoPduErrorType, ok, invalid_argument, out_of_memory, io_error, no_space, busy, timeout,
  no_entry, file_not_found, invalid_json, invalid_config, not_running, unsupported, invalid_pdu_key,
  not_owner, Direction, dir_inout,
}

pub record EndpointEntry : Type 0 where
  pub id : StdString
  pub config_path : StdString
  pub direction : Option Direction
  pub mode : Option StdString

-- What the container uses of an Endpoint.
pub record EndpointOps : Type 1 where
  pub Ep : Type 0
  pub make : StdString → Direction → Ep
  pub create_channels : Ep → StdString → Ep × HakoPduErrorType
  pub open_ep : Ep → StdString → Ep × HakoPduErrorType
  pub start_ep : Ep → Ep × HakoPduErrorType
  pub post_start_ep : Ep → Ep × HakoPduErrorType
  pub stop_ep : Ep → Ep × HakoPduErrorType
  pub close_ep : Ep → Ep × HakoPduErrorType
  -- The reply of `is_running`, and what it stores in a variable that is false.
  pub ep_running : Ep → HakoPduErrorType × Bool
  -- The order in which a `std::unordered_map` with these entries is walked.
  pub walk_order : Map StdString Ep → Map StdString Ep

pub record EndpointContainer (Ep : Type 0) : Type 0 where
  pub node_id : StdString
  pub container_config_path : StdString
  pub entries : List EndpointEntry
  pub cache : Map StdString Ep
  pub initialized : Bool
  pub last_error : StdString
  -- The endpoints that left the map, in the states in which they left it.
  pub released : Map StdString Ep

-- The constructor.
abbrev pub new_container : {Ep : Type 0} → StdString → StdString → EndpointContainer Ep
new_container node_id path = record {
  node_id = node_id;
  container_config_path = path;
  entries = [];
  cache = [];
  initialized = false;
  last_error = [];
  released = [];
}

abbrev pub default_dir : Direction
default_dir = dir_inout

abbrev pub not_initialized : StdString
not_initialized = codes "EndpointContainer is not initialized."

abbrev pub fail : {Ep : Type 0} → EndpointContainer Ep → StdString → EndpointContainer Ep
fail c message = record c { last_error = message }

-- `std::to_string(static_cast<int>(err))`
abbrev pub to_string : HakoPduErrorType → StdString
to_string ok = codes "0"
to_string invalid_argument = codes "1"
to_string out_of_memory = codes "2"
to_string io_error = codes "3"
to_string no_space = codes "4"
to_string busy = codes "5"
to_string timeout = codes "6"
to_string no_entry = codes "7"
to_string file_not_found = codes "8"
to_string invalid_json = codes "9"
to_string invalid_config = codes "10"
to_string not_running = codes "11"
to_string unsupported = codes "12"
to_string invalid_pdu_key = codes "13"
to_string not_owner = codes "14"

-- The text on an endpoint that failed.
abbrev pub failed_at : StdString → StdString → HakoPduErrorType → StdString
failed_at what id err = what ++ id ++ codes " err=" ++ to_string err
