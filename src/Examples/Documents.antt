-- ===== src/Examples/Documents.antt =====
-- A small store of JSON documents, a transport, and the parts of an endpoint.
use hakoniwa_pdu_endpoint.Prelude.{
  ℕ, Bool, true, false, Option, none, some, List, [], ◌∷◌, if◌then◌else◌, StdString, codes, ◌==◌,
  str_Eq,
}
use hakoniwa_pdu_endpoint.Types.{ok, io_error, unsupported, PduKey, PduResolvedKey, dir_inout}
use hakoniwa_pdu_endpoint.Json.{Json, Loaded, not_found, parsed}
use hakoniwa_pdu_endpoint.Cache.Buffer.{PduLatestBuffer}
use hakoniwa_pdu_endpoint.Cache.Dispatch.{latest}
use hakoniwa_pdu_endpoint.PduDefinition.{PduDef, PduDefinition}
use hakoniwa_pdu_endpoint.Endpoint.{Endpoint}
use hakoniwa_pdu_endpoint.Endpoint.Comm.{PduComm}
use hakoniwa_pdu_endpoint.Multiplexer.{CommMultiplexer, EndpointCommMultiplexer}
use hakoniwa_pdu_endpoint.Container.{EndpointOps, EndpointContainer, new_container}
use hakoniwa_pdu_endpoint.Container.Endpoints.{endpoint_ops}

mutual
  pub data Doc : Type 0 where
    text : StdString → Doc
    number : ℕ → Doc
    array : Docs → Doc
    object : Members → Doc

  pub data Docs : Type 0 where
    no_docs : Docs
    more_docs : Doc → Docs → Docs

  pub data Members : Type 0 where
    no_members : Members
    more_members : StdString → Doc → Members → Members

abbrev lookup : Members → StdString → Option Doc
lookup no_members key = none
lookup (more_members k d rest) key = if k == key then some d else lookup rest key

abbrev listed : Docs → List Doc
listed no_docs = []
listed (more_docs d ds) = d ∷ listed ds

abbrev doc_member : Doc → StdString → Option Doc
doc_member (object m) key = lookup m key
doc_member _ key = none

abbrev doc_text : Doc → Option StdString
doc_text (text s) = some s
doc_text _ = none

abbrev doc_number : Doc → Option ℕ
doc_number (number n) = some n
doc_number _ = none

abbrev doc_elements : Doc → List Doc
doc_elements (array ds) = listed ds
doc_elements _ = []

abbrev doc_is_array : Doc → Bool
doc_is_array (array ds) = true
doc_is_array _ = false

abbrev doc_is_object : Doc → Bool
doc_is_object (object m) = true
doc_is_object _ = false

abbrev cache_doc : Doc
cache_doc = object (
    more_members (codes "type") (text (codes "buffer")) (
      more_members (codes "store")
        (object (more_members (codes "mode") (text (codes "latest")) no_members)) no_members))

abbrev endpoint_doc : Doc
endpoint_doc = object (more_members (codes "cache") (text (codes "cache.json")) no_members)

-- A writer of a PDU that the table has under another channel.
abbrev pub writer_doc : Doc
writer_doc = object (
    more_members (codes "org_name") (text (codes "pos")) (
      more_members (codes "type") (text (codes "std_msgs/Int32")) (
        more_members (codes "channel_id") (number 9)
          (more_members (codes "pdu_size") (number 4) no_members))))

-- A configuration whose definition file is not there.
abbrev pub lost_definition : Doc
lost_definition = object (more_members (codes "pdu_def_path") (text (codes "lost.json")) no_members)

abbrev entry_doc : Doc
entry_doc = object (
    more_members (codes "id") (text (codes "ep1"))
      (more_members (codes "config_path") (text (codes "ep.json")) no_members))

abbrev bad_entry_doc : Doc
bad_entry_doc = object (
    more_members (codes "id") (text (codes "ep2"))
      (more_members (codes "config_path") (text (codes "none.json")) no_members))

abbrev node_doc : StdString → Docs → Doc
node_doc node entries = object (
    more_members (codes "nodeId") (text node)
      (more_members (codes "endpoints") (array entries) no_members))

abbrev container_doc : Doc
container_doc = array (
    more_docs (node_doc (codes "node1") (more_docs entry_doc no_docs)) (
      more_docs (node_doc (codes "node2") (more_docs entry_doc (more_docs bad_entry_doc no_docs)))
        no_docs))

abbrev address_doc : ℕ → Doc
address_doc port = object (
    more_members (codes "address") (text (codes "localhost"))
      (more_members (codes "port") (number port) no_members))

abbrev transport_doc : StdString → ℕ → Doc
transport_doc protocol port = object (
    more_members (codes "protocol") (text protocol) (
      more_members (codes "direction") (text (codes "inout")) (
        more_members (codes "role") (text (codes "server"))
          (more_members (codes "local") (address_doc port) no_members))))

abbrev files : StdString → Loaded Doc
files path =
    if path == codes "tcp.json"
    then parsed (transport_doc (codes "tcp") 5000)
    else if path == codes "taken.json"
    then parsed (transport_doc (codes "tcp") 80)
    else if path == codes "udp.json"
    then parsed (transport_doc (codes "udp") 80)
    else if path == codes "cache.json"
    then parsed cache_doc
    else if path == codes "ep.json"
    then parsed endpoint_doc
    else if path == codes "container.json"
    then parsed container_doc
    else not_found

abbrev pub documents : Json
documents = record {
  Value = Doc;
  member = doc_member;
  is_null = λ _. false;
  is_array = doc_is_array;
  is_object = doc_is_object;
  get_string = doc_text;
  get_int = doc_number;
  get_size = doc_number;
  get_bool = λ _. none;
  elements = doc_elements;
  load = files;
  parent_path = λ _. [];
  is_absolute = λ _. false;
  lexically_normal = λ p. p;
  join = λ base p. p;
}

-- A transport whose state is whether it runs, and whose stop fails.
abbrev pub transport : PduComm
transport = record {
  Comm = Bool;
  make = λ _. false;
  set_pdu_definition = λ c _. c;
  create_channels = λ c _. (c, ok);
  open_comm = λ c _. (c, ok);
  close_comm = λ c. (false, ok);
  start_comm = λ c. (true, ok);
  post_start_comm = λ c. (c, ok);
  stop_comm = λ c. (c, io_error);
  comm_running = λ c. (ok, c);
  send_comm = λ c _ _. (c, ok);
  recv_comm = λ c _ span n. (c, record { errcode = unsupported; bytes = span; received_size = 0 });
  set_on_recv_callback = λ c _. c;
  poll_comm = λ c. (c, []);
}

abbrev pub key : PduResolvedKey
key = record { robot = codes "Drone"; channel_id = 3 }

abbrev pub other_key : PduResolvedKey
other_key = record { robot = codes "Drone"; channel_id = 4 }

abbrev pub name_key : PduKey
name_key = record { robot = codes "Drone"; pdu = codes "pos" }

abbrev pub pos_def : PduDef
pos_def = record {
  type = codes "geometry_msgs/Twist";
  org_name = codes "pos";
  name = codes "Drone_pos";
  channel_id = 3;
  pdu_size = 72;
  method_type = codes "SHM";
}

abbrev pub table : PduDefinition
table = (codes "Drone", (codes "pos", pos_def) ∷ []) ∷ []

abbrev pub buffer : PduLatestBuffer
buffer = record { buffers = []; is_running = true }

abbrev pub local_endpoint : Endpoint Bool
local_endpoint = record {
  name = codes "ep";
  direction = dir_inout;
  pdu_def = some table;
  cache = some (latest buffer);
  comm = none;
  per_pdu_callbacks = (key, 7) ∷ (other_key, 8) ∷ [];
}

abbrev pub remote_endpoint : Endpoint Bool
remote_endpoint = record local_endpoint { comm = some true }

abbrev pub ops : EndpointOps
ops = endpoint_ops documents transport (λ m. m)

abbrev pub container : EndpointContainer (Endpoint Bool)
container = record (new_container (codes "node1") (codes "container.json")) {
  cache = (codes "a", remote_endpoint) ∷ (codes "b", local_endpoint) ∷ [];
  initialized = true;
}

abbrev pub new_node : StdString → EndpointContainer (Endpoint Bool)
new_node node = new_container node (codes "container.json")

-- A multiplexer that has accepted two sessions.
abbrev pub accepted : CommMultiplexer Bool
accepted = record {
  Mux = List Bool;
  make_tcp = [];
  open_mux = λ m path. (m, ok);
  close_mux = λ m. ([], ok);
  start_mux = λ m. (m, ok);
  stop_mux = λ m. (m, ok);
  take_sessions = λ m. ([], m);
  connected_count = λ m. 2;
  expected_count = λ m. 2;
}

abbrev pub multiplexer : EndpointCommMultiplexer (List Bool)
multiplexer = record {
  name = codes "mux";
  direction = dir_inout;
  endpoint_config_path = codes "ep.json";
  base_dir = [];
  comm = some (false ∷ false ∷ []);
  endpoint_seq = 0;
}
