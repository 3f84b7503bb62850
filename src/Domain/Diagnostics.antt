-- ===== src/Domain/Diagnostics.antt =====
-- The diagnostics that GatewayState keeps beside its cameras: no operation reads both. `receivedAt` is
-- the list of its UTF-16 code units, as slice(0, 10) cuts it.
pub mod History
pub mod Redaction
mod Runs
use Prim.Native.String.{String}
use eufy_mega_security.Prelude.{
  Eq_String, ℕ, ◌+◌, ◌-◌, Option, none, some, List, [], ◌∷◌, ◌++◌, map, take, drop, length, ltb,
  if◌then◌else◌,
}
use eufy_mega_security.Prelude.JsMap.{JsMap, get, put}
use eufy_mega_security.Domain.Records.{EventReceiverState, DeliveryAge}
use eufy_mega_security.Domain.Reports.{
  PushDiagnostic, EventDeliveryDiagnostic, InventoryDiagnostic, CameraCapabilityManifest,
  DeviceCapabilityManifest, CatalogueEventEvidence, InventoryEvidence, CameraEvidence,
  DeviceEvidence, CatalogueEvidence, Diagnostics,
}
use eufy_mega_security.Domain.Records.DeliveryAge.{
  no_delivery, under_one_minute, one_to_five_minutes, five_to_thirty_minutes, over_thirty_minutes,
}

unfoldable pub no_diagnostics : Diagnostics
no_diagnostics = record {
  push = [];
  delivery = record {
    receiver_state = EventReceiverState.stopped;
    connection_count = 0;
    disconnection_count = 0;
    delivery_count = 0;
    parsed_count = 0;
    empty_count = 0;
    unparsed_count = 0;
    last_delivery_age = no_delivery;
  };
  last_delivery_at = none;
  inventory = [];
  cameras = [];
  devices = [];
}

unfoldable pub bound_history {ℓ} : {A : Type ℓ} → List A → List A
bound_history l = if ltb 50 (length l) then drop 1 l else l

unfoldable pub record_push_diagnostic : PushDiagnostic → Diagnostics → Diagnostics
unfolding bound_history
record_push_diagnostic p d = record d { push = bound_history (d.push ++ (p ∷ [])) }

pub data DeliveryOutcome : Type 0 where
  parsed empty unparsed : DeliveryOutcome

unfoldable pub is_connected : EventReceiverState → ℕ
is_connected EventReceiverState.connected = 1
is_connected _ = 0

unfoldable pub is_disconnected : EventReceiverState → ℕ
is_disconnected EventReceiverState.disconnected = 1
is_disconnected _ = 0

unfoldable pub record_event_receiver_state : EventReceiverState → Diagnostics → Diagnostics
unfolding is_connected is_disconnected
record_event_receiver_state state d = record d {
  delivery = record d.delivery {
    receiver_state = state;
    connection_count = d.delivery.connection_count + is_connected state;
    disconnection_count = d.delivery.disconnection_count + is_disconnected state;
  };
}

unfoldable pub is_parsed : DeliveryOutcome → ℕ
is_parsed parsed = 1
is_parsed _ = 0

unfoldable pub is_empty : DeliveryOutcome → ℕ
is_empty empty = 1
is_empty _ = 0

unfoldable pub is_unparsed : DeliveryOutcome → ℕ
is_unparsed unparsed = 1
is_unparsed _ = 0

unfoldable pub record_event_delivery : DeliveryOutcome → ℕ → Diagnostics → Diagnostics
unfolding is_parsed is_empty is_unparsed
record_event_delivery outcome at d = record d {
  last_delivery_at = some at;
  delivery = record d.delivery {
    delivery_count = d.delivery.delivery_count + 1;
    parsed_count = d.delivery.parsed_count + is_parsed outcome;
    empty_count = d.delivery.empty_count + is_empty outcome;
    unparsed_count = d.delivery.unparsed_count + is_unparsed outcome;
    last_delivery_age = under_one_minute;
  };
}

-- A clock that went back counts as no time.
unfoldable pub delivery_age : Option ℕ → ℕ → DeliveryAge
delivery_age none now = no_delivery
delivery_age (some at) now =
    if ltb (now - at) 60000
    then under_one_minute
    else if ltb (now - at) 300000
    then one_to_five_minutes
    else if ltb (now - at) 1800000
    then five_to_thirty_minutes
    else over_thirty_minutes

unfoldable pub event_delivery_diagnostic : ℕ → Diagnostics → EventDeliveryDiagnostic
unfolding delivery_age
event_delivery_diagnostic now d = record d.delivery {
  last_delivery_age = delivery_age d.last_delivery_at now;
}

unfoldable pub update_inventory_diagnostics : List InventoryDiagnostic → Diagnostics → Diagnostics
update_inventory_diagnostics l d = record d { inventory = l }

unfoldable pub update_camera_capabilities :
    List CameraCapabilityManifest → Diagnostics → Diagnostics
update_camera_capabilities l d = record d { cameras = l }

unfoldable pub update_device_capabilities :
    List DeviceCapabilityManifest → Diagnostics → Diagnostics
update_device_capabilities l d = record d { devices = l }

unfoldable pub inventory_evidence : InventoryDiagnostic → InventoryEvidence
inventory_evidence d = record {
  model = d.model;
  sources = d.sources;
  upstream_is_camera = d.upstream_is_camera;
  accepted_as_camera = d.accepted_as_camera;
  mega_device_type = d.mega_device_type;
  category = d.category;
  camera_switch1035 = d.camera_switch1035;
}

unfoldable pub camera_evidence : CameraCapabilityManifest → CameraEvidence
camera_evidence d = record {
  model = d.model;
  device_type = d.device_type;
  accepted_as_camera = d.accepted_as_camera;
  review_candidate = d.review_candidate;
  peer_route_ready = d.peer_route_ready;
  reason = d.reason;
  capabilities = d.capabilities;
  matrix = d.matrix;
  unmapped_param_ids = d.unmapped_param_ids;
  unmapped_param_count = d.unmapped_param_count;
}

unfoldable pub device_evidence : DeviceCapabilityManifest → DeviceEvidence
device_evidence d = record {
  model = d.model;
  device_type = d.device_type;
  family = d.family;
  recognized = d.recognized;
  supported = d.supported;
  matrix = d.matrix;
  unmapped_param_count = d.unmapped_param_count;
}

-- `new Map(entries)`: of two devices with one serial the later stays.
unfoldable pub index_from :
    JsMap String InventoryDiagnostic → List InventoryDiagnostic → JsMap String InventoryDiagnostic
index_from m [] = m
index_from m (d ∷ l) = index_from (put d.serial d m) l

unfoldable pub model_of : Option InventoryDiagnostic → String
model_of none = "unknown"
model_of (some d) = d.model

unfoldable pub type_of : Option InventoryDiagnostic → Option ℕ
type_of none = none
type_of (some d) = d.mega_device_type

unfoldable pub event_evidence : Option InventoryDiagnostic → PushDiagnostic → CatalogueEventEvidence
unfolding model_of type_of
event_evidence found p = record {
  observed_on = take 10 p.received_at;
  model = model_of found;
  device_type = type_of found;
  type = p.type;
  event_type = p.event_type;
  message_type = p.message_type;
  notification_style = p.notification_style;
  has_person_name = p.has_person_name;
  has_picture_url = p.has_picture_url;
  has_file_path = p.has_file_path;
  has_fetch_id = p.has_fetch_id;
  has_sense_id = p.has_sense_id;
}

unfoldable pub catalogue_evidence : Diagnostics → CatalogueEvidence
unfolding inventory_evidence camera_evidence device_evidence index_from event_evidence
catalogue_evidence d = record {
  schema = 1;
  inventory = map inventory_evidence d.inventory;
  cameras = map camera_evidence d.cameras;
  devices = map device_evidence d.devices;
  events = map (λ p. event_evidence (get p.camera_serial (index_from [] d.inventory)) p) d.push;
}
