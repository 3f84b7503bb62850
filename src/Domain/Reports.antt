-- ===== src/Domain/Reports.antt =====
-- The interfaces of domain/types.ts that describe a device, a push message and their evidence. A time
-- of a push message is the list of its UTF-16 code units, and so is a person's name.
use Prim.Native.String.{String}
use eufy_mega_security.Prelude.{ℕ, Bool, Option, List}
use eufy_mega_security.Domain.Names.{Text}
use eufy_mega_security.Domain.Records.{EventReceiverState, DeliveryAge}

pub record PushDiagnostic : Type 0 where
  pub received_at : Text
  pub camera_serial : String
  pub camera_name : Option String
  pub type : Option ℕ
  pub event_type : Option ℕ
  pub message_type : Option ℕ
  pub notification_style : Option ℕ
  pub person_name : Option Text
  pub has_person_name : Bool
  pub has_picture_url : Bool
  pub has_file_path : Bool
  pub has_fetch_id : Bool
  pub has_sense_id : Bool

pub record EventDeliveryDiagnostic : Type 0 where
  pub receiver_state : EventReceiverState
  pub connection_count : ℕ
  pub disconnection_count : ℕ
  pub delivery_count : ℕ
  pub parsed_count : ℕ
  pub empty_count : ℕ
  pub unparsed_count : ℕ
  pub last_delivery_age : DeliveryAge

pub record InventoryDiagnostic : Type 0 where
  pub serial : String
  pub name : String
  pub model : String
  pub sources : List String
  pub upstream_is_camera : Bool
  pub accepted_as_camera : Bool
  pub mega_device_type : Option ℕ
  pub category : Option String
  pub camera_switch1035 : String

pub record CameraCapability : Type 0 where
  pub id : String
  pub kind : String
  pub unit : Option String
  pub evidence : String

pub record CapabilityMatrixRow : Type 0 where
  pub id : String
  pub family : String
  pub kind : String
  pub reported_param_ids : List ℕ
  pub device_evidence : String
  pub gateway_support : String
  pub offerable : Bool
  pub note : Option String

pub record CameraCapabilityManifest : Type 0 where
  pub serial : String
  pub model : String
  pub device_type : Option ℕ
  pub accepted_as_camera : Bool
  pub review_candidate : Bool
  pub peer_route_ready : Bool
  pub reason : String
  pub capabilities : List CameraCapability
  pub matrix : List CapabilityMatrixRow
  pub unmapped_param_ids : List ℕ
  pub unmapped_param_count : ℕ

pub record DeviceCapabilityManifest : Type 0 where
  pub serial : String
  pub model : String
  pub device_type : Option ℕ
  pub family : String
  pub recognized : Bool
  pub supported : Bool
  pub matrix : List CapabilityMatrixRow
  pub unmapped_param_count : ℕ

pub record CatalogueEventEvidence : Type 0 where
  pub observed_on : Text
  pub model : String
  pub device_type : Option ℕ
  pub type : Option ℕ
  pub event_type : Option ℕ
  pub message_type : Option ℕ
  pub notification_style : Option ℕ
  pub has_person_name : Bool
  pub has_picture_url : Bool
  pub has_file_path : Bool
  pub has_fetch_id : Bool
  pub has_sense_id : Bool

-- The diagnostics without what names a device or a person.
pub record InventoryEvidence : Type 0 where
  pub model : String
  pub sources : List String
  pub upstream_is_camera : Bool
  pub accepted_as_camera : Bool
  pub mega_device_type : Option ℕ
  pub category : Option String
  pub camera_switch1035 : String

pub record CameraEvidence : Type 0 where
  pub model : String
  pub device_type : Option ℕ
  pub accepted_as_camera : Bool
  pub review_candidate : Bool
  pub peer_route_ready : Bool
  pub reason : String
  pub capabilities : List CameraCapability
  pub matrix : List CapabilityMatrixRow
  pub unmapped_param_ids : List ℕ
  pub unmapped_param_count : ℕ

pub record DeviceEvidence : Type 0 where
  pub model : String
  pub device_type : Option ℕ
  pub family : String
  pub recognized : Bool
  pub supported : Bool
  pub matrix : List CapabilityMatrixRow
  pub unmapped_param_count : ℕ

pub record CatalogueEvidence : Type 0 where
  pub schema : ℕ
  pub inventory : List InventoryEvidence
  pub cameras : List CameraEvidence
  pub devices : List DeviceEvidence
  pub events : List CatalogueEventEvidence

pub record Diagnostics : Type 0 where
  pub push : List PushDiagnostic
  pub delivery : EventDeliveryDiagnostic
  pub last_delivery_at : Option ℕ
  pub inventory : List InventoryDiagnostic
  pub cameras : List CameraCapabilityManifest
  pub devices : List DeviceCapabilityManifest
