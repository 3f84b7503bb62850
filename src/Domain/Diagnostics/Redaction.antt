-- ===== src/Domain/Diagnostics/Redaction.antt =====
-- catalogueEvidence under other serials, labels and names.
use Prim.Native.String.{String}
use eufy_mega_security.Prelude.{
  Eq_String, Option, none, some, List, [], ◌∷◌, ◌≡◌, refl, ap, ◌∙◌, map, beq-cases, arith,
}
use eufy_mega_security.Prelude.JsMap.{JsMap, get, put}
use eufy_mega_security.Domain.Names.{Text}
use eufy_mega_security.Domain.Reports.{
  PushDiagnostic, InventoryDiagnostic, CameraCapabilityManifest, DeviceCapabilityManifest,
  Diagnostics,
}
use eufy_mega_security.Domain.Diagnostics.{
  inventory_evidence, camera_evidence, device_evidence, index_from, model_of, type_of,
  event_evidence, catalogue_evidence,
}

-- Another account: its serials, its labels and its persons are others.
pub record Labels : Type 0 where
  pub serial_of : String → String
  pub device_name : InventoryDiagnostic → String
  pub camera_name : PushDiagnostic → Option String
  pub person_name : PushDiagnostic → Option Text

pub relabel_inventory : Labels → InventoryDiagnostic → InventoryDiagnostic
relabel_inventory l d = record d { serial = l.serial_of d.serial; name = l.device_name d }

pub relabel_push : Labels → PushDiagnostic → PushDiagnostic
relabel_push l p = record p {
  camera_serial = l.serial_of p.camera_serial;
  camera_name = l.camera_name p;
  person_name = l.person_name p;
}

pub relabel_camera : Labels → CameraCapabilityManifest → CameraCapabilityManifest
relabel_camera l c = record c { serial = l.serial_of c.serial }

pub relabel_device : Labels → DeviceCapabilityManifest → DeviceCapabilityManifest
relabel_device l c = record c { serial = l.serial_of c.serial }

pub relabel : Labels → Diagnostics → Diagnostics
unfolding relabel_inventory relabel_push relabel_camera relabel_device
relabel l d = record d {
  push = map (relabel_push l) d.push;
  inventory = map (relabel_inventory l) d.inventory;
  cameras = map (relabel_camera l) d.cameras;
  devices = map (relabel_device l) d.devices;
}

module _ {ℓ κ μ} {A : Type ℓ} {B : Type κ} {C : Type μ} where
  map-map_same :
      (f : B → C) (g : A → B) (h : A → C) (l : List A)
      → ((a : A) → f (g a) ≡ h a)
      → map f (map g l) ≡ map h l
  map-map_same f g h [] e = refl
  map-map_same f g h (a ∷ l) e = rw (e a, map-map_same f g h l e) refl

module _ (l : Labels) (distinct : (s t : String) → l.serial_of s ≡ l.serial_of t → s ≡ t) where
  relabel_index : JsMap String InventoryDiagnostic → JsMap String InventoryDiagnostic
  relabel_index [] = []
  relabel_index ((s, d) ∷ m) = (l.serial_of s, relabel_inventory l d) ∷ relabel_index m

  relabel_found : Option InventoryDiagnostic → Option InventoryDiagnostic
  relabel_found none = none
  relabel_found (some d) = some (relabel_inventory l d)

  put-relabel_index :
      (s : String) (d : InventoryDiagnostic) (m : JsMap String InventoryDiagnostic)
      → put (l.serial_of s) (relabel_inventory l d) (relabel_index m) ≡ relabel_index (put s d m)
  unfolding relabel_index
  put-relabel_index s d [] = refl
  put-relabel_index s d ((t, e) ∷ m) = ground (
    arith,
    beq-cases s t,
    beq-cases (l.serial_of s) (l.serial_of t),
    distinct s t,
    put-relabel_index s d m,
  )

  get-relabel_index :
      (s : String) (m : JsMap String InventoryDiagnostic)
      → get (l.serial_of s) (relabel_index m) ≡ relabel_found (get s m)
  unfolding relabel_index relabel_found
  get-relabel_index s [] = refl
  get-relabel_index s ((t, e) ∷ m) = ground (
    arith,
    beq-cases s t,
    beq-cases (l.serial_of s) (l.serial_of t),
    distinct s t,
    get-relabel_index s m,
  )

  index_from-relabel :
      (m : JsMap String InventoryDiagnostic) (ds : List InventoryDiagnostic)
      → index_from (relabel_index m) (map (relabel_inventory l) ds)
        ≡ relabel_index (index_from m ds)
  unfolding index_from relabel_inventory
  index_from-relabel m [] = refl
  index_from-relabel m (d ∷ ds) =
      ap (λ k. index_from k (map (relabel_inventory l) ds)) (put-relabel_index d.serial d m)
      ∙ index_from-relabel (put d.serial d m) ds

  event_evidence-relabel :
      (o : Option InventoryDiagnostic) (p : PushDiagnostic)
      → event_evidence (relabel_found o) (relabel_push l p) ≡ event_evidence o p
  unfolding event_evidence relabel_found relabel_push relabel_inventory model_of type_of
  event_evidence-relabel none p = refl
  event_evidence-relabel (some d) p = refl

  event-same :
      (d : Diagnostics) (p : PushDiagnostic)
      → event_evidence
          (get
            (relabel_push l p).camera_serial
            (index_from [] (map (relabel_inventory l) d.inventory)))
          (relabel_push l p)
        ≡ event_evidence (get p.camera_serial (index_from [] d.inventory)) p
  unfolding relabel_index relabel_push
  event-same d p =
      ap (λ m. event_evidence (get (l.serial_of p.camera_serial) m) (relabel_push l p))
        (index_from-relabel [] d.inventory)
      ∙ ap (λ o. event_evidence o (relabel_push l p))
          (get-relabel_index p.camera_serial (index_from [] d.inventory))
      ∙ event_evidence-relabel (get p.camera_serial (index_from [] d.inventory)) p

-- The evidence for a support report is the same of two accounts that differ in their serials, one to
-- one, in the labels of their devices and in the names of their persons: it tells none of these.
pub catalogue_evidence-relabel :
    (l : Labels) (d : Diagnostics)
    → ((s t : String) → l.serial_of s ≡ l.serial_of t → s ≡ t)
    → catalogue_evidence (relabel l d) ≡ catalogue_evidence d
unfolding catalogue_evidence relabel
catalogue_evidence-relabel l d distinct =
    rw
      (
        map-map_same inventory_evidence (relabel_inventory l) inventory_evidence d.inventory
            (λ e. unfold inventory_evidence relabel_inventory in refl),
        map-map_same camera_evidence (relabel_camera l) camera_evidence d.cameras
            (λ e. unfold camera_evidence relabel_camera in refl),
        map-map_same device_evidence (relabel_device l) device_evidence d.devices
            (λ e. unfold device_evidence relabel_device in refl),
        map-map_same
            (λ p.
              event_evidence
                (get p.camera_serial (index_from [] (map (relabel_inventory l) d.inventory))) p)
            (relabel_push l)
            (λ p. event_evidence (get p.camera_serial (index_from [] d.inventory)) p) d.push
            (event-same l distinct d),
      )
      refl
