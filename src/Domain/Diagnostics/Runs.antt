-- ===== src/Domain/Diagnostics/Runs.antt =====
-- Two pushes of one camera, and a receiver that connects.
use eufy_mega_security.Prelude.{◌-◌, true, false, none, some, List, [], ◌∷◌, ◌≡◌, drop, length}
use eufy_mega_security.Domain.Reports.{PushDiagnostic, InventoryDiagnostic, Diagnostics}
use eufy_mega_security.Domain.Records.{EventReceiverState}
use eufy_mega_security.Domain.Diagnostics.{
  no_diagnostics, catalogue_evidence, parsed, empty, unparsed, event_delivery_diagnostic,
  delivery_age,
}
use eufy_mega_security.Domain.Diagnostics.History.{
  push_all, push_all-last, Report, receiver, delivery, apply_reports, apply_reports-counts,
  count_deliveries, count_of, last_delivery,
}
use eufy_mega_security.Domain.Diagnostics.Redaction.{Labels, relabel, catalogue_evidence-relabel}

abbrev ring : PushDiagnostic
ring = record {
  received_at = 50 ∷ 48 ∷ [];
  camera_serial = "front";
  camera_name = some "Front door";
  type = some 1;
  event_type = some 3103;
  message_type = none;
  notification_style = none;
  person_name = none;
  has_person_name = false;
  has_picture_url = true;
  has_file_path = false;
  has_fetch_id = false;
  has_sense_id = false;
}

abbrev camera : InventoryDiagnostic
camera = record {
  serial = "front";
  name = "Front door";
  model = "T8210";
  sources = "mega" ∷ [];
  upstream_is_camera = true;
  accepted_as_camera = true;
  mega_device_type = some 5;
  category = none;
  camera_switch1035 = "one";
}

abbrev known : Diagnostics
known = record no_diagnostics { push = ring ∷ ring ∷ []; inventory = camera ∷ [] }

abbrev reports : List Report
reports = receiver EventReceiverState.connected ∷ delivery parsed 5 ∷ delivery empty 9 ∷ []

abbrev anonymous : Labels
anonymous = record {
  serial_of = λ s. s;
  device_name = λ d. "";
  camera_name = λ p. none;
  person_name = λ p. none;
}

push_all-last_example :
    (push_all (ring ∷ ring ∷ []) no_diagnostics).push
    ≡ drop (length (ring ∷ ring ∷ []) - 50) (ring ∷ ring ∷ [])
push_all-last_example = push_all-last (ring ∷ ring ∷ [])

apply_reports-counts_example :
    let d = event_delivery_diagnostic 90000 (apply_reports reports no_diagnostics) in
    (d.delivery_count ≡ count_deliveries reports)
    × ((d.parsed_count ≡ count_of parsed reports)
        × ((d.empty_count ≡ count_of empty reports)
            × ((d.unparsed_count ≡ count_of unparsed reports)
                × (d.last_delivery_age ≡ delivery_age (last_delivery none reports) 90000))))
apply_reports-counts_example = apply_reports-counts reports 90000

catalogue_evidence-relabel_example :
    catalogue_evidence (relabel anonymous known) ≡ catalogue_evidence known
catalogue_evidence-relabel_example = catalogue_evidence-relabel anonymous known (λ s t e. e)
