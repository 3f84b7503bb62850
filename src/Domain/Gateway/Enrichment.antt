-- ===== src/Domain/Gateway/Enrichment.antt =====
-- The name that comes after its detection: enrichPersonName and enrichDoorbellName.
use Prim.Native.String.{String}
use eufy_mega_security.Prelude.{
  Eq_String, true, false, ◌==◌, Option, none, some, List, [], ◌∷◌, ◌≡◌, ◌≢◌, refl, sym, ap, ◌∙◌,
  ◌⊎◌, inl, inr, arith, Option-cases, Bool-cases, beq-cases,
}
use eufy_mega_security.Prelude.JsMap.{get, put, get-put_self}
use eufy_mega_security.Domain.Kinds.{DetectionKind, motion, person, doorbell, other, Eq_OtherKind}
use eufy_mega_security.Domain.Names.{Text, normalize_person_name}
use eufy_mega_security.Domain.Records.{Detection}
use eufy_mega_security.Domain.Gateway.{Camera, Gateway, Event, Outcome, emit_camera, camera_state}
use eufy_mega_security.Domain.Gateway.Event.{camera_updated}
use eufy_mega_security.Domain.Gateway.Cameras.{with_camera, on_found}
use eufy_mega_security.Domain.Gateway.Updates.{
  owner_of, owned, same_kind, admits, enrichable, named, join_name, enrich_name,
}

pub with_camera-some :
    (serial : String) (g : Gateway) (body : Camera → Gateway × List Event) (c : Camera)
    → get serial g.cameras ≡ some c
    → with_camera serial g body ≡ some (body c)
unfolding with_camera on_found
with_camera-some serial g body c e = ap (λ o. on_found o body) e

same_kind-same : (k j : DetectionKind) → same_kind k j ≡ true → k ≡ j
unfolding same_kind
same_kind-same motion motion h = refl
same_kind-same motion person h = ground arith
same_kind-same motion doorbell h = ground arith
same_kind-same motion (other j) h = ground arith
same_kind-same person motion h = ground arith
same_kind-same person person h = refl
same_kind-same person doorbell h = ground arith
same_kind-same person (other j) h = ground arith
same_kind-same doorbell motion h = ground arith
same_kind-same doorbell person h = ground arith
same_kind-same doorbell doorbell h = refl
same_kind-same doorbell (other j) h = ground arith
same_kind-same (other k) motion h = ground arith
same_kind-same (other k) person h = ground arith
same_kind-same (other k) doorbell h = ground arith
same_kind-same (other k) (other j) h = ground (arith, beq-cases k j)

owned-true : (source : String) (o : Option String) → owned source o ≡ true → o ≡ some source
unfolding owned
owned-true source none h = ground arith
owned-true source (some s) h = ground (arith, beq-cases s source)

admits-some :
    (source : String) (owner : Option String) (kind : DetectionKind) (o : Option Detection)
    (d : Detection)
    → admits source owner kind o ≡ some d
    → (o ≡ some d)
      × ((d.recognized ≡ false)
          × ((same_kind d.kind kind ≡ true) × ((owned source owner ≡ true) × (source ≢ ""))))
unfolding admits
admits-some source owner kind none d h = ground arith
admits-some source owner kind (some p) d h = ground (
  arith,
  beq-cases source "",
  Bool-cases (owned source owner),
  Bool-cases p.recognized,
  Bool-cases (same_kind p.kind kind),
)

-- The conditions under which a detection may take the name.
pub enrichable-some :
    (source : String) (kind : DetectionKind) (c : Camera) (d : Detection)
    → enrichable source kind c ≡ some d
    → (c.last_detection ≡ some d)
      × ((d.kind ≡ kind)
          × ((d.recognized ≡ false) × ((owner_of kind c ≡ some source) × (source ≢ ""))))
unfolding enrichable
enrichable-some source kind c d h =
    let a = admits-some source (owner_of kind c) kind c.last_detection d h in
    (
      a.0,
      (
        same_kind-same d.kind kind a.1.1.0,
        (a.1.0, (owned-true source (owner_of kind c) a.1.1.1.0, a.1.1.1.1)),
      ),
    )

admits-named :
    (source : String) (owner : Option String) (kind : DetectionKind) (name : Text) (d : Detection)
    → admits source owner kind (some (named name d)) ≡ none
unfolding admits named
admits-named source owner kind name d = ground (
  arith,
  Bool-cases (source == ""),
  Bool-cases (owned source owner),
  Bool-cases (same_kind d.kind kind),
)

join_name-none :
    (serial : String) (c : Camera) (g : Gateway) (name : Option Text)
    → join_name serial c g name none ≡ (g, [])
unfolding join_name
join_name-none serial c g none = refl
join_name-none serial c g (some name) = refl

-- What a name does to the camera that is found.
pub joined : Text → Detection → Camera → Camera
unfolding named
joined name d c = record c { last_detection = some (named name d) }

pub enrich_name-found :
    (serial source : String) (name : Text) (kind : DetectionKind) (g : Gateway) (c : Camera)
    → get serial g.cameras ≡ some c
    → enrich_name serial source name kind g
      ≡ some (join_name serial c g (normalize_person_name (some name)) (enrichable source kind c))
unfolding enrich_name
enrich_name-found serial source name kind g c e = with_camera-some serial g _ c e

named-refused :
    (serial source : String) (text name : Text) (kind : DetectionKind) (g : Gateway) (c : Camera)
    (d : Detection)
    → get serial g.cameras ≡ some (joined text d c)
    → enrich_name serial source name kind g ≡ some (g, [])
unfolding joined enrichable
named-refused serial source text name kind g c d e =
    enrich_name-found serial source name kind g (joined text d c) e
    ∙ ap (λ o. some (join_name serial (joined text d c) g (normalize_person_name (some name)) o))
        (admits-named source (owner_of kind (joined text d c)) kind text d)
    ∙ ap some (join_name-none serial (joined text d c) g (normalize_person_name (some name)))

join_name-cases :
    (serial : String) (c : Camera) (g : Gateway) (name : Option Text) (previous : Option Detection)
    → (join_name serial c g name previous ≡ (g, []))
      ⊎ ((text : Text) × ((d : Detection) × ((name ≡ some text)
              × ((previous ≡ some d)
                  × (join_name serial c g name previous ≡ (
                    record g { cameras = put serial (joined text d c) g.cameras },
                    camera_updated (camera_state (joined text d c)) ∷ [],
                  ))))))
unfolding join_name joined emit_camera
join_name-cases serial c g none previous = inl refl
join_name-cases serial c g (some text) none = inl refl
join_name-cases serial c g (some text) (some d) = inr (text, (d, (refl, (refl, refl))))

-- Of a registered camera, a later name does nothing and emits nothing, or it is accepted: the camera's
-- last detection then is of the wanted kind, was not recognised, and belongs to the given identity,
-- which is not empty; only its name and its recognition change, in place, and the one event emitted
-- shows the camera, so no second detection is published.
pub enrich_name-result :
    (serial source : String) (name : Text) (kind : DetectionKind) (g : Gateway) (c : Camera)
    → get serial g.cameras ≡ some c
    → (enrich_name serial source name kind g ≡ some (g, []))
      ⊎ ((text : Text) × ((d : Detection) × ((normalize_person_name (some name) ≡ some text)
              × ((c.last_detection ≡ some d)
                  × ((d.kind ≡ kind)
                      × ((d.recognized ≡ false)
                          × ((owner_of kind c ≡ some source)
                              × ((source ≢ "")
                                  × (enrich_name serial source name kind g
                                      ≡ some (
                                        record g {
                                          cameras =
                                              put serial
                                                (record c { last_detection = some (named text d) })
                                                g.cameras;
                                        },
                                        camera_updated (
                                              camera_state
                                                (record c { last_detection = some (named text d) }))
                                            ∷ [],
                                      ))))))))))
unfolding joined
enrich_name-result serial source name kind g c e =
    let found = enrich_name-found serial source name kind g c e in
    elim (join_name-cases serial c g (normalize_person_name (some name))
      (enrichable source kind c)) [
        | inl idle ↦ inl (found ∙ ap some idle)
        | inr (text, (d, (en, (ep, ej)))) ↦
            let a = enrichable-some source kind c d ep in
            inr (
              text,
              (d, (en, (a.0, (a.1.0, (a.1.1.0, (a.1.1.1.0, (a.1.1.1.1, found ∙ ap some ej))))))),
            )
      ]

enrich_name-cases :
    (serial source : String) (name : Text) (kind : DetectionKind) (g : Gateway) (c : Camera)
    → get serial g.cameras ≡ some c
    → (enrich_name serial source name kind g ≡ some (g, []))
      ⊎ ((text : Text) × ((d : Detection) × (enrich_name serial source name kind g
              ≡ some (
                record g { cameras = put serial (joined text d c) g.cameras },
                camera_updated (camera_state (joined text d c)) ∷ [],
              ))))
enrich_name-cases serial source name kind g c e =
    let found = enrich_name-found serial source name kind g c e in
    elim (join_name-cases serial c g (normalize_person_name (some name))
      (enrichable source kind c)) [
        | inl idle ↦ inl (found ∙ ap some idle)
        | inr (text, (d, (en, (ep, ej)))) ↦ inr (text, (d, found ∙ ap some ej))
      ]

enrich_name-missing :
    (serial source : String) (name : Text) (kind : DetectionKind) (g : Gateway)
    → get serial g.cameras ≡ none
    → enrich_name serial source name kind g ≡ none
unfolding enrich_name with_camera on_found
enrich_name-missing serial source name kind g e =
    ap
      (λ o.
        on_found o (λ c.
          join_name serial c g (normalize_person_name (some name)) (enrichable source kind c)))
      e

state_of : Gateway → Outcome → Gateway
state_of g o = elim o [ none ↦ g | some r ↦ r.0 ]

events_of : Outcome → List Event
events_of o = elim o [ none ↦ [] | some r ↦ r.1 ]

-- A detection takes a name once: after an update that changed the state or published anything, a further
-- name of the same kind, of any identity, changes and publishes nothing.
pub enrich_name-once :
    (serial source other_source : String) (name other_name : Text) (kind : DetectionKind)
    (g after : Gateway) (events : List Event)
    → enrich_name serial source name kind g ≡ some (after, events)
    → (after ≢ g) ⊎ (events ≢ [])
    → enrich_name serial other_source other_name kind after ≡ some (after, [])
unfolding state_of events_of
enrich_name-once serial source other_source name other_name kind g after events h changed =
    elim (Option-cases (get serial g.cameras)) [
      | inl e ↦ absurd (let missing = enrich_name-missing serial source name kind g e in cc)
      | inr (c, e) ↦ elim (enrich_name-cases serial source name kind g c e) [
        | inl idle ↦ absurd (elim changed [
          | inl moved ↦ moved (ap (state_of g) (sym h ∙ idle))
          | inr published ↦ published (ap events_of (sym h ∙ idle))
        ])
        | inr (text, (d, ej)) ↦ named-refused serial other_source text other_name kind after c d (
            ap (λ o. get serial (state_of g o).cameras) (sym h ∙ ej)
            ∙ get-put_self serial (joined text d c) g.cameras)
      ]
    ]
