-- ===== src/Types/Tests.antt =====
-- The labels at one text.
use super_mem.Base.{◌≡◌, ◌↔◌, codes, some}
use super_mem.Types.Labels.{
  MemoryKind, TrustLevel, EventKind, MemoryState, parse_state, kind_as_str, parse_kind,
  trust_as_str, parse_trust, event_as_str, parse_event,
}
use super_mem.Types.Labels.Laws.{labels_roundtrip}

labels_roundtrip_example :
    ((k : MemoryKind) → (parse_kind (codes "outcome") ≡ some k) ↔ (codes "outcome" ≡ kind_as_str k))
    × ((k : TrustLevel)
        → (parse_trust (codes "outcome") ≡ some k) ↔ (codes "outcome" ≡ trust_as_str k))
    × ((k : EventKind)
        → (parse_event (codes "outcome") ≡ some k) ↔ (codes "outcome" ≡ event_as_str k))
    × ((parse_state (codes "outcome") ≡ some MemoryState.active)
        ↔ (codes "outcome" ≡ codes "active"))
    × ((parse_state (codes "outcome") ≡ some MemoryState.contested)
        ↔ (codes "outcome" ≡ codes "contested"))
    × ((parse_state (codes "outcome") ≡ some MemoryState.superseded)
        ↔ (codes "outcome" ≡ codes "superseded"))
    × ((parse_state (codes "outcome") ≡ some MemoryState.retracted)
        ↔ (codes "outcome" ≡ codes "retracted"))
labels_roundtrip_example = labels_roundtrip (codes "outcome")
