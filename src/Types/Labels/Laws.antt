-- ===== src/Types/Labels/Laws.antt =====
-- The labels and their readers are inverse to one another.
use super_mem.Base.{Text, codes, text_eq, text_eq_iff, ◌≡◌, refl, ◌↔◌, some, arith}
use super_mem.Types.Labels.{
  MemoryKind, TrustLevel, EventKind, MemoryState, parse_state, kind_as_str, parse_kind,
  trust_as_str, parse_trust, event_as_str, parse_event,
}

parse_kind-kind_as_str : (k : MemoryKind) → parse_kind (kind_as_str k) ≡ some k
unfolding parse_kind kind_as_str text_eq
parse_kind-kind_as_str MemoryKind.fact = refl
parse_kind-kind_as_str _ = refl

kind_label : (value : Text) (k : MemoryKind) → parse_kind value ≡ some k → value ≡ kind_as_str k
unfolding parse_kind kind_as_str
kind_label value k = ground (
  arith,
  text_eq_iff value (codes "fact"),
  text_eq_iff value (codes "preference"),
  text_eq_iff value (codes "constraint"),
  text_eq_iff value (codes "decision"),
  text_eq_iff value (codes "procedure"),
  text_eq_iff value (codes "episode"),
  text_eq_iff value (codes "outcome"),
  text_eq_iff value (codes "task"),
  text_eq_iff value (codes "observation"),
)

parse_trust-trust_as_str : (k : TrustLevel) → parse_trust (trust_as_str k) ≡ some k
unfolding parse_trust trust_as_str text_eq
parse_trust-trust_as_str TrustLevel.external = refl
parse_trust-trust_as_str _ = refl

trust_label : (value : Text) (k : TrustLevel) → parse_trust value ≡ some k → value ≡ trust_as_str k
unfolding parse_trust trust_as_str
trust_label value k = ground (
  arith,
  text_eq_iff value (codes "external"),
  text_eq_iff value (codes "agent"),
  text_eq_iff value (codes "tool_verified"),
  text_eq_iff value (codes "user_confirmed"),
)

parse_event-event_as_str : (k : EventKind) → parse_event (event_as_str k) ≡ some k
unfolding parse_event event_as_str text_eq
parse_event-event_as_str EventKind.conversation_turn = refl
parse_event-event_as_str _ = refl

event_label : (value : Text) (k : EventKind) → parse_event value ≡ some k → value ≡ event_as_str k
unfolding parse_event event_as_str
event_label value k = ground (
  arith,
  text_eq_iff value (codes "conversation_turn"),
  text_eq_iff value (codes "tool_call"),
  text_eq_iff value (codes "tool_result"),
  text_eq_iff value (codes "command_result"),
  text_eq_iff value (codes "file_change"),
  text_eq_iff value (codes "verification"),
  text_eq_iff value (codes "explicit_memory"),
  text_eq_iff value (codes "checkpoint"),
  text_eq_iff value (codes "manual_note"),
  text_eq_iff value (codes "lifecycle"),
)

active_word : (value : Text) → parse_state value ≡ some MemoryState.active → value ≡ codes "active"
unfolding parse_state
active_word value = ground (
  arith,
  text_eq_iff value (codes "active"),
  text_eq_iff value (codes "contested"),
  text_eq_iff value (codes "superseded"),
  text_eq_iff value (codes "retracted"),
)

contested_word :
    (value : Text) → parse_state value ≡ some MemoryState.contested → value ≡ codes "contested"
unfolding parse_state
contested_word value = ground (
  arith,
  text_eq_iff value (codes "active"),
  text_eq_iff value (codes "contested"),
  text_eq_iff value (codes "superseded"),
  text_eq_iff value (codes "retracted"),
)

superseded_word :
    (value : Text) → parse_state value ≡ some MemoryState.superseded → value ≡ codes "superseded"
unfolding parse_state
superseded_word value = ground (
  arith,
  text_eq_iff value (codes "active"),
  text_eq_iff value (codes "contested"),
  text_eq_iff value (codes "superseded"),
  text_eq_iff value (codes "retracted"),
)

retracted_word :
    (value : Text) → parse_state value ≡ some MemoryState.retracted → value ≡ codes "retracted"
unfolding parse_state
retracted_word value = ground (
  arith,
  text_eq_iff value (codes "active"),
  text_eq_iff value (codes "contested"),
  text_eq_iff value (codes "superseded"),
  text_eq_iff value (codes "retracted"),
)

state_words :
    (value : Text)
    → ((parse_state value ≡ some MemoryState.active) ↔ (value ≡ codes "active"))
      × ((parse_state value ≡ some MemoryState.contested) ↔ (value ≡ codes "contested"))
      × ((parse_state value ≡ some MemoryState.superseded) ↔ (value ≡ codes "superseded"))
      × ((parse_state value ≡ some MemoryState.retracted) ↔ (value ≡ codes "retracted"))
unfolding parse_state text_eq
state_words value = (
  (active_word value, λ e. rw e refl),
  (contested_word value, λ e. rw e refl),
  (superseded_word value, λ e. rw e refl),
  (retracted_word value, λ e. rw e refl),
)

-- For the kinds of memories, the levels of trust and the kinds of events, and for every text and value:
-- `parse` returns the value exactly when the text is the label that `as_str` writes for it. For the
-- states, which have no `as_str`, `parse` returns each exactly for its own word.
pub labels_roundtrip :
    (value : Text)
    → ((k : MemoryKind) → (parse_kind value ≡ some k) ↔ (value ≡ kind_as_str k))
      × ((k : TrustLevel) → (parse_trust value ≡ some k) ↔ (value ≡ trust_as_str k))
      × ((k : EventKind) → (parse_event value ≡ some k) ↔ (value ≡ event_as_str k))
      × ((parse_state value ≡ some MemoryState.active) ↔ (value ≡ codes "active"))
      × ((parse_state value ≡ some MemoryState.contested) ↔ (value ≡ codes "contested"))
      × ((parse_state value ≡ some MemoryState.superseded) ↔ (value ≡ codes "superseded"))
      × ((parse_state value ≡ some MemoryState.retracted) ↔ (value ≡ codes "retracted"))
labels_roundtrip value = (
  λ k. (kind_label value k, λ e. rw e (parse_kind-kind_as_str k)),
  λ k. (trust_label value k, λ e. rw e (parse_trust-trust_as_str k)),
  λ k. (event_label value k, λ e. rw e (parse_event-event_as_str k)),
  (state_words value).0,
  (state_words value).1,
  (state_words value).2,
  (state_words value).3,
)
