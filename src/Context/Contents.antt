-- ===== src/Context/Contents.antt =====
-- The three views of a pack (sections, hits, warnings) agree, and the hits come from the input.
use mathlib.Core.List.{Perm, perm_middle, append_assoc, append-nil, map-append}
use mathlib.Core.List.Perm
use super_mem.Base.{
  ℕ, ◌-◌, ◌<◌, ◌≤◌, ◌≡◌, ◌∙◌, refl, sym, usize_max, Text, Option, none, some, List, [], ◌∷◌, ◌++◌,
  ◌==◌, ltb, inl, inr, map, Bool-cases, Option-cases, is_empty, ◌&&◌, arith,
}
use super_mem.Types.{Applicability, RecallHit, ContextItem, ContextSection}
use super_mem.Context.Tokens.{truncate_to_tokens}
use super_mem.Context.Budget.{item_budget_split}
use super_mem.Context.Caveats.{all_caveats, all_warnings, all_warnings-caveats}
use super_mem.Context.Search.{select_body-truncates}
use super_mem.Context.Assemble.{
  Group, Assembly, nothing_yet, push_item, into_sections, section_for, to_item, with_body, accept,
  consider, select_body, item_budget, assemble, pack, compile_context, envelope_reserve,
  hit_warnings,
}

-- What an item and a hit say of a memory.
pub record Entry : Type 0 where
  pub memory_id : ℕ
  pub revision : ℕ
  pub title : Text
  pub body : Text
  pub score : ℕ
  pub applicability : Applicability

abbrev pub item_entry : ContextItem → Entry
item_entry i = record {
  memory_id = i.memory_id;
  revision = i.revision;
  title = i.title;
  body = i.body;
  score = i.score;
  applicability = i.applicability;
}

abbrev pub hit_entry : RecallHit → Entry
hit_entry h = record {
  memory_id = h.memory.memory_id;
  revision = h.memory.revision;
  title = h.memory.title;
  body = h.memory.body;
  score = h.score;
  applicability = h.applicability;
}

abbrev pub section_entries : List ContextSection → List Entry
section_entries [] = []
section_entries (s ∷ ss) = map item_entry s.items ++ section_entries ss

-- The hits kept are hits of the input, in order, each with a truncation of its body.
pub data Kept : List RecallHit → List RecallHit → Type 0 where
  done : Kept [] []
  skip : (h : RecallHit) {hs ks : List RecallHit} → Kept hs ks → Kept (h ∷ hs) ks
  keep :
      (h : RecallHit) (tokens : ℕ) {hs ks : List RecallHit}
      → Kept hs ks
      → Kept (h ∷ hs) (with_body h (truncate_to_tokens h.memory.body tokens) ∷ ks)

abbrev entries : List Group → List Entry
entries gs = section_entries (into_sections gs)

push_item-Perm :
    (p : ℕ) (section : Text) (item : ContextItem) (gs : List Group)
    → Perm (entries (push_item p section item gs)) (item_entry item ∷ entries gs)
unfolding push_item into_sections
push_item-Perm p section item [] = Perm.refl (item_entry item ∷ [])
push_item-Perm p section item (g ∷ gs) = elim (Bool-cases (p == g.priority)) [
  | inl e ↦ rw e (
      rw (map-append item_entry g.items (item ∷ [])) (
        rw (append_assoc (map item_entry g.items) (item_entry item ∷ []) (entries gs))
          (perm_middle (map item_entry g.items) (entries gs))))
  | inr e ↦ rw e (elim (Bool-cases (ltb p g.priority)) [
    | inl f ↦ rw f (Perm.refl _)
    | inr f ↦ rw f (
        Perm.trans (Perm.append_left (map item_entry g.items) (push_item-Perm p section item gs))
          (perm_middle (map item_entry g.items) (entries gs)))
  ])
]

module _ (show_id : ℕ → Text) where
  all_warnings-append :
      (hs : List RecallHit) (k : RecallHit)
      → all_warnings show_id (hs ++ k ∷ []) ≡ all_warnings show_id hs ++ hit_warnings show_id k
  all_warnings-append [] k = append-nil (hit_warnings show_id k)
  all_warnings-append (h ∷ hs) k = rw (all_warnings-append hs k) (
      sym
        (append_assoc (hit_warnings show_id h) (all_warnings show_id hs) (hit_warnings show_id k)))

  -- The sections list what the hits list, and the warnings are those of the hits.
  record Agrees (a : Assembly) : Type 0 where
    same : Perm (entries a.grouped) (map hit_entry a.accepted_hits)
    warned : a.warnings ≡ all_warnings show_id a.accepted_hits

  warnings-with_body :
      (hit : RecallHit) (body : Text)
      → hit_warnings show_id (with_body hit body) ≡ hit_warnings show_id hit
  unfolding hit_warnings with_body
  warnings-with_body hit body = refl

  entry-to_item :
      (hit : RecallHit) (body : Text) (tokens : ℕ)
      → item_entry (to_item hit body tokens) ≡ hit_entry (with_body hit body)
  unfolding to_item with_body
  entry-to_item hit body tokens = refl

  accept-Agrees :
      (hit : RecallHit) (a : Assembly) (found : Option (Text × ℕ))
      → Agrees a
      → Agrees (accept show_id hit a found)
  unfolding accept
  accept-Agrees hit a none h = h
  accept-Agrees hit a (some (body, tokens)) h =
      let (p, section) = section_for hit.memory.kind in
      record {
        same = rw (map-append hit_entry a.accepted_hits (with_body hit body ∷ [])) (
            Perm.trans (push_item-Perm p section (to_item hit body tokens) a.grouped) (
              rw (entry-to_item hit body tokens) (
                Perm.trans (Perm.cons (hit_entry (with_body hit body)) h.same) (
                  Perm.symm (
                    rw append-nil at (
                      perm_middle {a = hit_entry (with_body hit body)}
                        (map hit_entry a.accepted_hits) []))))));
        warned =
            rw (all_warnings-append a.accepted_hits (with_body hit body))
              (rw (warnings-with_body hit body, ← h.warned) refl);
      }

  consider-Agrees :
      (b : ℕ) (a : Assembly) (hit : RecallHit) → Agrees a → Agrees (consider show_id b a hit)
  unfolding consider
  consider-Agrees b a hit h = elim (Option-cases (item_budget show_id b a hit)) [
    | inl e ↦ rw (e, consider) h
    | inr (budget, e) ↦ rw (e, consider) (accept-Agrees hit a (select_body show_id hit budget) h)
  ]

  assemble-Agrees :
      (b : ℕ) (a : Assembly) (hits : List RecallHit) → Agrees a → Agrees (assemble show_id b a hits)
  unfolding assemble
  assemble-Agrees b a [] h = h
  assemble-Agrees b a (hit ∷ hits) h =
      assemble-Agrees b (consider show_id b a hit) hits (consider-Agrees b a hit h)

  -- What a round adds to the accepted hits.
  consider-Kept :
      (b : ℕ) (a : Assembly) (hit : RecallHit) {hs : List RecallHit} (ks : List RecallHit)
      → b < usize_max
      → Kept hs ks
      → (new : List RecallHit) × ((consider show_id b a hit).accepted_hits ++ ks
          ≡ a.accepted_hits ++ new)
        × Kept (hit ∷ hs) new
  unfolding consider
  consider-Kept b a hit ks small kept = elim (Option-cases (item_budget show_id b a hit)) [
    | inl e ↦ rw (e, consider) (ks, refl, skip hit kept)
    | inr (budget, e) ↦
        rw (e, consider)
          (elim (Option-cases (select_body show_id hit budget)) [
            | inl f ↦ rw f (unfold accept in (ks, refl, skip hit kept))
            | inr ((body, tokens), f) ↦ rw f (
                let less : budget < usize_max =
                  omega (arith, item_budget_split show_id b a hit budget e) in
                let (m, same) = select_body-truncates show_id hit budget body tokens less f in
                (
                  with_body hit body ∷ ks,
                  unfold accept in append_assoc a.accepted_hits (with_body hit body ∷ []) ks,
                  rw same (keep hit m kept),
                ))
          ])
  ]

  assemble-Kept :
      (b : ℕ) (a : Assembly) (hits : List RecallHit)
      → b < usize_max
      → (new : List RecallHit) × ((assemble show_id b a hits).accepted_hits
          ≡ a.accepted_hits ++ new)
        × Kept hits new
  unfolding assemble
  assemble-Kept b a [] small = ([], sym (append-nil a.accepted_hits), done)
  assemble-Kept b a (hit ∷ hits) small =
      let (later, e, k) = assemble-Kept b (consider show_id b a hit) hits small in
      let (new, f, kept) = consider-Kept b a hit later small k in (new, e ∙ f, kept)

  -- For every list of hits and every budget of a `usize`:
  -- the sections of the pack list the same memories, titles, bodies, scores and classes as its hits,
  -- as often; its warnings are, in the order of the hits, for each hit that is stale or divergent the
  -- caveat that names its class, and for each that is contested the caveat of that, and no other; and its hits are hits of the input,
  -- in the input's order, with nothing changed but a body that is truncated.
  pub compile_context-contents :
      (query_id database_seq token_budget : ℕ) (hits : List RecallHit)
      → token_budget ≤ usize_max
      → let p = compile_context show_id query_id database_seq token_budget hits in
        Perm (section_entries p.sections) (map hit_entry p.hits)
        × (p.warnings ≡ all_caveats show_id p.hits)
        × Kept hits p.hits
  unfolding compile_context pack
  compile_context-contents query_id database_seq token_budget hits fits =
      let b = token_budget - envelope_reserve token_budget in
      let small : b < usize_max = unfold envelope_reserve in omega arith in
      let a = assemble show_id b nothing_yet hits in
      let start : Agrees nothing_yet =
        unfold into_sections in record { same = Perm.refl []; warned = refl } in
      let agrees = assemble-Agrees b nothing_yet hits start in
      let warned = agrees.warned ∙ all_warnings-caveats show_id a.accepted_hits in
      let (new, e, kept) = assemble-Kept b nothing_yet hits small in
      elim (Bool-cases (is_empty (into_sections a.grouped) && is_empty a.warnings)) [
        | inl c ↦ rw c (agrees.same, warned, rw e kept)
        | inr c ↦ rw c (agrees.same, warned, rw e kept)
      ]
