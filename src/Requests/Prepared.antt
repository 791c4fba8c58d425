-- ===== src/Requests/Prepared.antt =====
-- The tags and the entities of a request rise strictly after `deduplicate_strings` and the sort.
use super_mem.Base.{
  ◌≡◌, refl, Text, Bool, true, false, not, ◌&&◌, ◌||◌, List, [], ◌∷◌, arith, text_eq, text_eq_iff,
  text_ltb, text_ltb-transitive, text_ltb_irreflexive, text_ltb_connected, sort_by, Sorted,
  sort_by-Sorted, All, Pairwise, Bool-cases, inl, inr,
}
use super_mem.Types.{EntityRef}
use super_mem.Store.Words.{to_ascii_lowercase}
use super_mem.Requests.Prepare.{
  dedup_after, dedup_by, tag_not_after, same_tag, deduplicate_strings, entity_not_after,
  same_entity, order_entities,
}

-- After a sort, `dedup_by` leaves a strictly rising list.
module _ {A : Type 0} (first same : A → A → Bool) (Below : A → A → Type 0)
    (below : (a b : A) → first a b ≡ true → same b a ≡ false → Below a b)
    (transitive : (a b c : A) → Below a b → Below b c → Below a c) where
  All-below : (a b : A) (xs : List A) → Below a b → All (Below b) xs → All (Below a) xs
  All-below a b [] s h = tt
  All-below a b (x ∷ xs) s h = (transitive a b x s h.0, All-below a b xs s h.1)

  dedup_after-rising :
      (last : A) (xs : List A)
      → Sorted first (last ∷ xs)
      → All (Below last) (dedup_after same last xs) × Pairwise Below (dedup_after same last xs)
  dedup_after-rising last [] h = (tt, tt)
  dedup_after-rising last (a ∷ rest) h = elim (Bool-cases (same a last)) [
    | inl e ↦ rw e (dedup_after-rising last rest (h.0.1, h.1.1))
    | inr e ↦
        let later = dedup_after-rising a rest h.1 in
        let s = below last a h.0.0 e in
        rw e ((s, All-below last a (dedup_after same a rest) s later.0), later)
  ]

  dedup_by-rising : (xs : List A) → Sorted first xs → Pairwise Below (dedup_by same xs)
  dedup_by-rising [] h = tt
  dedup_by-rising (a ∷ rest) h = dedup_after-rising a rest h

text_eq_self : (s : Text) → text_eq s s ≡ true
text_eq_self s = (text_eq_iff s s).1 refl

-- The order of two texts after each other, as pairs.
abbrev pub Pair : Type 0
Pair = Text × Text

abbrev pub pair_before : Pair → Pair → Bool
pair_before (k, c) (l, d) = text_ltb k l || (text_eq k l && text_ltb c d)

abbrev pair_not_after : Pair → Pair → Bool
pair_not_after (k, c) (l, d) = text_ltb k l || (text_eq k l && not (text_ltb d c))

abbrev pair_same : Pair → Pair → Bool
pair_same (k, c) (l, d) = text_eq k l && text_eq c d

pair_total : (a b : Pair) → pair_not_after a b ≡ false → pair_not_after b a ≡ true
pair_total (k, c) (l, d) h = ground (
  arith,
  text_ltb-transitive c d c,
  text_ltb_irreflexive c,
  text_ltb_connected k l,
  text_eq_iff k l,
  text_eq_iff l k,
)

pair_transitive :
    (a b c : Pair)
    → pair_not_after a b ≡ true
    → pair_not_after b c ≡ true
    → pair_not_after a c ≡ true
pair_transitive (k, c) (l, d) (m, e) h g = ground (
  arith,
  text_ltb-transitive k l m,
  text_eq_iff k l,
  text_eq_iff l m,
  text_eq_iff k m,
  text_ltb-transitive e c d,
  text_ltb_connected c d,
)

pair_below :
    (a b : Pair) → pair_not_after a b ≡ true → pair_same b a ≡ false → pair_before a b ≡ true
pair_below (k, c) (l, d) h g =
    ground (arith, text_eq_iff k l, text_eq_iff l k, text_ltb_connected c d, text_eq_iff d c)

pair_before_transitive :
    (a b c : Pair) → pair_before a b ≡ true → pair_before b c ≡ true → pair_before a c ≡ true
pair_before_transitive (k, c) (l, d) (m, e) h g = ground (
  arith,
  text_ltb-transitive k l m,
  text_eq_iff k l,
  text_eq_iff l m,
  text_eq_iff k m,
  text_ltb-transitive c d e,
)

-- The lower case of the tags rises.
abbrev pub TagBelow : Text → Text → Type 0
TagBelow a b = text_ltb (to_ascii_lowercase a) (to_ascii_lowercase b) ≡ true

tag_total : (a b : Text) → tag_not_after a b ≡ false → tag_not_after b a ≡ true
unfolding tag_not_after
tag_total a b h =
    let k = to_ascii_lowercase a in
    let l = to_ascii_lowercase b in
    ground (arith, text_ltb-transitive k l k, text_ltb_irreflexive k)

tag_transitive :
    (a b c : Text) → tag_not_after a b ≡ true → tag_not_after b c ≡ true → tag_not_after a c ≡ true
unfolding tag_not_after
tag_transitive a b c h g =
    let k = to_ascii_lowercase a in
    let l = to_ascii_lowercase b in
    let m = to_ascii_lowercase c in
    ground (arith, text_ltb-transitive m k l, text_ltb_connected k l)

tag_below : (a b : Text) → tag_not_after a b ≡ true → same_tag b a ≡ false → TagBelow a b
unfolding tag_not_after same_tag
tag_below a b h g =
    let k = to_ascii_lowercase a in
    let l = to_ascii_lowercase b in ground (arith, text_ltb_connected k l, text_eq_iff l k)

pub deduplicate_strings-rising : (tags : List Text) → Pairwise TagBelow (deduplicate_strings tags)
unfolding deduplicate_strings
deduplicate_strings-rising tags =
    dedup_by-rising tag_not_after same_tag TagBelow tag_below
      (λ a b c h g.
        text_ltb-transitive (to_ascii_lowercase a) (to_ascii_lowercase b) (to_ascii_lowercase c) h
          g)
      (sort_by tag_not_after tags) (sort_by-Sorted tag_not_after tag_total tag_transitive tags)

abbrev pub entity_pair : EntityRef → Pair
entity_pair e = (e.kind, e.canonical)

abbrev pub EntityBelow : EntityRef → EntityRef → Type 0
EntityBelow a b = pair_before (entity_pair a) (entity_pair b) ≡ true

pub order_entities-rising :
    (entities : List EntityRef) → Pairwise EntityBelow (order_entities entities)
unfolding order_entities entity_not_after same_entity
order_entities-rising entities =
    dedup_by-rising entity_not_after same_entity EntityBelow
      (λ a b. pair_below (entity_pair a) (entity_pair b))
      (λ a b c. pair_before_transitive (entity_pair a) (entity_pair b) (entity_pair c))
      (sort_by entity_not_after entities)
      (sort_by-Sorted entity_not_after (λ a b. pair_total (entity_pair a) (entity_pair b))
        (λ a b c. pair_transitive (entity_pair a) (entity_pair b) (entity_pair c)) entities)
