-- ===== src/Tracing/Spans/Combined.antt =====
-- core/trace/store.go: mergeSpan and mergeMap, against a description of what they give.
use flowanything.Common.{
  ℕ, ◌≤◌, String, ◌≡◌, ◌≢◌, refl, ◌∙◌, ◌⊎◌, inl, inr, Bool-cases, Option, none, some, Option-cases,
  ◌++◌, ◌==◌, eq_iff, eqb, eqb_iff, ltb, arith,
}
use flowanything.Workflow.Values.{Tree, Fields, empty, entry, get_field, set_field}
use flowanything.Workflow.Values.Maps.{get_field-set_field, IsMap}
use flowanything.Tracing.Spans.{Span, merge_map, text_or, earlier, time_or, merge_span, merged_into}

-- A text is the new one, if there is one, and the old one otherwise.
abbrev pub IsUpdated : String → String → String → Type 0
IsUpdated old new merged = ((new ≡ "") × (merged ≡ old)) ⊎ ((new ≢ "") × (merged ≡ new))

abbrev pub IsUpdatedTime : ℕ → ℕ → ℕ → Type 0
IsUpdatedTime old new merged = ((new ≡ 0) × (merged ≡ old)) ⊎ ((new ≢ 0) × (merged ≡ new))

-- A time is the earlier of those that are set.
abbrev pub IsEarliest : ℕ → ℕ → ℕ → Type 0
IsEarliest old new merged =
    ((new ≡ 0) × (merged ≡ old))
    ⊎ (((new ≢ 0) × (old ≡ 0) × (merged ≡ new))
        ⊎ ((new ≢ 0)
            × (old ≢ 0)
            × (merged ≤ old)
            × (merged ≤ new)
            × ((merged ≡ old) ⊎ (merged ≡ new))))

-- Each key has its value in the new map, if it is there, and its value in the old map otherwise.
abbrev pub IsUnion : Fields → Fields → Fields → Type 0
IsUnion old new merged =
    (key : String)
    → ((get_field key new ≡ none) × (get_field key merged ≡ get_field key old))
      ⊎ ((value : Tree) × (get_field key new ≡ some value) × (get_field key merged ≡ some value))

-- A span with what a later one of the same ids adds to it.
pub record IsMerge (old new merged : Span) : Type 0 where
  pub same_trace : merged.trace_id ≡ old.trace_id
  pub same_span : merged.span_id ≡ old.span_id
  pub parent : IsUpdated old.parent_span_id new.parent_span_id merged.parent_span_id
  pub named : IsUpdated old.name new.name merged.name
  pub kind_of : IsUpdated old.kind new.kind merged.kind
  pub status_of : IsUpdated old.status new.status merged.status
  pub failure : IsUpdated old.error new.error merged.error
  pub started : IsEarliest old.started_at new.started_at merged.started_at
  pub finished : IsUpdatedTime old.finished_at new.finished_at merged.finished_at
  pub attributes_of : IsUnion old.attributes new.attributes merged.attributes
  pub input_of : IsUnion old.input new.input merged.input
  pub output_of : IsUnion old.output new.output merged.output
  pub events_of : merged.events ≡ old.events ++ new.events
  pub links_of : merged.links ≡ old.links ++ new.links

-- What is stored of a span, by the one that is there.
abbrev pub IsStored : Option Span → Span → Span → Type 0
IsStored (some old) new stored = IsMerge old new stored
IsStored none new stored = stored ≡ new

-- The maps of a span.
abbrev pub HasMaps : Span → Type 0
HasMaps span = IsMap span.attributes × IsMap span.input × IsMap span.output

text_or-IsUpdated : (old new : String) → IsUpdated old new (text_or old new)
text_or-IsUpdated old new = elim (Bool-cases (new == "")) [
  | inl e ↦ inl ((eq_iff new "").0 e, rw e refl)
  | inr e ↦ inr ((λ p. absurd (ground (arith, e, p, eq_iff new ""))), rw e refl)
]

time_or-IsUpdatedTime : (old new : ℕ) → IsUpdatedTime old new (time_or old new)
time_or-IsUpdatedTime old new = elim (Bool-cases (eqb new 0)) [
  | inl e ↦ inl ((eqb_iff new 0).0 e, rw e refl)
  | inr e ↦ inr ((λ p. absurd (ground (arith, e, p))), rw e refl)
]

earlier-IsEarliest : (old new : ℕ) → IsEarliest old new (earlier old new)
earlier-IsEarliest old new = elim (Bool-cases (eqb new 0)) [
  | inl e ↦ inl ((eqb_iff new 0).0 e, rw e refl)
  | inr e ↦
      let set : new ≢ 0 = λ p. absurd (ground (arith, e, p)) in
      elim (Bool-cases (eqb old 0)) [
        | inl f ↦ inr (inl (set, (eqb_iff old 0).0 f, rw (e, f) refl))
        | inr f ↦
            let old_set : old ≢ 0 = λ p. absurd (ground (arith, f, p)) in
            elim (Bool-cases (ltb new old)) [
              | inl g ↦ inr (
                  inr (
                    set,
                    old_set,
                    ground (arith, e, f, g),
                    ground (arith, e, f, g),
                    inr (rw (e, f, g) refl),
                  ))
              | inr g ↦ inr (
                  inr (
                    set,
                    old_set,
                    ground (arith, e, f, g),
                    ground (arith, e, f, g),
                    inl (rw (e, f, g) refl),
                  ))
            ]
      ]
]

merge_map-absent :
    (key : String) (right left : Fields)
    → get_field key right ≡ none
    → get_field key (merge_map left right) ≡ get_field key left
unfolding merge_map get_field
merge_map-absent key empty left h = refl
merge_map-absent key (entry name value right) left h = elim (Bool-cases (name == key)) [
  | inl e ↦ absurd (ground (arith, h, e))
  | inr e ↦
      merge_map-absent key right (set_field name value left) (ground (arith, h, e))
      ∙ get_field-set_field name key value left
      ∙ rw e refl
]

merge_map-present :
    (key : String) (found : Tree) (right left : Fields)
    → IsMap right
    → get_field key right ≡ some found
    → get_field key (merge_map left right) ≡ some found
unfolding merge_map get_field
merge_map-present key found empty left once h = absurd (cc)
merge_map-present key found (entry name value right) left (new, once) h =
    elim (Bool-cases (name == key)) [
      | inl e ↦
          let same = (eq_iff name key).0 e in
          let value_same : some value ≡ some found = ground (arith, h, e) in
          merge_map-absent key right (set_field name value left) (rw (← same) new)
          ∙ get_field-set_field name key value left
          ∙ rw e value_same
      | inr e ↦
          merge_map-present key found right (set_field name value left) once (ground (arith, h, e))
    ]

merge_map-IsUnion : (left right : Fields) → IsMap right → IsUnion left right (merge_map left right)
merge_map-IsUnion left right once key = elim (Option-cases (get_field key right)) [
  | inl e ↦ inl (e, merge_map-absent key right left e)
  | inr (value, e) ↦ inr (value, e, merge_map-present key value right left once e)
]

pub merged_into-IsStored :
    (found : Option Span) (span : Span)
    → HasMaps span
    → IsStored found span (merged_into found span)
unfolding merge_span
merged_into-IsStored none span maps = refl
merged_into-IsStored (some old) span (attributes_once, input_once, output_once) = record {
  same_trace = refl;
  same_span = refl;
  parent = text_or-IsUpdated old.parent_span_id span.parent_span_id;
  named = text_or-IsUpdated old.name span.name;
  kind_of = text_or-IsUpdated old.kind span.kind;
  status_of = text_or-IsUpdated old.status span.status;
  failure = text_or-IsUpdated old.error span.error;
  started = earlier-IsEarliest old.started_at span.started_at;
  finished = time_or-IsUpdatedTime old.finished_at span.finished_at;
  attributes_of = merge_map-IsUnion old.attributes span.attributes attributes_once;
  input_of = merge_map-IsUnion old.input span.input input_once;
  output_of = merge_map-IsUnion old.output span.output output_once;
  events_of = refl;
  links_of = refl;
}
