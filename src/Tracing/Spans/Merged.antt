-- ===== src/Tracing/Spans/Merged.antt =====
-- core/trace/store.go: what UpsertSpan does to the spans of a store.
use flowanything.Common.{
  String, ◌≡◌, ◌≢◌, refl, sym, ap, ◌∙◌, ◌⊎◌, inl, inr, Bool, true, false, Bool-cases, Option, none,
  some, List, ◌==◌, eq_iff, if◌then◌else◌,
}
use flowanything.Common.Assoc.{lookup, insert, lookup-insert, lookup-insert_self}
use flowanything.Tracing.Spans.Combined.{HasMaps, IsStored, merged_into-IsStored}
use flowanything.Tracing.Spans.{Span, Store, spans_or_nil, merged_into, upsert_span, StoreError}

-- The span of a store.
abbrev pub span_of : String → String → Store → Option Span
span_of trace_id span_id store = lookup span_id (spans_or_nil (lookup trace_id store))

upsert_span-accepted :
    (span : Span) (store : Store)
    → span.trace_id ≢ ""
    → span.span_id ≢ ""
    → upsert_span span store ≡ (
      none,
      insert span.trace_id
          (insert span.span_id
            (merged_into (span_of span.trace_id span.span_id store) span)
            (spans_or_nil (lookup span.trace_id store)))
          store,
    )
unfolding upsert_span
upsert_span-accepted span store trace_named span_named = elim (Bool-cases (span.trace_id == "")) [
  | inl e ↦ elim (trace_named ((eq_iff span.trace_id "").0 e)) [ ]
  | inr e ↦ elim (Bool-cases (span.span_id == "")) [
    | inl f ↦ elim (span_named ((eq_iff span.span_id "").0 f)) [ ]
    | inr f ↦ rw (e, f) refl
  ]
]

if-true : {A : Type 0} (b : Bool) (x y : A) → b ≡ true → (if b then x else y) ≡ x
if-true b x y e = rw e refl

if-false : {A : Type 0} (b : Bool) (x y : A) → b ≡ false → (if b then x else y) ≡ y
if-false b x y e = rw e refl

-- A trace with one span inserted.
span_of-stored :
    (trace_id span_id : String) (span : Span) (spans : List (String × Span)) (store : Store)
    → span_of trace_id span_id (insert trace_id (insert span_id span spans) store) ≡ some span
span_of-stored trace_id span_id span spans store =
    ap (λ (o : Option (List (String × Span))). lookup span_id (spans_or_nil o))
      (lookup-insert_self trace_id (insert span_id span spans) store)
    ∙ lookup-insert_self span_id span spans

span_of-other :
    (trace_id span_id other_trace other_span : String) (span : Span) (store : Store)
    → (other_trace ≢ trace_id) ⊎ (other_span ≢ span_id)
    → span_of other_trace other_span
        (insert trace_id (insert span_id span (spans_or_nil (lookup trace_id store))) store)
      ≡ span_of other_trace other_span store
span_of-other trace_id span_id other_trace other_span span store other =
    let spans = spans_or_nil (lookup trace_id store) in
    let outer = lookup-insert trace_id other_trace (insert span_id span spans) store in
    elim (Bool-cases (trace_id == other_trace)) [
      | inr e ↦
          ap (λ (o : Option (List (String × Span))). lookup other_span (spans_or_nil o))
            (outer ∙ if-false (trace_id == other_trace) _ _ e)
      | inl e ↦
          let trace = (eq_iff trace_id other_trace).0 e in
          ap (λ (o : Option (List (String × Span))). lookup other_span (spans_or_nil o))
            (outer ∙ if-true (trace_id == other_trace) _ _ e)
          ∙ lookup-insert span_id other_span span spans
          ∙ elim (Bool-cases (span_id == other_span)) [
            | inr f ↦
                if-false (span_id == other_span) _ _ f
                ∙ ap (λ (t : String). span_of t other_span store) trace
            | inl f ↦ elim other [
              | inl ne ↦ elim (ne (sym trace)) [ ]
              | inr ne ↦ elim (ne (sym ((eq_iff span_id other_span).0 f))) [ ]
            ]
          ]
    ]

pub upsert_span-stored :
    (span : Span) (store : Store)
    → span.trace_id ≢ ""
    → span.span_id ≢ ""
    → ((upsert_span span store).0 ≡ none)
      × (span_of span.trace_id span.span_id (upsert_span span store).1
          ≡ some (merged_into (span_of span.trace_id span.span_id store) span))
      × ((trace_id span_id : String)
          → (trace_id ≢ span.trace_id) ⊎ (span_id ≢ span.span_id)
          → span_of trace_id span_id (upsert_span span store).1 ≡ span_of trace_id span_id store)
upsert_span-stored span store trace_named span_named =
    let spans = spans_or_nil (lookup span.trace_id store) in
    let merged = merged_into (span_of span.trace_id span.span_id store) span in
    let accepted = upsert_span-accepted span store trace_named span_named in
    let after = insert span.trace_id (insert span.span_id merged spans) store in
    let same : (upsert_span span store).1 ≡ after =
      ap (λ (r : Option StoreError × Store). r.1) accepted in
    (
      ap (λ (r : Option StoreError × Store). r.0) accepted,
      ap (λ (t : Store). span_of span.trace_id span.span_id t) same
          ∙ span_of-stored span.trace_id span.span_id merged spans store,
      (λ trace_id span_id other.
          ap (λ (t : Store). span_of trace_id span_id t) same
          ∙ span_of-other span.trace_id span.span_id trace_id span_id merged store other),
    )

-- UpsertSpan, for a span with a trace id and a span id whose attributes, input and output have no key twice,
-- returns no error, and changes no other span of any trace. Where there is no such span yet, it stores the new one. Otherwise it stores a span with the ids of
-- the old one, with the parent, name, kind, status, error and end of the new one, each where it is set,
-- and those of the old one where it is not, with the earlier of the starts that are set, with the value
-- of each key of the attributes, the input and the output from the new span, where it has the key, and
-- from the old one where not, and with the events and links of the old one before those of the new one.
pub upsert_span-Merges :
    (span : Span) (store : Store)
    → span.trace_id ≢ ""
    → span.span_id ≢ ""
    → HasMaps span
    → ((upsert_span span store).0 ≡ none)
      × ((stored : Span) × (span_of span.trace_id span.span_id (upsert_span span store).1
            ≡ some stored)
          × IsStored (span_of span.trace_id span.span_id store) span stored)
      × ((trace_id span_id : String)
          → (trace_id ≢ span.trace_id) ⊎ (span_id ≢ span.span_id)
          → span_of trace_id span_id (upsert_span span store).1 ≡ span_of trace_id span_id store)
upsert_span-Merges span store trace_named span_named maps =
    let (accepted, here, others) = upsert_span-stored span store trace_named span_named in
    let found = span_of span.trace_id span.span_id store in
    (accepted, (merged_into found span, here, merged_into-IsStored found span maps), others)
