-- ===== src/Tracing/Collector/Kept.antt =====
-- core/trace/collector.go: the inputs and outputs of the spans that a collector stores.
use flowanything.Common.{
  ℕ, String, ◌≡◌, ◌≢◌, refl, sym, ap, ◌∙◌, subst, ◌⊎◌, inl, inr, true, Bool-cases, Option, none,
  some, some-eq, ◌==◌, eq_iff, if-case, arith,
}
use flowanything.Engine.Event.{
  flow_started, flow_waiting, flow_resumed, flow_completed, flow_failed, node_scheduled,
  node_started, node_waiting, node_completed, node_failed, next_node_selected,
}
use flowanything.Engine.Trace.{TraceContext}
use flowanything.Workflow.Values.{Tree, text, Fields, empty, entry, set_field}
use flowanything.Tracing.Redactor.{FieldRedactor, redact_map, is_sensitive, replacement_of}
use flowanything.Tracing.Redactor.Redacted.{IsClean, IsCleanMap, redact_map-Redacts}
use flowanything.Tracing.Spans.{Span, merge_map, merge_span, merged_into, Store, upsert_span}
use flowanything.Tracing.Spans.Merged.{span_of, upsert_span-stored}
use flowanything.Tracing.Collector.{ObservedEvent, span_of_event, on_flow_event}

-- A span without a trace id or a span id is not stored.
upsert_span-unnamed :
    (span : Span) (store : Store)
    → ((span.trace_id == "") ≡ true) ⊎ ((span.span_id == "") ≡ true)
    → (upsert_span span store).1 ≡ store
unfolding upsert_span
upsert_span-unnamed span store (inl e) = rw e refl
upsert_span-unnamed span store (inr e) = elim (Bool-cases (span.trace_id == "")) [
  | inl f ↦ rw f refl
  | inr f ↦ rw (f, e) refl
]

module _ (r : FieldRedactor) where
  set_field-IsCleanMap :
      (key : String) (value : Tree) (fs : Fields)
      → (is_sensitive r key ≡ true → value ≡ text (replacement_of r))
      → IsClean r value
      → IsCleanMap r fs
      → IsCleanMap r (set_field key value fs)
  unfolding set_field
  set_field-IsCleanMap key value empty hidden clean all = (hidden, clean, tt)
  set_field-IsCleanMap key value (entry name old fs) hidden clean (h, c, rest) =
      if-case (IsCleanMap r) (name == key) (hidden, clean, rest)
        (h, c, set_field-IsCleanMap key value fs hidden clean rest)

  merge_map-IsCleanMap :
      (left right : Fields)
      → IsCleanMap r left
      → IsCleanMap r right
      → IsCleanMap r (merge_map left right)
  unfolding merge_map
  merge_map-IsCleanMap left empty l q = l
  merge_map-IsCleanMap left (entry key value right) l (hidden, clean, rest) =
      merge_map-IsCleanMap (set_field key value left) right
        (set_field-IsCleanMap key value left hidden clean l) rest

  -- The input and the output of a span hold the replacement under each sensitive key.
  abbrev pub IsCleanSpan : Span → Type 0
  IsCleanSpan span = IsCleanMap r span.input × IsCleanMap r span.output

  abbrev pub IsCleanStore : Store → Type 0
  IsCleanStore store =
      (trace_id span_id : String) (span : Span)
      → span_of trace_id span_id store ≡ some span
      → IsCleanSpan span

  merged_into-IsCleanSpan :
      (old : Option Span) (span : Span)
      → ((s : Span) → old ≡ some s → IsCleanSpan s)
      → IsCleanSpan span
      → IsCleanSpan (merged_into old span)
  unfolding merge_span
  merged_into-IsCleanSpan none span before clean = clean
  merged_into-IsCleanSpan (some old) span before (i, o) =
      let (j, p) = before old refl in
      (
        merge_map-IsCleanMap old.input span.input j i,
        merge_map-IsCleanMap old.output span.output p o,
      )

  upsert_span-named :
      (span : Span) (store : Store)
      → span.trace_id ≢ ""
      → span.span_id ≢ ""
      → IsCleanStore store
      → IsCleanSpan span
      → IsCleanStore (upsert_span span store).1
  upsert_span-named span store t s before clean trace_id span_id found e =
      let (accepted, here, others) = upsert_span-stored span store t s in
      let merged =
        merged_into-IsCleanSpan (span_of span.trace_id span.span_id store) span
          (λ old o. before span.trace_id span.span_id old o) clean in
      let elsewhere : (trace_id ≢ span.trace_id) ⊎ (span_id ≢ span.span_id) → IsCleanSpan found =
        λ other. before trace_id span_id found (sym (others trace_id span_id other) ∙ e) in
      elim (Bool-cases (trace_id == span.trace_id)) [
        | inr ne ↦
            elsewhere (inl (λ p. absurd (ground (arith, ne, p, eq_iff trace_id span.trace_id))))
        | inl same_trace ↦ elim (Bool-cases (span_id == span.span_id)) [
          | inr ne ↦
              elsewhere (inr (λ p. absurd (ground (arith, ne, p, eq_iff span_id span.span_id))))
          | inl same_span ↦
              let at_trace = (eq_iff trace_id span.trace_id).0 same_trace in
              let at_span = (eq_iff span_id span.span_id).0 same_span in
              let there =
                ap (λ (a : String). span_of a span_id (upsert_span span store).1) (sym at_trace)
                ∙ e in
              let there' =
                ap (λ (a : String). span_of span.trace_id a (upsert_span span store).1)
                  (sym at_span)
                ∙ there in
              subst IsCleanSpan (some-eq (sym here ∙ there')) merged
        ]
      ]

  upsert_span-IsCleanStore :
      (span : Span) (store : Store)
      → IsCleanStore store
      → IsCleanSpan span
      → IsCleanStore (upsert_span span store).1
  upsert_span-IsCleanStore span store before clean = elim (Bool-cases (span.trace_id == "")) [
    | inl e ↦ subst IsCleanStore (sym (upsert_span-unnamed span store (inl e))) before
    | inr e ↦ elim (Bool-cases (span.span_id == "")) [
      | inl f ↦ subst IsCleanStore (sym (upsert_span-unnamed span store (inr f))) before
      | inr f ↦
          upsert_span-named span store (λ p. absurd (ground (arith, e, p, eq_iff span.trace_id "")))
            (λ p. absurd (ground (arith, f, p, eq_iff span.span_id ""))) before clean
    ]
  ]

  redacted : (fs : Fields) → IsCleanMap r (redact_map r fs)
  redacted fs = (redact_map-Redacts r fs).1

  span_of_event-IsCleanSpan :
      (e : ObservedEvent) (trace_id : String) (time : ℕ)
      → IsCleanSpan (span_of_event r e trace_id time)
  unfolding span_of_event
  span_of_event-IsCleanSpan e trace_id time =
      elim e.type as (λ t. IsCleanSpan (span_of_event r (record e { type = t }) trace_id time)) [
        | flow_started ↦ (redacted e.input, tt)
        | flow_waiting ↦ (tt, tt)
        | flow_resumed ↦ (tt, tt)
        | flow_completed ↦ (tt, redacted e.output)
        | flow_failed ↦ (tt, tt)
        | node_scheduled ↦ (tt, tt)
        | node_started ↦ (redacted e.input, tt)
        | node_waiting ↦ (tt, tt)
        | node_completed ↦ (tt, redacted e.output)
        | node_failed ↦ (tt, redacted e.output)
        | next_node_selected ↦ (tt, tt)
      ]

-- OnFlowEvent keeps, for every event and every order of events, that the input and the output of each
-- span in the store hold the replacement under each sensitive key.
pub on_flow_event-IsCleanStore :
    (r : FieldRedactor) (now : ℕ) (caller : Option TraceContext) (e : ObservedEvent) (store : Store)
    → IsCleanStore r store
    → IsCleanStore r (on_flow_event r now caller e store)
unfolding on_flow_event
on_flow_event-IsCleanStore r now caller e store before = if-case (IsCleanStore r) _ before (
    upsert_span-IsCleanStore r (span_of_event r e _ _) store before
      (span_of_event-IsCleanSpan r e _ _))
