-- ===== src/Tracing/Spans.antt =====
-- core/trace/model.go and store.go: spans, and how a store merges what it is given of them. Times are
-- numbers, and 0 is the zero time; a nil map is an empty one.
pub mod Combined
pub mod Merged
use flowanything.Common.{
  ℕ, String, Bool, true, false, not, ◌&&◌, ◌||◌, Option, none, some, List, [], ◌∷◌, ◌++◌, ◌==◌, eqb,
  ltb, if◌then◌else◌, sort_stable, Outcome, ok, err,
}
use flowanything.Common.Assoc.{lookup, insert}
use flowanything.Workflow.Values.{Fields, empty, entry, set_field}

pub record SpanEvent : Type 0 where
  pub name : String
  pub attributes : Fields
  pub timestamp : ℕ

pub record SpanLink : Type 0 where
  pub trace_id : String
  pub span_id : String
  pub attributes : Fields

pub record Span : Type 0 where
  pub trace_id : String
  pub span_id : String
  pub parent_span_id : String
  pub name : String
  pub kind : String
  pub status : String
  pub started_at : ℕ
  pub finished_at : ℕ
  pub attributes : Fields
  pub events : List SpanEvent
  pub links : List SpanLink
  pub input : Fields
  pub output : Fields
  pub error : String

-- mergeMap
unfoldable pub merge_map : Fields → Fields → Fields
merge_map left empty = left
merge_map left (entry key value right) = merge_map (set_field key value left) right

abbrev pub text_or : String → String → String
text_or old new = if new == "" then old else new

abbrev pub earlier : ℕ → ℕ → ℕ
earlier old new = if not (eqb new 0) && (eqb old 0 || ltb new old) then new else old

abbrev pub time_or : ℕ → ℕ → ℕ
time_or old new = if eqb new 0 then old else new

-- mergeSpan
unfoldable pub merge_span : Span → Span → Span
unfolding merge_map
merge_span existing incoming = record existing {
  parent_span_id = text_or existing.parent_span_id incoming.parent_span_id;
  name = text_or existing.name incoming.name;
  kind = text_or existing.kind incoming.kind;
  status = text_or existing.status incoming.status;
  started_at = earlier existing.started_at incoming.started_at;
  finished_at = time_or existing.finished_at incoming.finished_at;
  attributes = merge_map existing.attributes incoming.attributes;
  input = merge_map existing.input incoming.input;
  output = merge_map existing.output incoming.output;
  events = existing.events ++ incoming.events;
  links = existing.links ++ incoming.links;
  error = text_or existing.error incoming.error;
}

-- The errors of the store.
pub data StoreError : Type 0 where
  trace_id_required span_id_required : StoreError
  trace_not_found : String → StoreError

-- MemoryStore.spans
abbrev pub Store : Type 0
Store = List (String × List (String × Span))

abbrev pub spans_or_nil : Option (List (String × Span)) → List (String × Span)
spans_or_nil (some spans) = spans
spans_or_nil none = []

abbrev pub merged_into : Option Span → Span → Span
merged_into (some existing) span = merge_span existing span
merged_into none span = span

-- UpsertSpan: the error, or none, and the store
unfoldable pub upsert_span : Span → Store → Option StoreError × Store
unfolding merge_span
upsert_span span store =
    if span.trace_id == ""
    then (some trace_id_required, store)
    else if span.span_id == ""
    then (some span_id_required, store)
    else let spans = spans_or_nil (lookup span.trace_id store) in
      (
        none,
        insert span.trace_id
            (insert span.span_id (merged_into (lookup span.span_id spans) span) spans) store,
      )

abbrev pub values : {A : Type 0} → List (String × A) → List A
values [] = []
values ((key, a) ∷ es) = a ∷ values es

-- The order of ListSpans, with an order of ids.
abbrev pub is_before : (String → String → Bool) → Span → Span → Bool
is_before text_less a b =
    if eqb a.started_at b.started_at
    then text_less a.span_id b.span_id
    else ltb a.started_at b.started_at

-- ListSpans
unfoldable pub list_spans :
    (String → String → Bool) → String → Store → Outcome StoreError (List Span)
list_spans text_less trace_id store = elim (lookup trace_id store) [
  | none ↦ err (trace_not_found trace_id)
  | some spans ↦ ok (sort_stable (is_before text_less) (values spans))
]
