-- ===== src/Knowledge/Query.antt =====
-- internal/knowledge/domain/query.go: validation.
use flowanything.Common.{String, Option, none, some, ◌==◌, trim_space, if◌then◌else◌}
use flowanything.Platform.{AppError, new, invalid_argument, is_empty}
use flowanything.Knowledge.Types.{BaseStatus, other, TopK, negative, top, Base, Query, Document}

abbrev pub invalid : String → Option AppError
invalid message = some (new invalid_argument message)

-- The `switch` on the status.
unfoldable pub validate_status : BaseStatus → Option AppError
validate_status (other s) = invalid "unsupported knowledge base status"
validate_status _ = none

-- ValidateKnowledgeBase
unfoldable pub validate_knowledge_base : Base → Option AppError
unfolding validate_status is_empty
validate_knowledge_base b =
    if is_empty b.tenant_id
    then invalid "tenant_id is required"
    else if trim_space b.name == ""
    then invalid "knowledge base name is required"
    else validate_status b.status

validate_top_k : TopK → Option AppError
validate_top_k (negative n) = invalid "top_k cannot be negative"
validate_top_k (top n) = none

-- ValidateQuery
unfoldable pub validate_query : Query → Option AppError
unfolding validate_top_k is_empty
validate_query q =
    if is_empty q.tenant_id
    then invalid "tenant_id is required"
    else if trim_space q.text == ""
    then invalid "query text is required"
    else validate_top_k q.top_k

-- ValidateDocument
unfoldable pub validate_document : Document → Option AppError
unfolding is_empty
validate_document d =
    if is_empty d.tenant_id
    then invalid "tenant_id is required"
    else if is_empty d.kb_id
    then invalid "kb_id is required"
    else if trim_space d.title == ""
    then invalid "document title is required"
    else if trim_space d.text == ""
    then invalid "document text is required"
    else none
