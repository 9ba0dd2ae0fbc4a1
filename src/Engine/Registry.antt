-- ===== src/Engine/Registry.antt =====
-- core/flowengine/registry.go: node executors by the name of their node type.
use flowanything.Common.{
  String, Option, none, some, List, [], ◌==◌, if◌then◌else◌, Outcome, ok, err,
}
use flowanything.Common.Assoc.{lookup, insert}
use flowanything.Engine.Values.{Error, executor_nil, executor_type_required}
use flowanything.Engine.Heap.{Heap}
use flowanything.Engine.Spec.{NodeSpec, NodeRequest, NodeResult}

-- The interface NodeExecutor. `validate` returns an error or nothing; `execute` may change any map,
-- and leaves its heap behind whatever comes of it.
pub record NodeExecutor : Type 0 where
  pub type : String
  pub validate : NodeSpec → Heap → Option Error
  pub execute : NodeRequest → Heap → Outcome Error NodeResult × Heap

abbrev pub Registry : Type 0
Registry = List (String × NodeExecutor)

-- NewRegistry
abbrev pub new_registry : Registry
new_registry = []

-- Register; `none` is a nil executor.
unfoldable pub register : Option NodeExecutor → Registry → Outcome Error Registry
register none r = err executor_nil
register (some e) r = if e.type == "" then err executor_type_required else ok (insert e.type e r)

-- Get
unfoldable pub get : String → Registry → Option NodeExecutor
get type r = lookup type r
