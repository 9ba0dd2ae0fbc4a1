-- ===== src/Engine/Paths.antt =====
-- core/flowengine/context.go: paths into the context, as text: `$.variables.query`.
use flowanything.Common.{
  String, List, [], ◌∷◌, ◌==◌, if◌then◌else◌, trim_space, trim_prefix, split_on,
}

-- The head of a path, with its spaces and its `$.`, `$` or `.` taken off.
unfoldable pub trim_path : String → String
unfolding trim_space trim_prefix
trim_path path = trim_prefix (trim_prefix (trim_prefix (trim_space path) "$.") "$") "."

-- parts[0], parts[1:]; `strings.Split` returns at least one part.
unfoldable pub root_and_parts : List String → String × List String
root_and_parts [] = ("", [])
root_and_parts (root ∷ parts) = (root, parts)

-- splitPath of context.go
unfoldable pub split_path : String → String × List String
unfolding trim_path root_and_parts split_on
split_path path =
    let p = trim_path path in if p == "" then ("", []) else root_and_parts (split_on b'.' p)

-- splitFieldPath of context.go, and splitField of mapping.go
unfoldable pub split_field : String → List String
unfolding trim_path split_on
split_field path = let p = trim_path path in if p == "" then [] else split_on b'.' p
