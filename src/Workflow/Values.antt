-- ===== src/Workflow/Values.antt =====
-- The values of type `any` that a workflow holds. The engine copies each map before it changes it, so
-- maps are trees here, and cloneMap and cloneValue change nothing; a nil map is an empty one.
pub mod Maps
use flowanything.Common.{ℕ, String, Bool, Option, none, some, ◌==◌, if◌then◌else◌}

mutual
  pub data Tree : Type 0 where
    null : Tree
    bool : Bool → Tree
    -- A Go number or any other scalar: the name of its type and its bit pattern.
    scalar : String → ℕ → Tree
    text : String → Tree
    list : Trees → Tree
    dict : Fields → Tree

  pub data Trees : Type 0 where
    nil : Trees
    cons : Tree → Trees → Trees

  -- map[string]any
  pub data Fields : Type 0 where
    empty : Fields
    entry : String → Tree → Fields → Fields

-- m[key]
unfoldable pub get_field : String → Fields → Option Tree
get_field key empty = none
get_field key (entry name value fs) =
    let rest = get_field key fs in if name == key then some value else rest

-- m[key] = value
unfoldable pub set_field : String → Tree → Fields → Fields
set_field key value empty = entry key value empty
set_field key value (entry name old fs) =
    let rest = set_field key value fs in
    if name == key then entry key value fs else entry name old rest

-- len(m) > 0
abbrev pub has_fields : Fields → Bool
has_fields empty = Bool.false
has_fields (entry _ _ _) = Bool.true

-- value.(map[string]any)
abbrev pub as_dict : Option Tree → Option Fields
as_dict (some (dict fs)) = some fs
as_dict _ = none

abbrev pub or_empty : Option Fields → Fields
or_empty (some fs) = fs
or_empty none = empty
