-- ===== src/Workflow/Values/Maps.antt =====
-- Maps with string keys: reading after a write, and maps without a key twice.
use flowanything.Common.{String, ◌≡◌, none, some, ◌==◌, eq_iff, if◌then◌else◌, arith}
use flowanything.Workflow.Values.{Tree, Fields, empty, entry, get_field, set_field}

pub get_field-set_field :
    (key other : String) (value : Tree) (fs : Fields)
    → get_field other (set_field key value fs)
      ≡ (if key == other then some value else get_field other fs)
unfolding get_field set_field
get_field-set_field key other value empty = ground arith
get_field-set_field key other value (entry name old fs) = ground (
  arith,
  get_field-set_field key other value fs,
  eq_iff name key,
  eq_iff name other,
  eq_iff key other,
)

-- No key stands twice, as in a Go map.
abbrev pub IsMap : Fields → Type 0
IsMap empty = Unit
IsMap (entry key value fs) = (get_field key fs ≡ none) × IsMap fs
