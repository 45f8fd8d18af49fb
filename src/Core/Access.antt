-- ===== src/Core/Access.antt =====
-- core/errors.py: the admin check, over the namespace "rbac_roles" from a subject to its roles.
use gutencode_test.Prelude.{
  Bool, ◌&&◌, ◌||◌, Option, none, some, List, [], Text, codes, Text-Eq, ◌==◌, elem,
}
use gutencode_test.Core.Table.{Table, get}

abbrev pub Roles : Type 0
Roles = Table Text (List Text)

abbrev pub roles_or_empty : Option (List Text) → List Text
roles_or_empty none = []
roles_or_empty (some roles) = roles

-- `test_sessions` is the test seam, under which the fixed test admin is one.
unfoldable pub is_admin : Bool → Roles → Text → Bool
is_admin test_sessions roles subject =
    (test_sessions && subject == codes "root")
    || elem (codes "admin") (roles_or_empty (get subject roles))
