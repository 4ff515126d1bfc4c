-- ===== src/Staging/Paths.antt =====
-- std::filesystem::path, as far as the staging uses it: the names of a path, from the root or not. No
-- name is empty, and none holds a `/`.
use cpdn_control.Prelude.{Bool, true, false, not, ◌&&◌, List, [], ◌∷◌, ◌++◌, if◌then◌else◌}
use cpdn_control.Text.{Bytes, codes, equal}

pub record FsPath : Type 0 where
  pub rooted : Bool
  pub names : List Bytes

-- operator/ of two paths
unfoldable pub join : FsPath → FsPath → FsPath
join p q = if q.rooted then q else record { rooted = p.rooted; names = p.names ++ q.names }

-- operator/ with one name
abbrev pub child : FsPath → Bytes → FsPath
child p name = record { rooted = p.rooted; names = p.names ++ name ∷ [] }

unfoldable pub last_name : List Bytes → Bytes
last_name [] = []
last_name (name ∷ []) = name
last_name (name ∷ next ∷ names) = last_name (next ∷ names)

-- filename()
abbrev pub filename : FsPath → Bytes
filename p = last_name p.names

unfoldable pub all_but_last : List Bytes → List Bytes
all_but_last [] = []
all_but_last (name ∷ []) = []
all_but_last (name ∷ next ∷ names) = name ∷ all_but_last (next ∷ names)

-- parent_path()
abbrev pub parent_path : FsPath → FsPath
parent_path p = record { rooted = p.rooted; names = all_but_last p.names }

-- A name and its `..` behind it fall away, and so does a `.`; above the root there is nothing. `before` are the names kept, the last first.
unfoldable pub normal_names : Bool → List Bytes → List Bytes → List Bytes
normal_names rooted before [] = reversed before []
  where
    reversed : List Bytes → List Bytes → List Bytes
    reversed [] names = names
    reversed (name ∷ before) names = reversed before (name ∷ names)
normal_names rooted before (name ∷ names) =
    let skipped = normal_names rooted before names in
    let kept = normal_names rooted (name ∷ before) names in
    let back = normal_names rooted (dropped before) names in
    if equal name (codes ".")
    then skipped
    else if not (equal name (codes ".."))
    then kept
    else if goes_back before
    then back
    else if rooted
    then skipped
    else kept
  where
    goes_back : List Bytes → Bool
    goes_back [] = false
    goes_back (last ∷ before) = not (equal last (codes ".."))

    dropped : List Bytes → List Bytes
    dropped [] = []
    dropped (last ∷ before) = before

-- The names of a path that has none left are a point.
abbrev pub or_point : Bool → List Bytes → List Bytes
or_point rooted [] = if rooted then [] else codes "." ∷ []
or_point rooted (name ∷ names) = name ∷ names

unfoldable pub lexically_normal : FsPath → FsPath
lexically_normal p = record {
  rooted = p.rooted;
  names = or_point p.rooted (normal_names p.rooted [] p.names);
}

unfoldable pub same_names : List Bytes → List Bytes → Bool
same_names [] [] = true
same_names (x ∷ xs) (y ∷ ys) = equal x y && same_names xs ys
same_names _ _ = false

-- operator==
abbrev pub same_path : FsPath → FsPath → Bool
same_path p q = (if p.rooted then q.rooted else not q.rooted) && same_names p.names q.names
