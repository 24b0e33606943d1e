-- ===== src/Workspace.antt =====
-- core/workspace/manager.go: the workspaces and the one that a directory belongs to. A path that is
-- resolved is a parameter: `filepath.Clean`, `filepath.EvalSymlinks` and `os.Stat` answer from
-- outside.
use codex_link_clawbot.Prelude.{
  ltb, ◌==◌, if◌then◌else◌, reject_if, ◌>>=◌, ◌>>◌, Fallible, ok, length, any, ℕ, Bool, true, false,
  ◌&&◌, ◌||◌, not, Option, none, some, List, [], ◌∷◌, ◌++◌,
}
use codex_link_clawbot.Text.{Text, text_eq, is_empty, len, trim_space, after_prefix}
pub mod Matches

-- `Definition`
pub record Definition : Type 0 where
  pub id : Text
  pub name : Text
  pub root : Text

pub data WorkspaceError : Type 0 where
  no_workspace relative_root root_unavailable workspace_repeated : WorkspaceError

-- What the file system answers: `filepath.Clean` with `filepath.IsAbs`, whether a path is a
-- directory, and `filepath.EvalSymlinks`.
pub record FileSystem : Type 0 where
  pub clean : Text → Text
  pub is_absolute : Text → Bool
  pub is_directory : Text → Bool
  pub resolve_links : Text → Option Text

unfoldable pub has_id : Text → List Definition → Bool
has_id id items = any (λ d. text_eq d.id id) items

-- One item of the loop of `NewManager`, as it is kept.
unfoldable pub trimmed_definition : FileSystem → Definition → Definition
unfolding trim_space is_empty
trimmed_definition fs d =
    let id = trim_space d.id in
    let name = trim_space d.name in
    record {
      id = id;
      name = if is_empty name then id else name;
      root = fs.clean (trim_space d.root);
    }

-- The loop of `NewManager`, after the items that it has kept.
unfoldable pub add_definitions :
    FileSystem → List Definition → List Definition → Fallible WorkspaceError (List Definition)
unfolding trimmed_definition has_id is_empty
add_definitions fs kept [] = ok kept
add_definitions fs kept (d ∷ rest) = do
  let item = trimmed_definition fs d
  reject_if (not (fs.is_absolute item.root)) relative_root
  reject_if (not (fs.is_directory item.root)) root_unavailable
  reject_if (has_id item.id kept || is_empty item.id) workspace_repeated
  add_definitions fs (kept ++ (item ∷ [])) rest

-- `NewManager`
unfoldable pub new_manager :
    FileSystem → List Definition → Fallible WorkspaceError (List Definition)
unfolding add_definitions
new_manager fs items = do reject_if (length items == 0) no_workspace; add_definitions fs [] items

-- `Get`
unfoldable pub get_workspace : Text → List Definition → Option Definition
get_workspace id [] = none
get_workspace id (d ∷ rest) =
    let later = get_workspace id rest in if text_eq d.id id then some d else later

-- `canonicalPath`
unfoldable pub canonical_path : FileSystem → Text → Option Text
unfolding trim_space
canonical_path fs path =
    let cleaned = fs.clean (trim_space path) in
    if fs.is_absolute cleaned then fs.resolve_links cleaned else none

unfoldable pub starts_with_slash : Text → Bool
starts_with_slash [] = false
starts_with_slash (c ∷ s) = c == b'/'

-- `within` on two clean absolute paths: the root itself, or a path below it.
unfoldable pub within : Text → Text → Bool
unfolding after_prefix text_eq
within path root =
    text_eq path root
    || text_eq root (b'/' ∷ [])
    || (elim (after_prefix root path) [ none ↦ false | some rest ↦ starts_with_slash rest ])

-- The loop of `Match`, with the best workspace so far and the bytes of its root.
unfoldable pub match_from :
    FileSystem → Text → Option (Definition × ℕ) → List Definition → Option (Definition × ℕ)
unfolding canonical_path within len
match_from fs path best [] = best
match_from fs path best (d ∷ rest) =
    let longest : Text → Bool = λ root. elim best [ none ↦ true | some b ↦ ltb b.1 (len root) ] in
    let next : Option (Definition × ℕ) = elim (canonical_path fs d.root) [
      | none ↦ best
      | some root ↦ if longest root && within path root then some (d, len root) else best
    ] in
    match_from fs path next rest

-- `Match`
unfoldable pub match_workspace : FileSystem → Text → List Definition → Option Definition
unfolding canonical_path match_from
match_workspace fs cwd items = elim (canonical_path fs cwd) [
  | none ↦ none
  | some path ↦ elim (match_from fs path none items) [ none ↦ none | some best ↦ some best.0 ]
]

-- `Contains`
unfoldable pub contains_path : FileSystem → Text → Text → Bool
unfolding canonical_path within
contains_path fs cwd root = elim (canonical_path fs cwd) [
  | none ↦ false
  | some path ↦ elim (canonical_path fs root) [ none ↦ false | some base ↦ within path base ]
]
