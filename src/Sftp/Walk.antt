-- ===== src/Sftp/Walk.antt =====
-- tools/sftp/operations.go: `walkRemoteDir` and `opRm`. The remote directories are a tree, and reading
-- one of them may fail. What the client answers to a call that removes something is an argument.
pub mod Laws
use agent_tool.Base.{
  ℕ, zero, suc, ◌+◌, ◌≤◌, ◌<◌, max, ◌≡◌, refl, sym, ap, ◌∙◌, Bool, true, false, not, ◌&&◌, List, [],
  ◌∷◌, ◌++◌, inl, inr, arith, ltb, if◌then◌else◌, Bool-cases, Bytes, codes, length, length-append,
  append-nil, append_assoc, map, Option, none, some,
}
use agent_tool.Sftp.{is_dangerous_path, validate_remote_path, PathCheck, valid}

-- An entry of a directory, and the entries in the order of `ReadDir`.
mutual
  pub data Node : Type 0 where
    symlink file unreadable : Node
    dir : Nodes → Node

  pub data Nodes : Type 0 where
    no_nodes : Nodes
    node : Bytes → Node → Nodes → Nodes

abbrev pub max_recurse_depth : ℕ
max_recurse_depth = 100

abbrev pub max_delete_items : ℕ
max_delete_items = 10000

-- `dir + "/" + entry.Name()`.
abbrev pub full_path : Bytes → Bytes → Bytes
full_path path name = path ++ (b'/' ∷ name)

-- What `walkRemoteDir` returns, its errors included.
pub data Walk : Type 0 where
  walked : List Bytes → List Bytes → Walk
  depth_exceeded items_exceeded : Walk
  read_failed : Bytes → Walk

-- The loop over the entries of a directory, with the lists collected so far.
unfoldable pub walk_entries : Nodes → Bytes → ℕ → List Bytes → List Bytes → Walk
walk_entries no_nodes path depth files dirs = walked files dirs
walk_entries (node name symlink rest) path depth files dirs =
    walk_entries rest path depth files dirs
walk_entries (node name file rest) path depth files dirs =
    let files' = files ++ (full_path path name ∷ []) in
    let more = walk_entries rest path depth files' dirs in
    if ltb max_delete_items (length files' + length dirs) then items_exceeded else more
walk_entries (node name unreadable rest) path depth files dirs =
    if ltb max_recurse_depth (suc depth) then depth_exceeded else read_failed (full_path path name)
walk_entries (node name (dir entries) rest) path depth files dirs =
    if ltb max_recurse_depth (suc depth)
    then depth_exceeded
    else elim (walk_entries entries (full_path path name) (suc depth) [] []) [
      | walked sub_files sub_dirs ↦
          let more =
            walk_entries rest path depth (files ++ sub_files)
              ((dirs ++ sub_dirs) ++ (full_path path name ∷ [])) in
          if ltb max_delete_items (length files + length dirs + length sub_files + length sub_dirs)
          then items_exceeded
          else more
      | e ↦ e
    ]

-- `walkRemoteDir` on a directory.
unfoldable pub walk_remote_dir : Node → Bytes → ℕ → Walk
walk_remote_dir (dir entries) path depth =
    if ltb max_recurse_depth depth then depth_exceeded else walk_entries entries path depth [] []
walk_remote_dir n path depth =
    if ltb max_recurse_depth depth then depth_exceeded else read_failed path

-- The calls that remove something.
pub data Call : Type 0 where
  remove remove_directory : Bytes → Call

-- What `opRm` does: an error before any call, all calls, or the calls up to one that fails.
pub data Removal : Type 0 where
  invalid_path : PathCheck → Removal
  refused_dangerous stat_failed : Removal
  walk_failed : Walk → Removal
  removed : List Call → Removal
  stopped : List Call → Call → Removal

-- What the client answers to a call, after the calls before it.
abbrev pub Client : Type 0
Client = List Call → Call → Bool

-- A loop of calls behind the ones that are done, with its return at the first that fails.
unfoldable pub each_call : Client → List Call → List Call → Removal
each_call client done [] = removed done
each_call client done (c ∷ cs) =
    let rest = each_call client (done ++ (c ∷ [])) cs in
    if client done c then rest else stopped done c

abbrev pub then_remove : Removal → (List Call → Removal) → Removal
then_remove (removed done) next = next done
then_remove e next = e

-- The two loops of `opRm`, and the directory itself.
unfoldable pub remove_walked : Client → Bytes → Walk → Removal
unfolding each_call
remove_walked client path (walked files dirs) =
    then_remove (each_call client [] (map remove files)) (λ done.
      then_remove (each_call client done (map remove_directory dirs))
        (λ done'. each_call client done' (remove_directory path ∷ [])))
remove_walked client path w = walk_failed w

-- The part of `opRm` behind `client.Stat`.
unfoldable pub remove_tree : Client → Bytes → Option Node → Removal
unfolding each_call remove_walked
remove_tree client path none = stat_failed
remove_tree client path (some symlink) = each_call client [] (remove path ∷ [])
remove_tree client path (some file) = each_call client [] (remove path ∷ [])
remove_tree client path (some unreadable) =
    remove_walked client path (walk_remote_dir unreadable path 0)
remove_tree client path (some (dir entries)) =
    remove_walked client path (walk_remote_dir (dir entries) path 0)

abbrev pub remove_checked : Client → Bool → Bytes → Option Node → Removal
remove_checked client recursive path found =
    if not recursive
    then each_call client [] (remove path ∷ [])
    else if is_dangerous_path path
    then refused_dangerous
    else remove_tree client path found

unfoldable pub op_rm : Client → Bool → Bytes → Option Node → Removal
unfolding each_call remove_walked remove_tree
op_rm client recursive path found = elim (validate_remote_path path) [
  | valid ↦ remove_checked client recursive path found
  | e ↦ invalid_path e
]
