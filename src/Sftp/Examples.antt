-- ===== src/Sftp/Examples.antt =====
-- tools/sftp/security.go and tools/sftp/operations.go: paths and trees, and the theorems at concrete
-- inputs.
use agent_tool.Base.{
  ◌≡◌, refl, true, not, [], ◌∷◌, ◌++◌, map, some, arith, bytes_eq, codes, split, join, trim_right,
  trim_left,
}
use agent_tool.Sftp.{
  posix_clean, clean_parts, clean_part, drop_last, is_dangerous_path, is_listed,
  validate_remote_path, has_null,
}
use agent_tool.Sftp.Clean.{is_dangerous_path_spelling}
use agent_tool.Sftp.Walk.{
  Nodes, symlink, file, dir, no_nodes, node, op_rm, stopped, remove, remove_directory, remove_tree,
  Client, each_call, remove_walked, walk_remote_dir, walk_entries,
}
use agent_tool.Sftp.Walk.Laws.{Runs, op_rm-Runs, files_below, dirs_below, all_readable, height}

cleans : posix_clean (codes "/etc//x/./../../var/log/") ≡ codes "/var/log"
unfolding posix_clean clean_parts clean_part drop_last split join trim_right trim_left bytes_eq
cleans = refl

finds_the_root : is_dangerous_path (codes "a/..") ≡ true
unfolding is_dangerous_path is_listed posix_clean clean_parts clean_part drop_last split join
    trim_right trim_left bytes_eq
finds_the_root = refl

abbrev small_tree : Nodes
small_tree =
    node (codes "a") file
      (node (codes "d") (dir (node (codes "b") file no_nodes)) (node (codes "l") symlink no_nodes))

-- A server that refuses to remove the directory with the link, which is not empty.
abbrev keeps_link : Client
keeps_link done (remove path) = true
keeps_link done (remove_directory path) = not (bytes_eq path (codes "/srv/x"))

-- The delete fails at the directory, because the link in it is not removed.
removes :
    op_rm keeps_link true (codes "/srv/x") (some (dir small_tree))
    ≡ stopped
        (remove (codes "/srv/x/a")
          ∷ (remove (codes "/srv/x/d/b") ∷ (remove_directory (codes "/srv/x/d") ∷ [])))
        (remove_directory (codes "/srv/x"))
unfolding op_rm remove_tree remove_walked each_call walk_remote_dir walk_entries
    validate_remote_path has_null is_dangerous_path is_listed posix_clean clean_parts clean_part
    drop_last split join trim_right trim_left bytes_eq
removes = refl

is_dangerous_path_spelling_example :
    (is_dangerous_path (codes "/etc" ++ codes "/") ≡ is_dangerous_path (codes "/etc"))
    × (is_dangerous_path (codes "/etc" ++ codes "/.") ≡ is_dangerous_path (codes "/etc"))
    × (is_dangerous_path (codes "/etc" ++ (b'/' ∷ (codes "ssl" ++ codes "/..")))
        ≡ is_dangerous_path (codes "/etc"))
is_dangerous_path_spelling_example =
    is_dangerous_path_spelling (codes "/etc") (codes "ssl")
      ((ground arith, (ground arith, (ground arith, tt))), ground arith, ground arith, ground arith)

op_rm-Runs_example :
    Runs keeps_link []
      (map remove (files_below small_tree (codes "/srv/x"))
        ++ (map remove_directory (dirs_below small_tree (codes "/srv/x"))
            ++ (remove_directory (codes "/srv/x") ∷ [])))
      (op_rm keeps_link true (codes "/srv/x") (some (dir small_tree)))
unfolding validate_remote_path has_null is_dangerous_path is_listed posix_clean clean_parts
    clean_part drop_last split join trim_right trim_left bytes_eq files_below dirs_below height
    all_readable
op_rm-Runs_example =
    op_rm-Runs keeps_link (codes "/srv/x") small_tree refl refl refl (omega arith) (omega arith)
