-- ===== src/Sftp/Walk/Laws.antt =====
-- tools/sftp/operations.go: what a recursive delete removes, and its limits.
use mathlib.Core.Path.{fun_ext}
use agent_tool.Base.{
  ℕ, suc, ◌+◌, ◌≤◌, max, ◌≡◌, refl, ap, ◌∙◌, inl, inr, Bool-cases, Bool, true, false, ◌&&◌, List,
  [], ◌∷◌, ◌++◌, arith, ltb, Bytes, length, length-append, append-nil, append_assoc, map, some,
}
use agent_tool.Sftp.{is_dangerous_path, validate_remote_path, valid}
use agent_tool.Sftp.Walk.{
  Nodes, symlink, file, unreadable, dir, no_nodes, node, full_path, walked, walk_entries,
  walk_remote_dir, max_recurse_depth, max_delete_items, Call, remove, remove_directory, Removal,
  removed, stopped, Client, each_call, then_remove, remove_walked, remove_tree, op_rm,
}

-- The files and the directories below a directory, each directory behind what it holds. What is
-- behind a symbolic link is not below.
unfoldable pub files_below : Nodes → Bytes → List Bytes
files_below no_nodes path = []
files_below (node name symlink rest) path = files_below rest path
files_below (node name unreadable rest) path = files_below rest path
files_below (node name file rest) path = full_path path name ∷ files_below rest path
files_below (node name (dir entries) rest) path =
    files_below entries (full_path path name) ++ files_below rest path

unfoldable pub dirs_below : Nodes → Bytes → List Bytes
dirs_below no_nodes path = []
dirs_below (node name symlink rest) path = dirs_below rest path
dirs_below (node name unreadable rest) path = dirs_below rest path
dirs_below (node name file rest) path = dirs_below rest path
dirs_below (node name (dir entries) rest) path =
    dirs_below entries (full_path path name) ++ (full_path path name ∷ dirs_below rest path)

-- The levels and the number of the entries below, and whether all directories can be read.
unfoldable pub height : Nodes → ℕ
height no_nodes = 0
height (node name symlink rest) = height rest
height (node name unreadable rest) = height rest
height (node name file rest) = height rest
height (node name (dir entries) rest) = max (suc (height entries)) (height rest)

unfoldable pub all_readable : Nodes → Bool
all_readable no_nodes = true
all_readable (node name symlink rest) = all_readable rest
all_readable (node name unreadable rest) = false
all_readable (node name file rest) = all_readable rest
all_readable (node name (dir entries) rest) = all_readable entries && all_readable rest

abbrev pub items : Nodes → Bytes → ℕ
items entries path = length (files_below entries path) + length (dirs_below entries path)

both : (a b : Bool) → (a && b ≡ true) → (a ≡ true) × (b ≡ true)
both a b h = (ground arith, ground arith)

within : (limit n : ℕ) → n ≤ limit → ltb limit n ≡ false
within limit n h = ground arith

walk_entries_lem :
    (entries : Nodes) (path : Bytes) (depth : ℕ) (files dirs : List Bytes)
    → all_readable entries ≡ true
    → depth + height entries ≤ max_recurse_depth
    → length files + length dirs + items entries path ≤ max_delete_items
    → walk_entries entries path depth files dirs
      ≡ walked (files ++ files_below entries path) (dirs ++ dirs_below entries path)
unfolding walk_entries files_below dirs_below height all_readable
walk_entries_lem no_nodes path depth files dirs r h c = rw (append-nil files, append-nil dirs) refl
walk_entries_lem (node name symlink rest) path depth files dirs r h c =
    walk_entries_lem rest path depth files dirs r h c
walk_entries_lem (node name unreadable rest) path depth files dirs r h c = ground arith
walk_entries_lem (node name file rest) path depth files dirs r h c =
    let one = full_path path name ∷ [] in
    let n = length-append files one in
    let few = within max_delete_items (length (files ++ one) + length dirs) (omega arith) in
    rw few (
      walk_entries_lem rest path depth (files ++ one) dirs r h (omega arith)
      ∙ rw (append_assoc files one (files_below rest path)) refl)
walk_entries_lem (node name (dir entries) rest) path depth files dirs r h c =
    let p = full_path path name in
    let f = files_below entries p in
    let d = dirs_below entries p in
    let nf = length-append f (files_below rest path) in
    let nd = length-append d (p ∷ dirs_below rest path) in
    let nfs = length-append files f in
    let nds = length-append (dirs ++ d) (p ∷ []) in
    let nds' = length-append dirs d in
    let (re, rr) = both (all_readable entries) (all_readable rest) r in
    let shallow = within max_recurse_depth (suc depth) (omega arith) in
    let few =
      within max_delete_items (length files + length dirs + length f + length d) (omega arith) in
    let below = walk_entries_lem entries p (suc depth) [] [] re (omega arith) (omega arith) in
    rw (shallow, below, few)
      (walk_entries_lem rest path depth (files ++ f) ((dirs ++ d) ++ (p ∷ [])) rr (omega arith)
          (omega arith)
        ∙ rw
            (
              append_assoc files f (files_below rest path),
              append_assoc (dirs ++ d) (p ∷ []) (dirs_below rest path),
              append_assoc dirs d (p ∷ dirs_below rest path),
            )
            refl)

-- `Runs client done todo r`: the calls of `todo` are made in their order behind those that are done, up to
-- the first that the client refuses, and `r` tells which were made and which was refused.
pub data Runs (client : Client) : List Call → List Call → Removal → Type 0 where
  finished : (done : List Call) → Runs client done [] (removed done)
  refused :
      (done : List Call) (c : Call) (cs : List Call)
      → client done c ≡ false
      → Runs client done (c ∷ cs) (stopped done c)
  accepted :
      (done : List Call) (c : Call) (cs : List Call) (r : Removal)
      → client done c ≡ true
      → Runs client (done ++ (c ∷ [])) cs r
      → Runs client done (c ∷ cs) r

each_call-Runs :
    (client : Client) (done cs : List Call) → Runs client done cs (each_call client done cs)
unfolding each_call
each_call-Runs client done [] = finished done
each_call-Runs client done (c ∷ cs) = elim (Bool-cases (client done c)) [
  | inl ok ↦ rw ok (accepted done c cs _ ok (each_call-Runs client (done ++ (c ∷ [])) cs))
  | inr bad ↦ rw bad (refused done c cs bad)
]

each_call-append :
    (client : Client) (done xs ys : List Call)
    → then_remove (each_call client done xs) (λ d. each_call client d ys)
      ≡ each_call client done (xs ++ ys)
unfolding each_call
each_call-append client done [] ys = refl
each_call-append client done (c ∷ xs) ys = elim (Bool-cases (client done c)) [
  | inl ok ↦ rw ok (each_call-append client (done ++ (c ∷ [])) xs ys)
  | inr bad ↦ rw bad refl
]

remove_walked-each_call :
    (client : Client) (path : Bytes) (files dirs : List Bytes)
    → remove_walked client path (walked files dirs)
      ≡ each_call client []
          (map remove files ++ (map remove_directory dirs ++ (remove_directory path ∷ [])))
unfolding remove_walked
remove_walked-each_call client path files dirs =
    ap (then_remove (each_call client [] (map remove files)))
      (fun_ext (λ done. each_call-append client done (map remove_directory dirs) _))
    ∙ each_call-append client [] (map remove files) _

-- Of a tree that can be read and is within the limits on depth and number, a recursive delete of a
-- valid path that is not protected asks the client to remove every file below it, then every
-- directory behind those that it holds, and the directory itself at the end, in this order and
-- nothing else; at the first call that the client refuses, whichever that is, it stops there.
pub op_rm-Runs :
    (client : Client) (path : Bytes) (entries : Nodes)
    → validate_remote_path path ≡ valid
    → is_dangerous_path path ≡ false
    → all_readable entries ≡ true
    → height entries ≤ max_recurse_depth
    → items entries path ≤ max_delete_items
    → Runs client []
        (map remove (files_below entries path)
          ++ (map remove_directory (dirs_below entries path) ++ (remove_directory path ∷ [])))
        (op_rm client true path (some (dir entries)))
unfolding op_rm remove_tree walk_remote_dir
op_rm-Runs client path entries v d r h c =
    rw
      (
        op_rm,
        v,
        d,
        walk_entries_lem entries path 0 [] [] r (omega arith) (omega arith),
        remove_walked-each_call client path (files_below entries path) (dirs_below entries path),
      )
      (each_call-Runs client [] _)
