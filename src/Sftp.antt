-- ===== src/Sftp.antt =====
-- tools/sftp/security.go: the checks of paths on the remote side.
pub mod Clean
pub mod Walk
pub mod Examples
use agent_tool.Base.{
  ℕ, Bool, true, false, not, ◌&&◌, ◌||◌, List, [], ◌∷◌, ◌++◌, map, ◌==◌, if◌then◌else◌, Bytes,
  codes, bytes_eq, split, join, trim_right,
}

-- `cleaned[:len(cleaned)-1]`, and nothing where there is nothing.
unfoldable pub drop_last : List Bytes → List Bytes
drop_last [] = []
drop_last (x ∷ []) = []
drop_last (x ∷ y ∷ xs) = x ∷ drop_last (y ∷ xs)

-- The `switch part` of `posixClean`.
unfoldable pub clean_part : List Bytes → Bytes → List Bytes
clean_part cleaned part =
    if bytes_eq part [] || bytes_eq part (codes ".")
    then cleaned
    else if bytes_eq part (codes "..")
    then drop_last cleaned
    else cleaned ++ (part ∷ [])

unfoldable pub clean_parts : List Bytes → List Bytes → List Bytes
clean_parts cleaned [] = cleaned
clean_parts cleaned (part ∷ parts) = clean_parts (clean_part cleaned part) parts

abbrev pub is_slash : ℕ → Bool
is_slash c = c == b'/'

abbrev pub is_empty : Bytes → Bool
is_empty [] = true
is_empty (c ∷ s) = false

-- `posixClean`.
unfoldable pub posix_clean : Bytes → Bytes
posix_clean path =
    let p = trim_right is_slash path in
    if is_empty p then codes "/" else b'/' ∷ join (clean_parts [] (split p b'/')) (codes "/")

-- `dangerousRemotePaths`.
abbrev pub dangerous_remote_paths : List Bytes
dangerous_remote_paths =
    codes "/"
    ∷ (codes "/home"
        ∷ (codes "/root"
            ∷ (codes "/etc"
                ∷ (codes "/var"
                    ∷ (codes "/usr"
                        ∷ (codes "/bin"
                            ∷ (codes "/sbin"
                                ∷ (codes "/boot"
                                    ∷ (codes "/dev"
                                        ∷ (codes "/proc"
                                            ∷ (codes "/sys"
                                                ∷ (codes "/tmp"
                                                    ∷ (codes "/opt"
                                                        ∷ (codes "/lib"
                                                            ∷ (codes "/lib64" ∷ [])))))))))))))))

unfoldable pub is_listed : Bytes → List Bytes → Bool
is_listed path [] = false
is_listed path (d ∷ ds) = let rest = is_listed path ds in if bytes_eq path d then true else rest

unfoldable pub is_dangerous_path : Bytes → Bool
is_dangerous_path remote_path = is_listed (posix_clean remote_path) dangerous_remote_paths

-- The errors of `validateRemotePath`.
pub data PathCheck : Type 0 where
  valid path_required null_byte : PathCheck

unfoldable pub has_null : Bytes → Bool
has_null [] = false
has_null (c ∷ s) = let rest = has_null s in if c == 0 then true else rest

unfoldable pub validate_remote_path : Bytes → PathCheck
validate_remote_path path =
    if is_empty path then path_required else if has_null path then null_byte else valid
