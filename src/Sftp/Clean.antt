-- ===== src/Sftp/Clean.antt =====
-- tools/sftp/security.go: the normal form of a remote path, and the protected directories.
use mathlib.Core.List.{reverse, reverse-append, reverse-reverse}
use agent_tool.Base.{
  ◌≡◌, ◌≢◌, refl, sym, ap, ◌∙◌, false, ◌||◌, List, [], ◌∷◌, ◌++◌, inl, inr, arith, ◌==◌, Bool-cases,
  List-cases, differs, Bytes, codes, bytes_eq, bytes_eq_iff, All, All-append, append-nil,
  append_assoc, split, join, trim_right, trim_left,
}
use agent_tool.Sftp.{drop_last, clean_part, clean_parts, is_slash, posix_clean, is_dangerous_path}

-- A name that a path can go through: no slash, not empty, and neither dot nor dots.
abbrev pub IsName : Bytes → Type 0
IsName s = All (λ c. c ≢ b'/') s × (s ≢ []) × (s ≢ codes ".") × (s ≢ codes "..")

-- Where a path leads, read from the root.
unfoldable pub resolve : Bytes → List Bytes
resolve path = clean_parts [] (split path b'/')

split-cases : (s : Bytes) → (l : Bytes) × (ls : List Bytes) × (split s b'/' ≡ l ∷ ls)
unfolding split
split-cases [] = ([], [], refl)
split-cases (c ∷ s) =
    let (l, ls, e) = split-cases s in
    elim (Bool-cases (c == b'/')) [
      | inl h ↦ ([], split s b'/', rw h refl)
      | inr h ↦ (c ∷ l, ls, rw (h, e) refl)
    ]

split-append : (p q : Bytes) → split (p ++ (b'/' ∷ q)) b'/' ≡ split p b'/' ++ split q b'/'
unfolding split
split-append [] q = refl
split-append (c ∷ p) q =
    let (l, ls, e) = split-cases p in
    elim (Bool-cases (c == b'/')) [
      | inl h ↦ rw (h, split-append p q) refl
      | inr h ↦ rw (h, split-append p q, e) refl
    ]

split_name : (s : Bytes) → All (λ c. c ≢ b'/') s → split s b'/' ≡ s ∷ []
unfolding split
split_name [] h = refl
split_name (c ∷ s) (h, hs) = rw (differs c b'/' h, split_name s hs) refl

split-join :
    (s : Bytes) (names : List Bytes)
    → All IsName (s ∷ names)
    → split (join (s ∷ names) (codes "/")) b'/' ≡ s ∷ names
unfolding join
split-join s [] (h, _) = split_name s h.0
split-join s (t ∷ names) (h, hs) =
    split-append s (join (t ∷ names) (codes "/"))
    ∙ rw (split_name s h.0, split-join t names hs) refl

clean_parts-append : (c a b : List Bytes) → clean_parts c (a ++ b) ≡ clean_parts (clean_parts c a) b
unfolding clean_parts
clean_parts-append c [] b = refl
clean_parts-append c (x ∷ a) b = clean_parts-append (clean_part c x) a b

-- A path behind another one.
resolve-append : (p q : Bytes) → resolve (p ++ (b'/' ∷ q)) ≡ clean_parts (resolve p) (split q b'/')
unfolding resolve
resolve-append p q = rw (split-append p q) (clean_parts-append [] (split p b'/') (split q b'/'))

resolve_slash : (p : Bytes) → resolve (p ++ codes "/") ≡ resolve p
unfolding clean_parts clean_part bytes_eq split
resolve_slash p = resolve-append p []

resolve-trim_left : (s : Bytes) → resolve (reverse (trim_left is_slash s)) ≡ resolve (reverse s)
unfolding trim_left
resolve-trim_left [] = refl
resolve-trim_left (c ∷ s) = elim (Bool-cases (c == b'/')) [
  | inr h ↦ rw h refl
  | inl h ↦
      let e : c ≡ b'/' = ground arith in
      rw (h, e)
        (resolve-trim_left s
          ∙ (sym (resolve_slash (reverse s)) ∙ ap resolve (sym (reverse-append (codes "/") s))))
]

-- The normal form is where the path leads, written from the root.
posix_clean_lem : (p : Bytes) → posix_clean p ≡ b'/' ∷ join (resolve p) (codes "/")
unfolding posix_clean trim_right resolve clean_parts clean_part split bytes_eq join
posix_clean_lem p =
    let t = reverse (trim_left is_slash (reverse p)) in
    let same : resolve t ≡ resolve p =
      resolve-trim_left (reverse p) ∙ ap resolve (reverse-reverse p) in
    elim (List-cases t) [
      | inl e ↦ let root : resolve p ≡ [] = sym same ∙ rw e refl in rw (e, root) refl
      | inr (c, s, e) ↦ rw e (ap (λ z. b'/' ∷ join z (codes "/")) (rw e at same))
    ]

-- What `..` leaves of the names before it.
drop_last-snoc : (xs : List Bytes) (x : Bytes) → drop_last (xs ++ (x ∷ [])) ≡ xs
unfolding drop_last
drop_last-snoc [] x = refl
drop_last-snoc (y ∷ []) x = refl
drop_last-snoc (y ∷ z ∷ xs) x = ap (◌∷◌ y) (drop_last-snoc (z ∷ xs) x)

drop_last-IsName : (xs : List Bytes) → All IsName xs → All IsName (drop_last xs)
unfolding drop_last
drop_last-IsName [] h = tt
drop_last-IsName (x ∷ []) h = tt
drop_last-IsName (x ∷ y ∷ xs) (h, hs) = (h, drop_last-IsName (y ∷ xs) hs)

unequal : (a b : Bytes) → a ≢ b → bytes_eq a b ≡ false
unequal a b h = elim (Bool-cases (bytes_eq a b)) [
  | inl e ↦ absurd (h ((bytes_eq_iff a b).0 e))
  | inr e ↦ e
]

not_equal : (a b : Bytes) → bytes_eq a b ≡ false → a ≢ b
not_equal a b h e = let same = (bytes_eq_iff a b).1 e in ground arith

-- A name is put behind the others.
clean_part-name : (c : List Bytes) (x : Bytes) → IsName x → clean_part c x ≡ c ++ (x ∷ [])
unfolding clean_part
clean_part-name c x (_, a, b, d) =
    rw (unequal x [] a, unequal x (codes ".") b, unequal x (codes "..") d) refl

clean_part-IsName :
    (c : List Bytes) (x : Bytes)
    → All (λ b. b ≢ b'/') x
    → All IsName c
    → All IsName (clean_part c x)
unfolding clean_part
clean_part-IsName c x slashes h = elim (Bool-cases (bytes_eq x [] || bytes_eq x (codes "."))) [
  | inl e ↦ rw e h
  | inr e ↦ elim (Bool-cases (bytes_eq x (codes ".."))) [
    | inl e' ↦ rw (e, e') (drop_last-IsName c h)
    | inr e' ↦
        let a : bytes_eq x [] ≡ false = ground arith in
        let b : bytes_eq x (codes ".") ≡ false = ground arith in
        rw (e, e')
          (All-append IsName c (x ∷ []) h (
            (slashes, not_equal x [] a, not_equal x (codes ".") b, not_equal x (codes "..") e'),
            tt,
          ))
  ]
]

split-no_slash : (s : Bytes) → All (All (λ b. b ≢ b'/')) (split s b'/')
unfolding split
split-no_slash [] = (tt, tt)
split-no_slash (c ∷ s) =
    let (l, ls, e) = split-cases s in
    let rest = split-no_slash s in
    elim (Bool-cases (c == b'/')) [
      | inl h ↦ rw h (tt, rest)
      | inr h ↦
          let n : c ≢ b'/' = ground arith in
          let rest' = rw e at rest in rw (h, e) ((n, rest'.0), rest'.1)
    ]

clean_parts-IsName :
    (c parts : List Bytes)
    → All (All (λ b. b ≢ b'/')) parts
    → All IsName c
    → All IsName (clean_parts c parts)
unfolding clean_parts
clean_parts-IsName c [] hs h = h
clean_parts-IsName c (x ∷ parts) (hx, hs) h =
    clean_parts-IsName (clean_part c x) parts hs (clean_part-IsName c x hx h)

resolve-IsName : (p : Bytes) → All IsName (resolve p)
unfolding resolve
resolve-IsName p = clean_parts-IsName [] (split p b'/') (split-no_slash p) tt

clean_parts-names : (c names : List Bytes) → All IsName names → clean_parts c names ≡ c ++ names
unfolding clean_parts
clean_parts-names c [] h = sym (append-nil c)
clean_parts-names c (x ∷ names) (h, hs) =
    clean_parts-names (clean_part c x) names hs
    ∙ rw (clean_part-name c x h) (append_assoc c (x ∷ []) names)

-- Reading the normal form gives the same names.
resolve-join :
    (names : List Bytes) → All IsName names → resolve (b'/' ∷ join names (codes "/")) ≡ names
unfolding clean_parts clean_part bytes_eq split join resolve
resolve-join [] h = resolve-append [] []
resolve-join (x ∷ names) h =
    resolve-append [] (join (x ∷ names) (codes "/"))
    ∙ rw (split-join x names h) (clean_parts-names [] (x ∷ names) h)

-- The normal form of a remote path is its own normal form.
pub posix_clean-posix_clean : (p : Bytes) → posix_clean (posix_clean p) ≡ posix_clean p
posix_clean-posix_clean p =
    rw
      (
        posix_clean_lem p,
        posix_clean_lem (b'/' ∷ join (resolve p) (codes "/")),
        resolve-join (resolve p) (resolve-IsName p),
      )
      refl

clean_part_up : (c : List Bytes) (y : Bytes) → clean_part (c ++ (y ∷ [])) (codes "..") ≡ c
unfolding clean_part bytes_eq
clean_part_up c y = drop_last-snoc c y

resolve_detour : (p x : Bytes) → IsName x → resolve (p ++ (b'/' ∷ (x ++ codes "/.."))) ≡ resolve p
unfolding clean_parts bytes_eq split resolve
resolve_detour p x h =
    resolve-append p (x ++ codes "/..")
    ∙ rw (split-append x (codes ".."), split_name x h.0, clean_part-name (resolve p) x h)
        (clean_part_up (resolve p) x)

resolve_dot : (p : Bytes) → resolve (p ++ codes "/.") ≡ resolve p
unfolding clean_parts clean_part bytes_eq split
resolve_dot p = resolve-append p (codes ".")

same_answer : (p q : Bytes) → resolve p ≡ resolve q → is_dangerous_path p ≡ is_dangerous_path q
unfolding is_dangerous_path
same_answer p q e = rw (posix_clean_lem p, posix_clean_lem q, e) refl

-- Whether a path is protected from a recursive delete does not change with a slash or a dot at the
-- end, or with a detour through a directory and back.
pub is_dangerous_path_spelling :
    (p x : Bytes)
    → IsName x
    → (is_dangerous_path (p ++ codes "/") ≡ is_dangerous_path p)
      × (is_dangerous_path (p ++ codes "/.") ≡ is_dangerous_path p)
      × (is_dangerous_path (p ++ (b'/' ∷ (x ++ codes "/.."))) ≡ is_dangerous_path p)
is_dangerous_path_spelling p x h = (
  same_answer (p ++ codes "/") p (resolve_slash p),
  same_answer (p ++ codes "/.") p (resolve_dot p),
  same_answer (p ++ (b'/' ∷ (x ++ codes "/.."))) p (resolve_detour p x h),
)
