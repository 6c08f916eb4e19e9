-- ===== src/Fs/Dir.antt =====
-- Directories and path names in kernel/fs.c. A name is an array of DIRSIZ bytes; a path is the list
-- of its bytes before the zero byte.
use os2025_assignment.Base.{
  ℕ, zero, suc, ◌+◌, ◌-◌, ◌*◌, ◌/◌, ◌%◌, ◌^◌, Bool, true, false, ◌&&◌, Option, none, some, List, [],
  ◌∷◌, map, leb, ◌==◌, ◌/=◌, if◌then◌else◌, update, length, get_or,
}
use os2025_assignment.Machine.{Cmd, pure, fail, when, ◌>>=◌, ◌>>◌}
use os2025_assignment.Str.{Bytes, Difference, same, strncmp, strncpy}
use os2025_assignment.Fs.{Fs, t_dir, get_inode}
use os2025_assignment.Fs.Content.{readi, writei}
use os2025_assignment.Fs.Inodes.{iget, idup, ilock, iunlock, iput, iunlockput}

abbrev pub dirsiz : ℕ
dirsiz = 14

-- sizeof(struct dirent)
abbrev pub dirent_size : ℕ
dirent_size = 16

-- `inum` of the entry that the bytes hold, and `name`
abbrev pub entry_inum : List ℕ → ℕ
entry_inum de = get_or de 0 0 + 2 ^ 8 * get_or de 1 0

abbrev pub entry_name : List ℕ → Bytes
entry_name de i = get_or de (i + 2) 0

-- the bytes of an entry
abbrev pub entry_bytes : ℕ → Bytes → ℕ → ℕ
entry_bytes inum name i =
    if i == 0 then inum % 2 ^ 8 else if i == 1 then inum / 2 ^ 8 % 2 ^ 8 else name (i - 2)

unfoldable pub namecmp : Bytes → Bytes → Difference
namecmp s t = strncmp s t dirsiz

abbrev pub is_same : Difference → Bool
is_same same = true
is_same _ = false

-- `readi` into a kernel variable, which panics if not all bytes are read
unfoldable pub read_entry : ℕ → ℕ → Cmd Fs (List ℕ)
read_entry dp off = do
  read ← readi (λ _ _. true) dp 0 off dirent_size
  elim (read.0) [
    | none ↦ fail
    | some n ↦ if n /= dirent_size then fail else pure (map (λ p. p.1) (read.1))
  ]

-- The loop of `dirlookup` with `n` entries left: the number of the inode and the offset.
unfoldable pub lookup_loop : ℕ → ℕ → ℕ → Bytes → Cmd Fs (Option (ℕ × ℕ))
lookup_loop zero off dp name = pure none
lookup_loop (suc n) off dp name = do
  de ← read_entry dp off
  if (entry_inum de /= 0) && is_same (namecmp name (entry_name de))
      then pure (some (entry_inum de, off))
      else lookup_loop n (off + dirent_size) dp name

-- A size rounds up to a number of rounds. The result is the inode and `*poff`.
unfoldable pub dirlookup : ℕ → Bytes → Cmd Fs (Option (ℕ × ℕ))
dirlookup dp name = do
  d ← get_inode dp
  when (d.copy.kind /= t_dir) fail
  found ← lookup_loop ((d.copy.size + dirent_size - 1) / dirent_size) 0 dp name
  elim found [
    | none ↦ pure none
    | some (inum, off) ↦ do ip ← iget d.dev inum; pure (some (ip, off))
  ]

-- the offset of the first empty entry, or behind the last
unfoldable pub free_loop : ℕ → ℕ → ℕ → Cmd Fs ℕ
free_loop zero off dp = pure off
free_loop (suc n) off dp = do
  de ← read_entry dp off
  if entry_inum de == 0 then pure off else free_loop n (off + dirent_size) dp

-- `before` is what the variable `de` holds in its name before. `false` is the result -1.
unfoldable pub dirlink : Bytes → ℕ → Bytes → ℕ → Cmd Fs Bool
dirlink before dp name inum = do
  found ← dirlookup dp name
  elim found [
    | some (ip, _) ↦ do iput ip; pure false
    | none ↦ do
      d ← get_inode dp
      off ← free_loop ((d.copy.size + dirent_size - 1) / dirent_size) 0 dp
      let de = entry_bytes inum (strncpy before name dirsiz)
      done ← writei (λ src m. some λ i. de (src + i)) dp 0 off dirent_size
      elim done [ none ↦ pure false | some n ↦ pure (n == dirent_size) ]
  ]

abbrev pub slash : ℕ
slash = b'/'

-- `while(*path == '/') path++`
unfoldable pub skip_slashes : List ℕ → List ℕ
skip_slashes [] = []
skip_slashes (c ∷ path) = let rest = skip_slashes path in if c == slash then rest else c ∷ path

-- what stands before the next slash, and the rest
unfoldable pub split_elem : List ℕ → List ℕ × List ℕ
split_elem [] = ([], [])
split_elem (c ∷ path) =
    let rest = split_elem path in if c == slash then ([], c ∷ path) else (c ∷ rest.0, rest.1)

-- the bytes of `s` put at the start of `name`, as far as there is room for `n`
unfoldable pub put_bytes : ℕ → ℕ → List ℕ → Bytes → Bytes
put_bytes zero i s name = name
put_bytes (suc n) i [] name = name
put_bytes (suc n) i (c ∷ s) name = put_bytes n (i + 1) s (update name i c)

-- the rest of the path and `name`
unfoldable pub skipelem : List ℕ → Bytes → Option (List ℕ × Bytes)
skipelem path name = elim (skip_slashes path) [
  | [] ↦ none
  | c ∷ s ↦
      let (elem, rest) = split_elem (c ∷ s) in
      let len = length elem in
      let name' =
        if leb dirsiz len
        then put_bytes dirsiz 0 elem name
        else update (put_bytes len 0 elem name) len 0 in
      some (skip_slashes rest, name')
]

-- `iget(ROOTDEV, ROOTINO)`
abbrev pub root : Cmd Fs ℕ
root = iget 1 1

-- The loop of `namex`, in which a round takes at least a byte off the path; `none` is 0.
unfoldable pub namex_loop : ℕ → ℕ → Bool → List ℕ → Bytes → Cmd Fs (Option (ℕ × Bytes))
namex_loop zero ip parent path name = fail
namex_loop (suc fuel) ip parent path name = elim (skipelem path name) [
  | none ↦ if parent then (do iput ip; pure none) else pure (some (ip, name))
  | some (path', name') ↦ do
    ilock ip
    i ← get_inode ip
    if i.copy.kind /= t_dir
        then (do iunlockput ip; pure none)
        else if parent && (length path' == 0)
        then (do iunlock ip; pure (some (ip, name')))
        else do
          next ← dirlookup ip name'
          iunlockput ip
          elim next [ none ↦ pure none | some (ip', _) ↦ namex_loop fuel ip' parent path' name' ]
]

-- `cwd` is `myproc()->cwd`.
unfoldable pub namex : ℕ → Bool → List ℕ → Bytes → Cmd Fs (Option (ℕ × Bytes))
namex cwd parent path name = do
  ip ← (if get_or path 0 0 == slash then root else idup cwd)
  namex_loop (length path + 1) ip parent path name

unfoldable pub namei : ℕ → List ℕ → Bytes → Cmd Fs (Option (ℕ × Bytes))
namei cwd path name = namex cwd false path name

unfoldable pub nameiparent : ℕ → List ℕ → Bytes → Cmd Fs (Option (ℕ × Bytes))
nameiparent cwd path name = namex cwd true path name
