-- ===== src/Safs/Spec/Step.antt =====
-- One request, and requests one after another, as steps between the states of the specification.
use safs.Base.{
  ℕ, ◌+◌, ◌-◌, ◌≢◌, ◌%◌, ◌^◌, ◌≡◌, ◌⊎◌, false, true, none, some, List, [], ◌∷◌, pos, neg, ℤ, to_int,
  off_lt, ◌==◌, Name, rest, codes, same_name, bit_and, length, take, drop, write_at, if◌then◌else◌,
}
use safs.Disk.{Stat, Timespec}
use safs.Posix.Errno.{enoent, eio, eperm, o_trunc, s_ifmt, s_ifreg}
use safs.Safs.Contents.Checks.{refuses}
use safs.Safs.Server.{
  Request, getattr, readdir, open_file, read, write, mknod, setxattr, chmod, chown, utimens,
  truncate, ftruncate, unlink, link, rename,
}
use safs.Safs.Server.Unknown.{subject}
use safs.Safs.Spec.{Abstract, set_stat, set_bytes, set_name, add_name, drop_name, Names}

-- The request, its result, and the states before and after it.
pub data Step : Request → ℤ → Abstract → Abstract → Type 0 where
  refused :
      {r : Request} {rtn : ℤ} {a : Abstract} (path : Name)
      → subject r ≡ some path
      → a.names (rest path) ≡ none
      → (rtn ≡ neg eio) ⊎ (rtn ≡ neg enoent)
      → Step r rtn a a
  ignored_chown : {a : Abstract} {path : Name} {uid gid : ℕ} → Step (chown path uid gid) (pos 0) a a
  ignored_setxattr :
      {a : Abstract} {path name value : Name} {size flag : ℕ}
      → Step (setxattr path name value size flag) (pos 0) a a
  listed : {a : Abstract} → Step (readdir (codes "/")) (pos 0) a a
  not_listed :
      {a : Abstract} {path : Name}
      → same_name path (codes "/") ≡ false
      → Step (readdir path) (neg enoent) a a
  shown_root :
      {a : Abstract} {path : Name} {metadata : Stat}
      → same_name path (codes "/") ≡ true
      → Step (getattr path metadata) (pos 0) a a
  shown :
      {a : Abstract} {path : Name} {metadata : Stat} {i : ℕ} {s : Name} {st : Stat} {held : List ℕ}
      → Names a path i s st held
      → Step (getattr path metadata) (pos 0) a a
  chmod_step :
      {a : Abstract} {path : Name} {mode i : ℕ} {s : Name} {st : Stat} {held : List ℕ}
      → Names a path i s st held
      → Step (chmod path mode) (pos 0) a (set_stat i (record st { st_mode = mode }) a)
  utimens_step :
      {a : Abstract} {path : Name} {t u : Timespec} {i : ℕ} {s : Name} {st : Stat} {held : List ℕ}
      → Names a path i s st held
      → Step (utimens path t u) (pos 0) a (set_stat i (record st { st_atim = t; st_mtim = u }) a)
  open_refused :
      {a : Abstract} {path : Name} {flags i : ℕ} {s : Name} {st : Stat} {held : List ℕ}
      → Names a path i s st held
      → refuses flags st ≡ true
      → Step (open_file path flags) (neg eperm) a a
  opened :
      {a : Abstract} {path : Name} {flags i : ℕ} {s : Name} {st : Stat} {held : List ℕ}
      → Names a path i s st held
      → refuses flags st ≡ false
      → Step
          (open_file path flags)
          (pos 0)
          a
          (if bit_and flags o_trunc == 0 then a else set_stat i (record st { st_size = 0 }) a)
  read_step :
      {a : Abstract} {path : Name} {size offset i : ℕ} {s : Name} {st : Stat} {held : List ℕ}
      (t : Timespec)
      → Names a path i s st held
      → Step
          (read path size offset)
          (to_int (length (take size (drop offset held))))
          a
          (set_stat i (record st { st_atim = t }) a)
  write_step :
      {a : Abstract} {path : Name} {buf : List ℕ} {size offset i : ℕ} {s : Name} {st : Stat}
      {held : List ℕ} (t u : Timespec)
      → Names a path i s st held
      → Step (write path buf size offset) (to_int size) a (
          set_bytes s (write_at 0 offset (take size buf) held) (
            set_stat i
              (record st { st_size = (offset + size) % 2 ^ 64; st_atim = t; st_mtim = u })
              a))
  resized :
      {a : Abstract} {path : Name} {off i : ℕ} {s : Name} {st : Stat} {held : List ℕ}
      → Names a path i s st held
      → off_lt st.st_size off ≡ false
      → Step
          (ftruncate path off)
          (pos 0)
          a
          (if st.st_size == off then a else set_stat i (record st { st_size = off }) a)
  extended :
      {a : Abstract} {path : Name} {off i : ℕ} {s : Name} {st : Stat} {held : List ℕ}
      → Names a path i s st held
      → off_lt st.st_size off ≡ true
      → Step
          (ftruncate path off)
          (pos 0)
          a
          (set_bytes s (write_at 0 off (0 ∷ []) held) (set_stat i (record st { st_size = off }) a))
  truncated :
      {a b : Abstract} {path : Name} {off : ℕ} {rtn : ℤ}
      → Step (ftruncate path off) rtn a b
      → Step (truncate path off) rtn a b
  renamed :
      {a : Abstract} {path target : Name} {i : ℕ} {s : Name} {st : Stat} {held : List ℕ}
      → Names a path i s st held
      → a.names (rest target) ≡ none
      → Step (rename path target) (pos 0) a (set_name (rest path) (rest target) (i, s) a)
  mknod_refused :
      {a : Abstract} {path : Name} {mode : ℕ}
      → (bit_and mode s_ifmt == s_ifreg) ≡ false
      → Step (mknod path mode) (neg eperm) a a
  -- A number that no name stands for becomes an inode. A data file that has the name is emptied.
  made :
      {a : Abstract} {path : Name} {mode i : ℕ} (st : Stat)
      → a.names (rest path) ≡ none
      → ((name t : Name) → a.names name ≢ some (i, t))
      → (st.st_mode ≡ mode) × (st.st_size ≡ 0) × (st.st_nlink ≡ 1) × (st.st_ino ≡ i)
      → Step
          (mknod path mode)
          (pos 0)
          a
          (add_name (rest path) (i, rest path) (set_bytes (rest path) [] (set_stat i st a)))
  -- Which inode's link count grows is left open.
  linked :
      {a : Abstract} {path target : Name} {i : ℕ} {s : Name} {st : Stat} {held : List ℕ} (c : ℕ)
      → Names a path i s st held
      → a.names (rest target) ≡ none
      → Step (link path target) (pos 0) a (
          add_name
            (rest target)
            (i, s)
            (set_stat c (record (a.stats c) { st_nlink = ((a.stats c).st_nlink + 1) % 2 ^ 64 }) a))
  -- A name that is not in use.
  unlinked_nothing :
      {a : Abstract} {path : Name} → a.names (rest path) ≡ none → Step (unlink path) (pos 0) a a
  -- A file whose data file has the name itself.
  unlinked :
      {a : Abstract} {path : Name} {i : ℕ} {st : Stat} {held : List ℕ}
      → Names a path i (rest path) st held
      → Step (unlink path) (pos 0) a (
          drop_name
            (rest path)
            (set_stat i (record st { st_nlink = (st.st_nlink + 2 ^ 64 - 1) % 2 ^ 64 }) a))

-- Requests one after another, with their results.
pub data Steps : List Request → List ℤ → Abstract → Abstract → Type 0 where
  stop : {a : Abstract} → Steps [] [] a a
  next :
      {r : Request} {rs : List Request} {rtn : ℤ} {rtns : List ℤ} {a b c : Abstract}
      → Step r rtn a b
      → Steps rs rtns b c
      → Steps (r ∷ rs) (rtn ∷ rtns) a c
