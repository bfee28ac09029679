-- ===== src/Bbfs.antt =====
-- fuse-examples/bbfs/src/bbfs.c, which passes requests on to the host file system: the host's
-- calls, the state of the program, and what all handlers use. The host is a parameter.
pub mod Handlers
pub mod Open
pub mod Server
pub mod Confined
pub mod Outcomes
pub mod Start
pub mod Log
mod Tests
use safs.Base.{
  ℕ, ◌+◌, ◌++◌, Bool, ◌||◌, List, ◌∷◌, pos, neg, ℤ, is_neg, leb, Name, length, take, if◌then◌else◌,
}

-- The system calls that the handlers make, with their arguments. A file handle is a number.
pub data Call : Type 0 where
  lstat : Name → Call
  readlink : Name → ℕ → Call
  open_file : Name → ℕ → ℕ → Call
  close : ℤ → Call
  mkfifo : Name → ℕ → Call
  mknod : Name → ℕ → ℕ → Call
  mkdir : Name → ℕ → Call
  unlink : Name → Call
  rmdir : Name → Call
  symlink : Name → Name → Call
  rename : Name → Name → Call
  link : Name → Name → Call
  chmod : Name → ℕ → Call
  chown : Name → ℕ → ℕ → Call
  truncate : Name → ℕ → Call
  utime : Name → ℕ → Call
  pread : ℤ → ℕ → ℕ → Call
  pwrite : ℤ → List ℕ → ℕ → Call
  statvfs : Name → Call
  fdatasync : ℤ → Call
  fsync : ℤ → Call
  lsetxattr : Name → Name → List ℕ → ℕ → Call
  lgetxattr : Name → Name → ℕ → Call
  llistxattr : Name → ℕ → Call
  lremovexattr : Name → Name → Call
  opendir : Name → Call
  closedir : ℤ → Call
  access : Name → ℕ → Call
  creat : Name → ℕ → Call
  ftruncate : ℤ → ℕ → Call
  fstat : ℤ → Call

-- What a call returns, errno after it, and what it left in the caller's buffer. A null pointer is
-- a negative value.
pub record Answer : Type 0 where
  pub value : ℤ
  pub errno : ℕ
  pub bytes : List ℕ

-- `asked` are the calls made so far, the last one first. `outside` is set when a path overflows
-- its buffer.
pub record Bb (S : Type 0) : Type 0 where
  pub host_state : S
  pub errno : ℕ
  pub asked : List Call
  pub outside : Bool

abbrev pub BbCmd : Type 0 → Type 0 → Type 0
BbCmd S A = Bb S → A × Bb S

abbrev pub pure : {S A : Type 0} → A → BbCmd S A
pure a w = (a, w)

infixl 5 ◌>>=◌
unfoldable pub ◌>>=◌ : {S A B : Type 0} → BbCmd S A → (A → BbCmd S B) → BbCmd S B
◌>>=◌ m f w = f (m w).0 (m w).1

abbrev pub path_max : ℕ
path_max = 4096

-- The result of the log's message is not used.
unfoldable pub bb_error : {S : Type 0} → BbCmd S ℤ
bb_error w = (neg w.errno, w)

-- strcpy(fpath, rootdir); strncat(fpath, path, PATH_MAX)
unfoldable pub bb_fullpath : {S : Type 0} → Name → Name → BbCmd S Name
bb_fullpath rootdir path w = (
  rootdir ++ take path_max path,
  record w { outside = leb path_max (length rootdir + length (take path_max path)) || w.outside },
)

module _ {S : Type 0} (host : Call → S → Answer × S) where
  unfoldable pub ask : Call → BbCmd S Answer
  ask c w =
      let (a, s) = host c w.host_state in
      (a, record w { host_state = s; errno = a.errno; asked = c ∷ w.asked })

  -- retstat = …; if (retstat < 0) retstat = bb_error(…)
  unfoldable pub reported : Call → BbCmd S (ℤ × List ℕ)
  reported c = do
    a ← ask c
    if is_neg a.value then (do e ← bb_error; pure (e, a.bytes)) else pure (a.value, a.bytes)
