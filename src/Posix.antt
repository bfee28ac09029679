-- ===== src/Posix.antt =====
-- The system calls of safs.c, on the host files that it uses. Which calls fail, and with what
-- errno, is up to the environment: the n-th call of a run fails if `fault n` is an errno.
pub mod Errno
pub mod Tables
pub mod Data
pub mod Syscalls
pub mod Frame
pub mod Keeps
pub mod Kept
use safs.Base.{
  ℤ, neg, ℕ, ◌+◌, ◌-◌, Bool, true, false, ◌||◌, Option, none, some, List, [], ◌≡◌, Name, ltb,
  if◌then◌else◌, same_name, has_byte, codes, leb, get_elem?, put_at, length, drop, write_at, take,
  lookup, insert, erase,
}
use safs.Disk.{
  Timespec, Stat, Dentry, Disk, blank_dentry, blank_stat, inodes_name, directory_name,
  tmp_directory_name,
}
use Errno.{enoent}

pub record Env : Type 0 where
  pub fault : ℕ → Option ℕ
  pub now : ℕ → Timespec
  pub uid : ℕ
  pub gid : ℕ
  -- what a local `struct stat` holds before it is written
  pub junk : Stat
  pub sizeof_stat : ℕ

-- `fds` counts the open descriptors and `calls` the system calls. `outside` is set when a run
-- does what is not modelled: it overflows a char array or an int, or it takes one of the tables
-- for a data file. Of what follows then the model says nothing.
pub record World : Type 0 where
  pub disk : Disk
  pub inode_number : ℕ
  pub fds : ℕ
  pub errno : ℕ
  pub calls : ℕ
  pub outside : Bool

abbrev pub Cmd : Type 0 → Type 0
Cmd A = World → A × World

abbrev pub pure : {A : Type 0} → A → Cmd A
pure a w = (a, w)

infixl 5 ◌>>=◌ ◌>>◌
unfoldable pub ◌>>=◌ : {A B : Type 0} → Cmd A → (A → Cmd B) → Cmd B
◌>>=◌ m f w = f (m w).0 (m w).1

unfoldable pub ◌>>◌ : {A B : Type 0} → Cmd A → Cmd B → Cmd B
unfolding ◌>>=◌
m >> k = m >>= λ _. k

unfoldable pub get_errno : Cmd ℕ
get_errno w = (w.errno, w)

-- return -errno
unfoldable pub errno_result : Cmd ℤ
errno_result w = (neg w.errno, w)

unfoldable pub mark_outside : Bool → Cmd (Unit {0})
mark_outside b w = (tt, record w { outside = b || w.outside })

unfoldable pub set_disk : Disk → Cmd (Unit {0})
set_disk d w = (tt, record w { disk = d })

-- A system call that returns `bad` where the environment lets it fail.
unfoldable pub attempt : {A : Type 0} → Env → A → Cmd A → Cmd A
attempt env bad m w = elim (env.fault w.calls) [
  | none ↦ m (record w { calls = w.calls + 1 })
  | some e ↦ (bad, record w { errno = e; calls = w.calls + 1 })
]

abbrev pub list_of {ℓ} : {A : Type ℓ} → Option (List A) → List A
list_of none = []
list_of (some xs) = xs

abbrev pub opened : Cmd Bool
opened w = (true, record w { fds = w.fds + 1 })

abbrev pub missing : Cmd Bool
missing w = (false, record w { errno = enoent })

-- close; the descriptor is gone also where close reports an error.
unfoldable pub close : Env → Cmd (Unit {0})
unfolding attempt
close env w = attempt env tt (pure tt) (record w { fds = w.fds - 1 })

-- clock_gettime(CLOCK_REALTIME, …), which has no reason to fail.
unfoldable pub clock_gettime : Env → Cmd Timespec
clock_gettime env w = (env.now w.calls, record w { calls = w.calls + 1 })

-- The same environment on a day when no system call fails.
abbrev pub calm : Env → Env
calm env = record env { fault = λ n. none }
