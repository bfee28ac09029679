-- ===== src/Bbfs/Log/Stat.antt =====
-- What the log shows of a struct stat.
use safs.Base.{◌%◌, ◌^◌, ◌≡◌, refl, Name, codes}
use safs.Disk as disk
use safs.Bbfs.Log.{log_stat, stat_texts}
use safs.Bbfs.Log.Printf.{signed, hexadecimal, octal, int_size, long_size}
use safs.Bbfs.Log.Lines.{AreLines, log_msgs_injective, log_struct-IsLine, log_struct_injective}

-- Equal in all fields but the nanoseconds of the times, each taken in the bits of its type, but
-- st_nlink in the low 32 of its 64 bits.
abbrev pub AgreeShown : disk.Stat → disk.Stat → Type 0
AgreeShown a b =
    (a.st_dev % 2 ^ 64 ≡ b.st_dev % 2 ^ 64)
    × (a.st_ino % 2 ^ 64 ≡ b.st_ino % 2 ^ 64)
    × (a.st_mode % 2 ^ 32 ≡ b.st_mode % 2 ^ 32)
    × (a.st_nlink % 2 ^ 32 ≡ b.st_nlink % 2 ^ 32)
    × (a.st_uid % 2 ^ 32 ≡ b.st_uid % 2 ^ 32)
    × (a.st_gid % 2 ^ 32 ≡ b.st_gid % 2 ^ 32)
    × (a.st_rdev % 2 ^ 64 ≡ b.st_rdev % 2 ^ 64)
    × (a.st_size % 2 ^ 64 ≡ b.st_size % 2 ^ 64)
    × (a.st_blksize % 2 ^ 64 ≡ b.st_blksize % 2 ^ 64)
    × (a.st_blocks % 2 ^ 64 ≡ b.st_blocks % 2 ^ 64)
    × (a.st_atim.tv_sec % 2 ^ 64 ≡ b.st_atim.tv_sec % 2 ^ 64)
    × (a.st_mtim.tv_sec % 2 ^ 64 ≡ b.st_mtim.tv_sec % 2 ^ 64)
    × (a.st_ctim.tv_sec % 2 ^ 64 ≡ b.st_ctim.tv_sec % 2 ^ 64)

stat_texts-AreLines : (si : disk.Stat) → AreLines (stat_texts si)
unfolding stat_texts
stat_texts-AreLines si = (
  (codes "    si:", (refl, refl)),
  (
    log_struct-IsLine "st_dev" "" (signed long_size) si.st_dev refl refl,
    (
      log_struct-IsLine "st_ino" "" (signed long_size) si.st_ino refl refl,
      (
        log_struct-IsLine "st_mode" "0" (octal int_size 0) si.st_mode refl refl,
        (
          log_struct-IsLine "st_nlink" "" (signed int_size) si.st_nlink refl refl,
          (
            log_struct-IsLine "st_uid" "" (signed int_size) si.st_uid refl refl,
            (
              log_struct-IsLine "st_gid" "" (signed int_size) si.st_gid refl refl,
              (
                log_struct-IsLine "st_rdev" "" (signed long_size) si.st_rdev refl refl,
                (
                  log_struct-IsLine "st_size" "" (signed long_size) si.st_size refl refl,
                  (
                    log_struct-IsLine "st_blksize" "" (signed long_size) si.st_blksize refl refl,
                    (
                      log_struct-IsLine "st_blocks" "" (signed long_size) si.st_blocks refl refl,
                      (
                        log_struct-IsLine "st_atime" "0x" (hexadecimal long_size 8)
                            si.st_atim.tv_sec refl refl,
                        (
                          log_struct-IsLine "st_mtime" "0x" (hexadecimal long_size 8)
                              si.st_mtim.tv_sec refl refl,
                          (
                            log_struct-IsLine "st_ctime" "0x" (hexadecimal long_size 8)
                                si.st_ctim.tv_sec refl refl,
                            tt,
                          ),
                        ),
                      ),
                    ),
                  ),
                ),
              ),
            ),
          ),
        ),
      ),
    ),
  ),
)

-- If log_stat leaves the same text in the log for two structures, they agree in every field that
-- it prints: what was printed can be read again, but of st_nlink only the low 32 of its 64 bits,
-- and of the times the seconds.
pub log_stat_injective :
    (a b : disk.Stat) (logfile : Name) → log_stat a logfile ≡ log_stat b logfile → AgreeShown a b
unfolding log_stat stat_texts
log_stat_injective a b logfile e =
    let same : stat_texts a ≡ stat_texts b =
      log_msgs_injective (stat_texts a) (stat_texts b) logfile (stat_texts-AreLines a)
        (stat_texts-AreLines b) e in
    (
      log_struct_injective "st_dev" "" (signed long_size) a.st_dev b.st_dev cc,
      log_struct_injective "st_ino" "" (signed long_size) a.st_ino b.st_ino cc,
      log_struct_injective "st_mode" "0" (octal int_size 0) a.st_mode b.st_mode cc,
      log_struct_injective "st_nlink" "" (signed int_size) a.st_nlink b.st_nlink cc,
      log_struct_injective "st_uid" "" (signed int_size) a.st_uid b.st_uid cc,
      log_struct_injective "st_gid" "" (signed int_size) a.st_gid b.st_gid cc,
      log_struct_injective "st_rdev" "" (signed long_size) a.st_rdev b.st_rdev cc,
      log_struct_injective "st_size" "" (signed long_size) a.st_size b.st_size cc,
      log_struct_injective "st_blksize" "" (signed long_size) a.st_blksize b.st_blksize cc,
      log_struct_injective "st_blocks" "" (signed long_size) a.st_blocks b.st_blocks cc,
      log_struct_injective "st_atime" "0x" (hexadecimal long_size 8) a.st_atim.tv_sec
          b.st_atim.tv_sec cc,
      log_struct_injective "st_mtime" "0x" (hexadecimal long_size 8) a.st_mtim.tv_sec
          b.st_mtim.tv_sec cc,
      log_struct_injective "st_ctime" "0x" (hexadecimal long_size 8) a.st_ctim.tv_sec
          b.st_ctim.tv_sec cc,
    )
