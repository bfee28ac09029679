-- ===== src/Bbfs/Log/Tests.antt =====
-- The theorems on the log at work.
use safs.Base.{◌+◌, ◌-◌, ◌^◌, ◌<◌, ◌≡◌, refl, arith, some, List, [], ◌∷◌, map, Name, codes}
use safs.Disk as disk
use safs.Disk.{blank_stat}
use safs.Bbfs.Log.{log_stat, log_struct, stat_texts}
use safs.Bbfs.Log.Printf.{
  convert, signed, hexadecimal, int_size, long_size, digits, digits_loop, padded,
}
use safs.Bbfs.Log.Stat.{AgreeShown, log_stat_injective}
use safs.Bbfs.Log.Session.{list_loop}
use safs.Bbfs.Log.Names.{packed, packed_length, logged, list_loop-packed}

-- Two structures that differ above the low 32 bits of st_nlink only.
abbrev small : disk.Stat
small = record blank_stat { st_nlink = 1; st_size = 700 }

abbrev large : disk.Stat
large = record blank_stat { st_nlink = 1 + 2 ^ 32; st_size = 700 }

same_log : log_stat small [] ≡ log_stat large []
unfolding log_stat stat_texts log_struct convert
same_log = refl

log_stat_injective_example : AgreeShown small large
log_stat_injective_example = log_stat_injective small large [] same_log

abbrev attributes : List Name
attributes = codes "user.a" ∷ codes "user.bc" ∷ []

attributes_enough : packed_length attributes < 20
attributes_enough = omega arith

list_loop-packed_example :
    list_loop 20 (packed_length attributes) (packed attributes (1 ∷ 2 ∷ []))
    ≡ some (map logged attributes)
list_loop-packed_example =
    list_loop-packed attributes (1 ∷ 2 ∷ []) 20 (refl, (refl, tt)) attributes_enough

-- -1, a size and a time as the log shows them.
minus_one : convert (signed int_size) (2 ^ 32 - 1) ≡ codes "-1"
unfolding convert digits digits_loop
minus_one = refl

time_shown : convert (hexadecimal long_size 8) 0x5a0b1c ≡ codes "005a0b1c"
unfolding convert digits digits_loop padded
time_shown = refl
