-- ===== src/Hello/Tests.antt =====
-- The theorems on hello.c at work.
use safs.Base.{◌+◌, ◌<◌, ◌≤◌, ◌^◌, ◌≡◌, refl, some, arith, pos, to_int, codes, same_name}
use safs.Posix.Errno.{o_rdonly}
use safs.Hello.{hello_path, hello_read, hello_open, hello_getattr}
use safs.Hello.Laws.{hello_read_lem, hello_open_lem}

fits : 7 + 20 < 2 ^ 64
fits = omega arith

hello_read_example : hello_read hello_path 20 7 ≡ (to_int 6, some (codes "orld!\n"))
hello_read_example = hello_read_lem 20 7 fits

opened : hello_open hello_path o_rdonly ≡ pos 0
unfolding hello_open same_name
opened = refl

enough : (hello_getattr hello_path).1.st_size ≤ 4096
unfolding hello_getattr same_name
enough = omega arith

page_fits : 4096 < 2 ^ 64
page_fits = omega arith

hello_open_example :
    ((hello_getattr hello_path).0 ≡ pos 0)
    × (hello_read hello_path 4096 0
        ≡ (pos (hello_getattr hello_path).1.st_size, some (codes "Hello World!\n")))
hello_open_example = hello_open_lem hello_path o_rdonly 4096 opened enough page_fits
