-- ===== src/Ramfs/Refines.antt =====
-- fuse-test.cpp against the store of byte lists, request by request.
mod Handlers
use mathlib.Core.Option
use safs.Base.{
  ℕ, suc, zero, ◌+◌, ◌-◌, ◌^◌, ◌%◌, ◌≤◌, ◌<◌, ◌≡◌, refl, sym, ap, arith, Option, none, some, List,
  [], ◌∷◌, pos, neg, ℤ, to_int, Name, codes, same_name, length, take, drop, write_at, put_at,
  if◌then◌else◌, ltb, Option-cases, ◌⊎◌, inl, inr,
}
use safs.Ramfs.{
  Caller, FileMap, strip_leading_slash, file_exists, file_of, names_of, to_map, to_map_loop,
  ramfs_getattr, ramfs_readdir, ramfs_open, ramfs_read, ramfs_write, ramfs_unlink, ramfs_create,
  ramfs_truncate, read_loop, write_loop, resize,
}
use safs.Ramfs.Refused.{
  ramfs_fgetattr, ramfs_opendir, ramfs_access, ramfs_mknod, ramfs_mkdir, ramfs_rmdir, ramfs_symlink,
  ramfs_rename, ramfs_link, ramfs_chmod, ramfs_chown, ramfs_utime, ramfs_utimens, ramfs_bmap,
  ramfs_setxattr,
}
use safs.Ramfs.Keys.{int_order, string_order}
use safs.Ramfs.StdMap.{Map, find, assign, erase_key}
use safs.Ramfs.StdMap.Every.{Every, find-Every, assign-Every, erase_key-Every}
use safs.Ramfs.StdMap.Sorted.{IsSorted, assign_found, assign-IsSorted, erase_key-IsSorted}
use safs.Ramfs.StdMap.Values.{map_values, find-map_values, assign-map_values, erase_key-map_values}
use safs.Ramfs.Numbered.{
  numbered, length-numbered_from, write_loop-numbered, read_loop-numbered, resize-numbered,
  resize_bytes,
}
use safs.Ramfs.Server.{
  ramfs_oper, ramfs_run, with_stat, RamRequest, Reply, call_getattr, call_readdir, call_open,
  call_read, call_mknod, call_write, call_unlink, call_setxattr, call_mkdir, call_rmdir,
  call_symlink, call_rename, call_link, call_chmod, call_chown, call_truncate, call_utime,
  call_opendir, call_access, call_create, call_fgetattr, call_utimens, call_bmap, result, content,
  attributes, entries,
}
use safs.Ramfs.Spec.{
  Store, IsStore, represent, names_held, spec_oper, spec_run, spec_read, spec_getattr, IsSmall,
  IsGapFree, AreGapFree, held_length,
}
use safs.Ramfs.Bytes.{
  length-take, length-drop, take_all, take_whole, length-write_at, length-resize_bytes,
}
use Handlers.{
  kept, find-represent, read-refines, write-refines, truncate-refines, create-refines,
  getattr-refines,
}

names_of-represent : (store : Store) → names_of (represent store) ≡ names_held store
names_of-represent [] = refl
names_of-represent ((name, bs) ∷ store) = ap (λ names. name ∷ names) (names_of-represent store)

-- One request.
oper-refines :
    (caller : Caller) (request : RamRequest) (store : Store)
    → IsStore store
    → IsGapFree request store
    → ramfs_oper caller request (represent store) ≡ kept (spec_oper caller request store)
unfolding ramfs_oper spec_oper ramfs_readdir ramfs_open ramfs_unlink file_exists ramfs_fgetattr
    ramfs_opendir ramfs_access ramfs_mknod ramfs_mkdir ramfs_rmdir ramfs_symlink ramfs_rename
    ramfs_link ramfs_chmod ramfs_chown ramfs_utime ramfs_utimens ramfs_bmap ramfs_setxattr
oper-refines caller (call_read path size offset) store ok free =
    read-refines caller path size offset store ok free
oper-refines caller (call_write path buf offset) store ok free =
    write-refines caller path buf offset store free
oper-refines caller (call_truncate path new_length) store ok free =
    truncate-refines caller path new_length store ok free
oper-refines caller (call_create path mode) store ok free = create-refines caller path mode store
oper-refines caller (call_getattr path) store ok free = getattr-refines caller path store
oper-refines caller (call_fgetattr path) store ok free = getattr-refines caller path store
oper-refines caller (call_readdir path) store ok free = ground (arith, names_of-represent store)
oper-refines caller (call_open path) store ok free =
    ground (arith, find-represent (strip_leading_slash path) store)
oper-refines caller (call_unlink path) store ok free =
    ground (arith, erase_key-map_values numbered (strip_leading_slash path) store)
oper-refines caller request store ok free = refl

-- The store stays one that ramfs can hold.
spec_oper-IsStore :
    (caller : Caller) (request : RamRequest) (store : Store)
    → IsStore store
    → IsGapFree request store
    → IsStore (spec_oper caller request store).1
unfolding spec_oper
spec_oper-IsStore caller (call_write path buf offset) store (sorted, small) (inside, fits) =
    let name = strip_leading_slash path in
    elim (Option-cases (find name store)) [
      | inl e ↦ ground (arith, e, sorted, small)
      | inr (bs, e) ↦
          let written = write_at 0 offset buf bs in
          let held = find-Every IsSmall name bs store small e in
          ground (
            arith,
            e,
            assign-IsSorted name written store sorted,
            assign-Every IsSmall name written store
                (length-write_at (2 ^ 31) offset buf bs held fits) small,
          )
    ]
spec_oper-IsStore caller (call_truncate path new_length) store (sorted, small) fits =
    let name = strip_leading_slash path in
    elim (Option-cases (find name store)) [
      | inl e ↦ ground (arith, e, sorted, small)
      | inr (bs, e) ↦
          let resized = resize_bytes new_length bs in
          let short : IsSmall resized = ground (arith, length-resize_bytes new_length bs) in
          ground (
            arith,
            e,
            assign-IsSorted name resized store sorted,
            assign-Every IsSmall name resized store short small,
          )
    ]
spec_oper-IsStore caller (call_create path mode) store (sorted, small) free =
    let name = strip_leading_slash path in
    let empty : IsSmall [] = omega arith in
    ground (
      arith,
      sorted,
      small,
      assign-IsSorted name [] store sorted,
      assign-Every IsSmall name [] store empty small,
    )
spec_oper-IsStore caller (call_unlink path) store (sorted, small) free =
    let name = strip_leading_slash path in
    (erase_key-IsSorted name store sorted, erase_key-Every IsSmall name store small)
spec_oper-IsStore caller request store ok free = ok

-- ramfs keeps the promise of a store of byte lists, one list for each name: through requests one
-- after another, on a store with its names in order and files of at most 2^31 bytes, where each
-- write begins within its file and ends at 2^31 at most, each truncation is to less than 2^31,
-- and the end of each read is a size_t, the replies are those of the store, and `files` holds
-- afterwards what the store holds.
pub ramfs_run-refines :
    (caller : Caller) (requests : List RamRequest) (store : Store)
    → IsStore store
    → AreGapFree caller requests store
    → ramfs_run caller requests (represent store)
      ≡ (let (replies, store') = spec_run caller requests store in (replies, represent store'))
unfolding ramfs_run spec_run
ramfs_run-refines caller [] store ok free = refl
ramfs_run-refines caller (request ∷ requests) store ok (free, others) =
    let store' = (spec_oper caller request store).1 in
    let ok' = spec_oper-IsStore caller request store ok free in
    rw (oper-refines caller request store ok free)
      (rw (ramfs_run-refines caller requests store' ok' others) refl)
