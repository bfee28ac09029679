-- ===== src/Ramfs/Refines/Handlers.antt =====
-- Each handler of fuse-examples/ramfs/fuse-test.cpp against what the store of byte lists promises.
use mathlib.Core.Option
use safs.Base.{
  ℕ, ◌+◌, ◌-◌, ◌^◌, ◌%◌, ◌≤◌, ◌<◌, ◌≡◌, arith, List, [], Name, length, take, drop, write_at,
  if◌then◌else◌, ltb, Option-cases, inl, inr,
}
use safs.Ramfs.{
  Caller, FileMap, strip_leading_slash, file_exists, to_map, to_map_loop, ramfs_getattr, ramfs_read,
  ramfs_write, ramfs_create, ramfs_truncate,
}
use safs.Ramfs.Keys.{int_order, string_order}
use safs.Ramfs.StdMap.{find}
use safs.Ramfs.StdMap.Every.{find-Every}
use safs.Ramfs.StdMap.Sorted.{assign_found}
use safs.Ramfs.StdMap.Values.{find-map_values, assign-map_values}
use safs.Ramfs.Numbered.{
  numbered, length-numbered_from, write_loop-numbered, read_loop-numbered, resize-numbered,
  resize_bytes,
}
use safs.Ramfs.Server.{
  ramfs_oper, with_stat, Reply, call_read, call_write, call_truncate, call_create,
}
use safs.Ramfs.Spec.{Store, IsStore, represent, spec_oper, spec_getattr, IsSmall, IsGapFree}
use safs.Ramfs.Bytes.{length-take, length-drop, take_all, take_whole}

-- The reply of the promise, and its store as ramfs keeps it.
abbrev pub kept : Reply × Store → Reply × FileMap
kept (reply, store) = (reply, represent store)

spec_read-present :
    (size offset : ℕ) (bs : List ℕ)
    → length bs ≤ 2 ^ 31
    → offset < length bs
    → offset + size < 2 ^ 64
    → let size' = if ltb (length bs) ((offset + size) % 2 ^ 64) then length bs - offset else size in
      (take size' (drop offset bs) ≡ take size (drop offset bs))
      × (size' ≡ length (take size (drop offset bs)))
spec_read-present size offset bs small below fits = ground (
  arith,
  length-drop offset bs,
  length-take size (drop offset bs),
  length-take (length bs - offset) (drop offset bs),
  take_all size (drop offset bs),
)

pub find-represent :
    (name : Name) (store : Store)
    → find name (represent store) ≡ Option.map numbered (find name store)
find-represent name store = find-map_values numbered name store

pub read-refines :
    (caller : Caller) (path : Name) (size offset : ℕ) (store : Store)
    → IsStore store
    → offset + size < 2 ^ 64
    → ramfs_oper caller (call_read path size offset) (represent store)
      ≡ kept (spec_oper caller (call_read path size offset) store)
unfolding ramfs_oper ramfs_read file_exists spec_oper
read-refines caller path size offset store (sorted, small) fits =
    let name = strip_leading_slash path in
    elim (Option-cases (find name store)) [
      | inl e ↦ ground (arith, e, find-represent name store)
      | inr (bs, e) ↦
          let n = if ltb (length bs) ((offset + size) % 2 ^ 64) then length bs - offset else size in
          let held = find-Every IsSmall name bs store small e in
          ground (
            arith,
            e,
            held,
            find-represent name store,
            length-numbered_from 0 bs,
            spec_read-present size offset bs held,
            read_loop-numbered n offset bs,
            assign-map_values numbered name bs store,
            assign_found name bs store sorted e,
          )
    ]

pub write-refines :
    (caller : Caller) (path : Name) (buf : List ℕ) (offset : ℕ) (store : Store)
    → IsGapFree (call_write path buf offset) store
    → ramfs_oper caller (call_write path buf offset) (represent store)
      ≡ kept (spec_oper caller (call_write path buf offset) store)
unfolding ramfs_oper ramfs_write file_exists spec_oper
write-refines caller path buf offset store (inside, fits) =
    let name = strip_leading_slash path in
    elim (Option-cases (find name store)) [
      | inl e ↦ ground (arith, e, find-represent name store)
      | inr (bs, e) ↦ ground (
        arith,
        e,
        find-represent name store,
        take_whole buf,
        write_loop-numbered offset buf bs,
        assign-map_values numbered name (write_at 0 offset buf bs) store,
      )
    ]

pub truncate-refines :
    (caller : Caller) (path : Name) (new_length : ℕ) (store : Store)
    → IsStore store
    → new_length < 2 ^ 31
    → ramfs_oper caller (call_truncate path new_length) (represent store)
      ≡ kept (spec_oper caller (call_truncate path new_length) store)
unfolding ramfs_oper ramfs_truncate file_exists spec_oper
truncate-refines caller path new_length store (sorted, small) fits =
    let name = strip_leading_slash path in
    elim (Option-cases (find name store)) [
      | inl e ↦ ground (arith, e, find-represent name store)
      | inr (bs, e) ↦ ground (
        arith,
        e,
        find-represent name store,
        find-Every IsSmall name bs store small e,
        resize-numbered new_length bs,
        assign-map_values numbered name (resize_bytes new_length bs) store,
      )
    ]

pub create-refines :
    (caller : Caller) (path : Name) (mode : ℕ) (store : Store)
    → ramfs_oper caller (call_create path mode) (represent store)
      ≡ kept (spec_oper caller (call_create path mode) store)
unfolding ramfs_oper ramfs_create file_exists to_map to_map_loop spec_oper
create-refines caller path mode store =
    let name = strip_leading_slash path in
    ground (arith, find-represent name store, assign-map_values numbered name [] store)

pub getattr-refines :
    (caller : Caller) (path : Name) (store : Store)
    → with_stat (ramfs_getattr caller path (represent store))
      ≡ (spec_getattr caller path store, represent store)
unfolding ramfs_getattr file_exists
getattr-refines caller path store =
    let name = strip_leading_slash path in
    elim (Option-cases (find name store)) [
      | inl e ↦ ground (arith, e, find-represent name store)
      | inr (bs, e) ↦ ground (arith, e, find-represent name store, length-numbered_from 0 bs)
    ]
