-- ===== src/Bbfs/Log/Session.antt =====
-- What bbfs.c logs of its start and end: bb_init and bb_destroy, which do nothing else, and the loop of
-- bb_listxattr that logs the names of the attributes.
use safs.Base.{
  ℕ, zero, suc, ◌+◌, ◌-◌, true, false, Option, none, some, List, [], ◌∷◌, ◌++◌, ◌==◌, Name, codes,
  length, if◌then◌else◌,
}
use safs.Bbfs.Log.{log_msg, FuseConnInfo, FuseContext, log_conn, log_fuse_context}
use safs.Bbfs.Log.Printf.{hexadecimal, int_size, convert}

-- The result is BB_DATA.
unfoldable pub bb_init : FuseConnInfo → FuseContext → Name → ℕ × Name
bb_init conn context logfile = (
  context.private_data,
  log_fuse_context context (log_conn conn (log_msg (codes "\nbb_init()\n") logfile)),
)

unfoldable pub bb_destroy : ℕ → Name → Name
bb_destroy userdata logfile =
    log_msg
      (codes "\nbb_destroy(userdata=0x" ++ convert (hexadecimal int_size 8) userdata ++ codes ")\n")
      logfile

-- The C string at the start of some memory, with what lies behind its zero; `none` if no zero ends it.
unfoldable pub c_string : List ℕ → Option (Name × List ℕ)
c_string [] = none
c_string (c ∷ cs) =
    let later = c_string cs in
    if c == 0
    then some ([], cs)
    else elim later [ none ↦ none | some (text, behind) ↦ some (c ∷ text, behind) ]

-- for (ptr = list; ptr < list + retstat; ptr += strlen(ptr)+1), on the memory from `ptr` on and with
-- `left` bytes before list + retstat: the texts that are logged. `none` if the memory ends before a
-- string does, or the fuel.
unfoldable pub list_loop : ℕ → ℕ → List ℕ → Option (List Name)
list_loop zero left memory = none
list_loop (suc fuel) left memory = elim (left == 0) [
  | true ↦ some []
  | false ↦ elim (c_string memory) [
    | none ↦ none
    | some (text, behind) ↦ elim (list_loop fuel (left - (length text + 1)) behind) [
      | none ↦ none
      | some texts ↦ some ((codes "    \"" ++ text ++ codes "\"\n") ∷ texts)
    ]
  ]
]
