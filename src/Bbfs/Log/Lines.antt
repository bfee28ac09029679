-- ===== src/Bbfs/Log/Lines.antt =====
-- The log file read again line by line.
use Prim.Native.String.{String}
use safs.Base.{ℕ, ◌%◌, ◌≡◌, ◌≢◌, refl, ap, sym, ◌∙◌, arith, List, [], ◌∷◌, ◌++◌, Name, codes}
use safs.Bbfs.Log.{log_msg, log_msgs, log_struct}
use safs.Bbfs.Log.Printf.{Conversion, size_of, modulus, convert}
use safs.Bbfs.Log.Scan.{scan_back, Lacks, append-Lacks, convert-Lacks, scan_back-convert}

append_assoc : (a b c : Name) → (a ++ b) ++ c ≡ a ++ (b ++ c)
append_assoc [] b c = refl
append_assoc (x ∷ a) b c = ap (λ t. x ∷ t) (append_assoc a b c)

append_left : (a b c : Name) → a ++ b ≡ a ++ c → b ≡ c
append_left [] b c e = e
append_left (x ∷ a) b c e = append_left a b c (ground (arith, e))

append_nil : (a : Name) → a ++ [] ≡ a
append_nil [] = refl
append_nil (x ∷ a) = ap (λ t. x ∷ t) (append_nil a)

-- Two texts that are equal up to their first new line, and behind it.
split_line :
    (a b c d : Name)
    → Lacks b'\n' a
    → Lacks b'\n' b
    → a ++ b'\n' ∷ c ≡ b ++ b'\n' ∷ d
    → (a ≡ b) × (c ≡ d)
split_line [] [] c d p q e = ground (arith, e)
split_line [] (y ∷ b) c d p q e = ground (arith, e, q)
split_line (x ∷ a) [] c d p q e = ground (arith, e, p)
split_line (x ∷ a) (y ∷ b) c d p q e = ground (arith, e, p, q, split_line a b c d)

-- A text that ends with its only new line.
abbrev pub IsLine : Name → Type 0
IsLine text = (body : Name) × (Lacks b'\n' body × (text ≡ body ++ codes "\n"))

abbrev pub AreLines : List Name → Type 0
AreLines [] = Unit
AreLines (text ∷ texts) = IsLine text × AreLines texts

joined : List Name → Name
joined [] = []
joined (text ∷ texts) = text ++ joined texts

log_msgs-joined :
    (texts : List Name) (logfile : Name) → log_msgs texts logfile ≡ logfile ++ joined texts
unfolding log_msgs log_msg joined
log_msgs-joined [] logfile = sym (append_nil logfile)
log_msgs-joined (text ∷ texts) logfile =
    log_msgs-joined texts (logfile ++ text) ∙ append_assoc logfile text (joined texts)

joined-line :
    (text body : Name) (texts : List Name)
    → text ≡ body ++ codes "\n"
    → joined (text ∷ texts) ≡ body ++ b'\n' ∷ joined texts
unfolding joined
joined-line text body texts shape =
    ap (λ t. t ++ joined texts) shape ∙ append_assoc body (codes "\n") (joined texts)

not_empty : (a b : Name) (c : ℕ) → a ++ c ∷ b ≢ []
not_empty [] b c e = ground (arith, e)
not_empty (x ∷ a) b c e = ground (arith, e)

joined_injective :
    (texts others : List Name)
    → AreLines texts
    → AreLines others
    → joined texts ≡ joined others
    → texts ≡ others
unfolding joined
joined_injective [] [] p q e = refl
joined_injective [] (other ∷ others) p ((body, (lacks, shape)), q) e =
    absurd
      (not_empty body (joined others) b'\n' (sym (joined-line other body others shape) ∙ sym e))
joined_injective (text ∷ texts) [] ((body, (lacks, shape)), p) q e =
    absurd (not_empty body (joined texts) b'\n' (sym (joined-line text body texts shape) ∙ e))
joined_injective (text ∷ texts) (other ∷ others) ((a, (lacks, shape)), p) ((b, (free, form)), q) e =
    let (same, rest) =
      split_line a b (joined texts) (joined others) lacks free
        (sym (joined-line text a texts shape) ∙ e ∙ joined-line other b others form) in
    let line : text ≡ other = shape ∙ ap (λ t. t ++ codes "\n") same ∙ sym form in
    let later : texts ≡ others = joined_injective texts others p q rest in cc

-- x
pub log_msgs_injective :
    (texts others : List Name) (logfile : Name)
    → AreLines texts
    → AreLines others
    → log_msgs texts logfile ≡ log_msgs others logfile
    → texts ≡ others
log_msgs_injective texts others logfile p q e = joined_injective texts others p q (
    append_left logfile (joined texts) (joined others)
      (sym (log_msgs-joined texts logfile) ∙ e ∙ log_msgs-joined others logfile))

-- What log_struct prints before the value.
label : String → String → Name
label field prefix = codes "    " ++ codes field ++ codes " = " ++ codes prefix

label-Lacks :
    (field prefix : String)
    → Lacks b'\n' (codes field)
    → Lacks b'\n' (codes prefix)
    → Lacks b'\n' (label field prefix)
unfolding label
label-Lacks field prefix p q =
    let named = append-Lacks b'\n' (codes "    ") (codes field) refl p in
    let equals = append-Lacks b'\n' (codes "    " ++ codes field) (codes " = ") named refl in
    append-Lacks b'\n' (codes "    " ++ codes field ++ codes " = ") (codes prefix) equals q

pub log_struct-IsLine :
    (field prefix : String) (format : Conversion) (value : ℕ)
    → Lacks b'\n' (codes field)
    → Lacks b'\n' (codes prefix)
    → IsLine (log_struct field prefix format value)
unfolding log_struct label
log_struct-IsLine field prefix format value p q =
    let text = convert format value in
    let line =
      append-Lacks b'\n' (label field prefix) text (label-Lacks field prefix p q)
        (convert-Lacks format value) in
    (label field prefix ++ text, (line, refl))

-- From a text of log_struct one can read the bits of the value that its conversion takes.
pub log_struct_injective :
    (field prefix : String) (format : Conversion) (value other : ℕ)
    → log_struct field prefix format value ≡ log_struct field prefix format other
    → value % modulus (size_of format) ≡ other % modulus (size_of format)
unfolding log_struct label
log_struct_injective field prefix format value other e =
    let a = convert format value in
    let b = convert format other in
    let front = label field prefix in
    let ends : a ++ codes "\n" ≡ b ++ codes "\n" =
      append_left front (a ++ codes "\n") (b ++ codes "\n")
        (sym (append_assoc front a (codes "\n")) ∙ e ∙ append_assoc front b (codes "\n")) in
    let same : a ≡ b =
      (split_line a b [] [] (convert-Lacks format value) (convert-Lacks format other) ends).0 in
    sym (scan_back-convert format value)
    ∙ ap (scan_back format) same
    ∙ scan_back-convert format other
