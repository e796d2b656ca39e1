-- ===== src/Editor/Sparing.antt =====
-- tools/workspace_editor.py and tool_call_error_logger.py: what the making of directories and the log
-- of failed calls leave alone.
use synno_db.Base.{
  String, ◌≡◌, refl, sym, ap, ◌∙◌, ◌⊎◌, inl, inr, true, Option, none, some, [], ◌∷◌, ◌++◌,
  Bool-cases, arith, eq_iff,
}
use synno_db.Python.Faults.{Result-cases}
use synno_db.Python.Paths.{Parts}
use synno_db.Python.Texts.{Text}
use synno_db.Editor.Edits.{
  Disk, Node, file, binary, directory, same_parts, put_node, make_dirs, Workspace,
}
use synno_db.Editor.Logging.{log_dir, log_path, write_entry, log_tool_call_error}

pub same_parts-eq : (p q : Parts) → same_parts p q ≡ true → p ≡ q
same_parts-eq [] [] h = refl
same_parts-eq [] (q ∷ qs) h = absurd (cc)
same_parts-eq (p ∷ ps) [] h = absurd (cc)
same_parts-eq (p ∷ ps) (q ∷ qs) h = ground (arith, eq_iff p q, same_parts-eq ps qs)

append_assoc_parts : (a b c : Parts) → (a ++ b) ++ c ≡ a ++ (b ++ c)
append_assoc_parts [] b c = refl
append_assoc_parts (x ∷ a) b c = ap (λ (r : Parts). x ∷ r) (append_assoc_parts a b c)

-- q is the path p or one of its ancestors, from base on.
abbrev Leads : Parts → Parts → Parts → Type 0
Leads base ps q = (xs ys : Parts) × (q ≡ base ++ xs) × (xs ++ ys ≡ ps)

-- A directory on the way is made where nothing was; else the path is as before.
abbrev DirsKept : Parts → Parts → Disk → Disk → Parts → Type 0
DirsKept base ps d d' q = (d' q ≡ d q) ⊎ ((d q ≡ none) × (d' q ≡ some directory) × Leads base ps q)

deeper : (base ps q : Parts) (p : String) → Leads (base ++ p ∷ []) ps q → Leads base (p ∷ ps) q
deeper base ps q p (xs, ys, at, way) =
    (p ∷ xs, ys, at ∙ append_assoc_parts base (p ∷ []) xs, ap (λ (r : Parts). p ∷ r) way)

-- One more directory, made where nothing was.
made_one :
    (base ps : Parts) (p : String) (d d' : Disk) (q : Parts)
    → d (base ++ p ∷ []) ≡ none
    → DirsKept (base ++ p ∷ []) ps (put_node (base ++ p ∷ []) (some directory) d) d' q
    → DirsKept base (p ∷ ps) d d' q
made_one base ps p d d' q free later = elim (Bool-cases (same_parts (base ++ p ∷ []) q)) [
  | inl here ↦
      let at : base ++ p ∷ [] ≡ q = same_parts-eq (base ++ p ∷ []) q here in
      let gone : d q ≡ none = sym (ap d at) ∙ free in
      elim later [
        | inl same ↦ inr (gone, rw here at same, (p ∷ [], ps, sym at, refl))
        | inr (empty, made, way) ↦ inr (gone, made, deeper base ps q p way)
      ]
  | inr away ↦ elim later [
    | inl same ↦ inl (rw away at same)
    | inr (empty, made, way) ↦ inr (rw away at empty, made, deeper base ps q p way)
  ]
]

node-cases :
    (o : Option Node)
    → (o ≡ none)
      ⊎ (o ≡ some directory)
      ⊎ (o ≡ some binary)
      ⊎ ((text : Text) × (o ≡ some (file text)))
node-cases none = inl refl
node-cases (some directory) = inr (inl refl)
node-cases (some binary) = inr (inr (inl refl))
node-cases (some (file text)) = inr (inr (inr (text, refl)))

make_dirs-DirsKept :
    (base ps : Parts) (d : Disk) (q : Parts) → DirsKept base ps d (make_dirs base ps d).1 q
unfolding make_dirs
make_dirs-DirsKept base [] d q = inl refl
make_dirs-DirsKept base (p ∷ ps) d q = elim (node-cases (d (base ++ p ∷ []))) [
  | inl e ↦
      let here : Parts = base ++ p ∷ [] in
      let d1 : Disk = put_node here (some directory) d in
      rw (e, make_dirs)
        (made_one base ps p d (make_dirs here ps d1).1 q e (make_dirs-DirsKept here ps d1 q))
  | inr (inl e) ↦
      rw (e, make_dirs)
        (elim (make_dirs-DirsKept (base ++ p ∷ []) ps d q) [
          | inl same ↦ inl same
          | inr (gone, made, way) ↦ inr (gone, made, deeper base ps q p way)
        ])
  | inr (inr (inl e)) ↦ rw (e, make_dirs) (inl refl)
  | inr (inr (inr (text, e))) ↦ rw (e, make_dirs) (inl refl)
]

-- p is q or lies below it.
abbrev pub IsAbove : Parts → Parts → Type 0
IsAbove q p = (ys : Parts) × (q ++ ys ≡ p)

-- What an operation does to every path but its target: nothing, but for the workspace's root, the
-- directory of the log and directories above them, which are made where nothing was, and for the
-- log file itself.
abbrev pub Kept : Workspace → Disk → Disk → Parts → Type 0
Kept w d d' q =
    (d' q ≡ d q)
    ⊎ ((d q ≡ none) × (d' q ≡ some directory) × (IsAbove q w.root ⊎ IsAbove q (log_dir w)))
    ⊎ (same_parts (log_path w) q ≡ true)

pub Kept-trans :
    (w : Workspace) (d d1 d2 : Disk) (q : Parts) → Kept w d d1 q → Kept w d1 d2 q → Kept w d d2 q
Kept-trans w d d1 d2 q (inr (inr log)) b = inr (inr log)
Kept-trans w d d1 d2 q (inl same) (inl later) = inl (later ∙ same)
Kept-trans w d d1 d2 q (inl same) (inr (inr log)) = inr (inr log)
Kept-trans w d d1 d2 q (inl same) (inr (inl (gone, made, way))) =
    inr (inl (sym same ∙ gone, made, way))
Kept-trans w d d1 d2 q (inr (inl (gone, made, way))) (inl later) =
    inr (inl (gone, later ∙ made, way))
Kept-trans w d d1 d2 q (inr (inl (gone, made, way))) (inr (inr log)) = inr (inr log)
Kept-trans w d d1 d2 q (inr (inl (gone, made, way))) (inr (inl (gone1, made1, way1))) =
    inr (inl (gone, made1, way))

-- The directories above the workspace's files.
pub make_dirs-root :
    (w : Workspace) (p : Parts) (d : Disk) (q : Parts)
    → p ≡ w.root
    → Kept w d (make_dirs [] p d).1 q
make_dirs-root w p d q root = elim (make_dirs-DirsKept [] p d q) [
  | inl same ↦ inl same
  | inr (gone, made, (xs, ys, at, way)) ↦
      inr (inl (gone, made, inl (ys, ap (λ (r : Parts). r ++ ys) at ∙ way ∙ root)))
]

write_entry-Kept :
    (w : Workspace) (entry : Text) (d : Disk) (q : Parts) → Kept w d (write_entry w entry d).1 q
unfolding write_entry
write_entry-Kept w entry d q = elim (Bool-cases (same_parts (log_path w) q)) [
  | inl log ↦ inr (inr log)
  | inr away ↦ inl (ground (arith, away))
]

pub log_tool_call_error-Kept :
    (w : Workspace) (type message : String) (d : Disk) (q : Parts)
    → Kept w d (log_tool_call_error w type message d).1 q
unfolding log_tool_call_error
log_tool_call_error-Kept w type message d q =
    let out = make_dirs w.cwd ("tool_call_errors" ∷ []) d in
    let kept : Kept w d out.1 q = elim (make_dirs-DirsKept w.cwd ("tool_call_errors" ∷ []) d q) [
      | inl same ↦ inl same
      | inr (gone, made, (xs, ys, at, way)) ↦ inr (
          inl (
            gone,
            made,
            inr (
              ys,
              ap (λ (r : Parts). r ++ ys) at
                  ∙ append_assoc_parts w.cwd xs ys
                  ∙ ap (λ (r : Parts). w.cwd ++ r) way,
            ),
          ))
    ] in
    elim (Result-cases out.0) [
      | inr (f, e) ↦ rw (e, log_tool_call_error) kept
      | inl (u, e) ↦
          rw (e, log_tool_call_error)
            (Kept-trans w d out.1 (write_entry w (w.log_entry type message) out.1).1 q kept
              (write_entry-Kept w (w.log_entry type message) out.1 q))
    ]
