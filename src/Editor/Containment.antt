-- ===== src/Editor/Containment.antt =====
-- tools/workspace_editor.py: what an edit may touch.
use synno_db.Base.{
  String, ◌≡◌, refl, inl, inr, Bool, true, false, Option, none, some, [], ◌++◌, Bool-cases,
  get_or_else, Option-cases, arith, ◌&&◌, not, ltb, is_some,
}
use synno_db.Python.Faults.{Fault, message, Result-cases}
use synno_db.Python.Paths.{Parts, relative_to, relative_to-eq-some}
use synno_db.Python.Texts.{Text, same_text, count}
use synno_db.Editor.Diffs.{normalize_diff_payload, repair_diff_context, is_nonempty}
use synno_db.Editor.Edits.{
  Disk, same_parts, read_text, write_text, PatchResult, Ran, Workspace, parent, resolve,
  is_readonly, guard_target, make_parent, unless_readonly, create_at, create_file, create_refusal,
}
use synno_db.Editor.Logging.{log_tool_call_error, after_log}
use synno_db.Editor.Sparing.{
  same_parts-eq, Kept, Kept-trans, make_dirs-root, log_tool_call_error-Kept,
}
use synno_db.Editor.Operations.{
  Edit, create, update, delete, substitute, overwrite, perform, apply_update, update_at,
  update_file, update_failed, delete_at, delete_file, update_refusal, delete_refusal, write_refusal,
  write_over, write_at, write_file,
}
use synno_db.Editor.Replacing.{
  replace_refusal, replace_failed, find_actual_string, replace_found, replace_in, replace_at,
  replace_in_file,
}

module _ (t q : Parts) (d : Disk) (apart : same_parts t q ≡ false) where
  write_text-eq : (content : Text) → (write_text t content d).1 q ≡ d q
  unfolding write_text
  write_text-eq content = ground arith

  create_at-eq :
      (w : Workspace) (path : String) (diff : Text) → (create_at w path diff d t).1 q ≡ d q
  unfolding create_at write_text
  create_at-eq w path diff = ground arith

  delete_at-eq : (w : Workspace) (path : String) → (delete_at w path d t).1 q ≡ d q
  unfolding delete_at
  delete_at-eq w path = ground arith

  replace_found-eq :
      (w : Workspace) (path : String) (actual_old new_string : Text) (all : Bool) (original : Text)
      → (replace_found w path actual_old new_string all original d t).1 q ≡ d q
  unfolding replace_found write_text
  replace_found-eq w path actual_old new_string all original = ground arith

  write_over-eq :
      (w : Workspace) (path : String) (content : Text) (o : Option Text)
      → (write_over w path content o d t).1 q ≡ d q
  unfolding write_over write_text
  write_over-eq w path content none = ground arith
  write_over-eq w path content (some original) = ground arith

  write_at-eq :
      (w : Workspace) (path : String) (content : Text) → (write_at w path content d t).1 q ≡ d q
  unfolding write_at
  write_at-eq w path content = elim (Result-cases (read_text d t)) [
    | inl (original, e) ↦
        rw (e, write_at)
          (ground (
            arith,
            write_over-eq w path content (some original),
            write_over-eq w path content none,
          ))
    | inr (f, e) ↦ rw (e, write_at) (ground (arith, write_over-eq w path content none))
  ]

-- An operation that logs and then only reports.
after_log-Kept :
    (w : Workspace) (type message : String) (done : PatchResult × Option Text) (d : Disk)
    (q : Parts)
    → Kept w d (after_log w type message done d).1 q
unfolding after_log
after_log-Kept w type message done d q =
    let kept = log_tool_call_error-Kept w type message d q in
    elim (Result-cases (log_tool_call_error w type message d).0) [
      | inr (f, e) ↦ rw (e, after_log) kept
      | inl (u, e) ↦ rw (e, after_log) kept
    ]

module _ (w : Workspace) (t q : Parts) (d : Disk) (apart : same_parts t q ≡ false) where
  update_failed-Kept :
      (original : Text) (f : Fault) (d' : Disk)
      → d' q ≡ d q
      → Kept w d (update_failed w t original f d').1 q
  unfolding update_failed
  update_failed-Kept original f d' same =
      Kept-trans w d d' (update_failed w t original f d').1 q (inl same)
        (after_log-Kept w "ApplyPatchFailed" (message f) _ d' q)

  apply_update-Kept :
      (path : String) (diff original : Text) → Kept w d (apply_update w path diff original d t).1 q
  unfolding apply_update
  apply_update-Kept path diff original =
      elim (Result-cases
        (w.apply_diff original (repair_diff_context w.unicode original diff) false)) [
          | inr (f, e) ↦ rw (e, apply_update) (update_failed-Kept original f d refl)
          | inl (patched, e) ↦
              let same = write_text-eq t q d apart patched in
              elim (Result-cases (write_text t patched d).0) [
                | inr (f, g) ↦
                    rw (e, g, apply_update)
                      (update_failed-Kept original f (write_text t patched d).1 same)
                | inl (u, g) ↦ rw (e, g, apply_update) (inl same)
              ]
        ]

  update_at-Kept : (path : String) (diff : Text) → Kept w d (update_at w path diff d t).1 q
  unfolding update_at
  update_at-Kept path diff = elim (Result-cases (read_text d t)) [
    | inl (original, e) ↦ rw (e, update_at) (apply_update-Kept path diff original)
    | inr (f, e) ↦ rw (e, update_at) (inl refl)
  ]

  replace_failed-Kept :
      (path : String) (output : Text) (summary : String)
      → Kept w d (replace_failed w path output summary d).1 q
  unfolding replace_failed
  replace_failed-Kept path output summary = after_log-Kept w "ReplaceInFileFailed" summary _ d q

  replace_in-Kept :
      (path : String) (old_string new_string : Text) (all : Bool) (original : Text)
      → Kept w d (replace_in w path old_string new_string all original d t).1 q
  unfolding replace_in
  replace_in-Kept path old_string new_string all original =
      elim (Option-cases (find_actual_string original old_string)) [
        | inl e ↦ rw (e, replace_in) (replace_failed-Kept path _ _)
        | inr (actual, e) ↦ elim (Bool-cases (ltb 1 (count actual original) && not all)) [
          | inl f ↦ rw (e, f, replace_in) (replace_failed-Kept path _ _)
          | inr f ↦
              rw (e, f, replace_in)
                (inl (replace_found-eq t q d apart w path actual new_string all original))
        ]
      ]

  replace_at-Kept :
      (path : String) (old_string new_string : Text) (all : Bool)
      → Kept w d (replace_at w path old_string new_string all d t).1 q
  unfolding replace_at
  replace_at-Kept path old_string new_string all =
      elim (Bool-cases (not (is_nonempty old_string))) [
        | inl e ↦ rw (e, replace_at) (inl refl)
        | inr e ↦ elim (Bool-cases (same_text old_string new_string)) [
          | inl f ↦ rw (e, f, replace_at) (inl refl)
          | inr f ↦ elim (Bool-cases (not (is_some (d t)))) [
            | inl g ↦ rw (e, f, g, replace_at) (inl refl)
            | inr g ↦ elim (Result-cases (read_text d t)) [
              | inr (fault, h) ↦ rw (e, f, g, h, replace_at) (inl refl)
              | inl (original, h) ↦
                  rw (e, f, g, h, replace_at)
                    (replace_in-Kept path old_string new_string all original)
            ]
          ]
        ]
      ]

-- At most one path, which lies directly in the workspace's root and is not read-only, is written or
-- removed; every other one is kept.
pub data Contained (w : Workspace) (d d' : Disk) : Type 0 where
  untouched : ((q : Parts) → Kept w d d' q) → Contained w d d'
  touched :
      (t rest : Parts)
      → t ≡ w.root ++ rest
      → same_parts (parent t) w.root ≡ true
      → is_readonly w t ≡ false
      → ((q : Parts) → same_parts t q ≡ false → Kept w d d' q)
      → Contained w d d'

make_parent-Kept :
    (w : Workspace) (ensure : Bool) (t : Parts) (d : Disk) (q : Parts)
    → same_parts (parent t) w.root ≡ true
    → Kept w d (make_parent ensure t d).1 q
unfolding make_parent
make_parent-Kept w true t d q flat = make_dirs-root w (parent t) d q (same_parts-eq _ _ flat)
make_parent-Kept w false t d q flat = inl refl

guard_target-Contained :
    (w : Workspace) (ensure : Bool) (path : String) (refusal : Text → Text × Option Text)
    (run : Disk → Parts → Ran) (d : Disk)
    → ((t q : Parts) (d' : Disk) → same_parts t q ≡ false → Kept w d' (run d' t).1 q)
    → Contained w d (guard_target w ensure path refusal run d).1
unfolding guard_target resolve unless_readonly
guard_target-Contained w ensure path refusal run d only =
    elim (Option-cases (relative_to (w.locate path) w.root)) [
      | inl e ↦ rw (e, guard_target, resolve) (untouched (λ q. inl refl))
      | inr (rest, e) ↦
          let t : Parts = w.locate path in
          elim (Bool-cases (same_parts (parent t) w.root)) [
            | inr f ↦ rw (e, f, guard_target, resolve) (untouched (λ q. inl refl))
            | inl f ↦
                let made = make_parent ensure t d in
                let first : (q : Parts) → Kept w d made.1 q =
                  λ q. make_parent-Kept w ensure t d q f in
                elim (Result-cases made.0) [
                  | inr (fault, h) ↦ rw (e, f, h, guard_target, resolve) (untouched first)
                  | inl (u, h) ↦ elim (Bool-cases (is_readonly w t)) [
                    | inl g ↦
                        rw (e, f, h, g, guard_target, resolve, unless_readonly) (untouched first)
                    | inr g ↦
                        rw (e, f, h, g, guard_target, resolve, unless_readonly)
                          (touched t rest (relative_to-eq-some t w.root rest e) f g (λ q apart.
                            Kept-trans w d made.1 (run made.1 t).1 q (first q)
                              (only t q made.1 apart)))
                  ]
                ]
          ]
    ]

-- Whatever an edit's path, diff or text is, and however the file system resolves the path, the edit
-- writes or removes at most one path: that path lies below the workspace's root with the root as its
-- parent, and is none of the read-only files. Every other path is as before, but for the log file of
-- failed tool calls, and for the workspace's root, the log's directory and directories above these two,
-- which may be made where nothing was. This holds for an edit that raises half-way, too.
pub perform-Contained : (w : Workspace) (e : Edit) (d : Disk) → Contained w d (perform w e d).1
unfolding perform create_file update_file delete_file replace_in_file write_file
perform-Contained w (create path diff) d =
    let text : Text = get_or_else diff [] in
    guard_target-Contained w true path (create_refusal path) (create_at w path text) d
      (λ t q d' apart. inl (create_at-eq t q d' apart w path text))
perform-Contained w (update path diff) d =
    let text : Text = normalize_diff_payload (get_or_else diff []) in
    guard_target-Contained w false path (update_refusal path) (update_at w path text) d
      (λ t q d' apart. update_at-Kept w t q d' apart path text)
perform-Contained w (delete path) d =
    guard_target-Contained w false path (delete_refusal path) (delete_at w path) d
      (λ t q d' apart. inl (delete_at-eq t q d' apart w path))
perform-Contained w (substitute path old_string new_string all) d =
    guard_target-Contained w false path (replace_refusal path)
      (replace_at w path old_string new_string all) d
      (λ t q d' apart. replace_at-Kept w t q d' apart path old_string new_string all)
perform-Contained w (overwrite path content) d =
    guard_target-Contained w true path (write_refusal path) (write_at w path content) d
      (λ t q d' apart. inl (write_at-eq t q d' apart w path content))
