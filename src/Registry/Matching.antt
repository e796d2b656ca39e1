-- ===== src/Registry/Matching.antt =====
-- router/registry.py: which binding a key is matched with, and that quarantine lasts.
use synno_db.Base.{
  String, ◌≡◌, true, false, Option, none, some, List, arith, inl, inr, Option-cases, Bool-cases,
  str_eq, if◌then◌else◌,
}
use synno_db.Base.Dict.{get, get-put, contains-add}
use synno_db.Python.{PythonOps}
use synno_db.Registry.{
  EngineBinding, TemplateRegistry, register, unregister, match, mark_tables_dirty, clear_dirty,
  quarantine, is_quarantined,
}

-- A registered binding is matched under its key unless its template is quarantined; every other key
-- is matched as before.
pub match-register :
    (b : EngineBinding) (r : TemplateRegistry) (key : String)
    → match (register b r) key ≡ (
        if str_eq b.normalized_sql key
        then (if is_quarantined r b.template_id then none else some b)
        else match r key)
unfolding match register is_quarantined
match-register b r key = ground (arith, get-put r.by_norm b.normalized_sql key b)

-- One call of a method that changes the registry, other than `reset_quarantine`.
pub data Change (py : PythonOps) : TemplateRegistry → TemplateRegistry → Type 0 where
  registers : (b : EngineBinding) (r : TemplateRegistry) → Change py r (register b r)
  unregisters : (key : String) (r : TemplateRegistry) → Change py r (unregister key r)
  marks :
      (tables : List String) (r : TemplateRegistry) → Change py r (mark_tables_dirty py tables r)
  clears :
      (tables : Option (List String)) (r : TemplateRegistry) → Change py r (clear_dirty py tables r)
  quarantines : (id : String) (r : TemplateRegistry) → Change py r (quarantine id r)

pub data Changes (py : PythonOps) (r : TemplateRegistry) : TemplateRegistry → Type 0 where
  none_yet : Changes py r r
  then_one : {s t : TemplateRegistry} → Changes py r s → Change py s t → Changes py r t

Change-is_quarantined :
    {py : PythonOps} {r s : TemplateRegistry} (id : String)
    → Change py r s
    → is_quarantined r id ≡ true
    → is_quarantined s id ≡ true
unfolding is_quarantined register unregister mark_tables_dirty clear_dirty quarantine
Change-is_quarantined id (registers b r) h = h
Change-is_quarantined id (unregisters key r) h = h
Change-is_quarantined id (marks tables r) h = h
Change-is_quarantined id (clears none r) h = h
Change-is_quarantined id (clears (some tables) r) h = h
Change-is_quarantined id (quarantines other r) h =
    rw (contains-add r.quarantined other id) (ground arith)

Changes-is_quarantined :
    {py : PythonOps} {r s : TemplateRegistry} (id : String)
    → Changes py r s
    → is_quarantined r id ≡ true
    → is_quarantined s id ≡ true
Changes-is_quarantined id none_yet h = h
Changes-is_quarantined id (then_one steps step) h =
    Change-is_quarantined id step (Changes-is_quarantined id steps h)

pub match-unquarantined :
    (r : TemplateRegistry) (key : String) {b : EngineBinding}
    → match r key ≡ some b
    → is_quarantined r b.template_id ≡ false
unfolding match is_quarantined
match-unquarantined r key {b} h = elim (Option-cases (get r.by_norm key)) [
  | inl e ↦ absurd (ground arith)
  | inr (c, e) ↦ ground arith
]

-- Once a template is quarantined, no sequence of calls but `reset_quarantine` makes `match` return a
-- binding of that template again: registering it anew does not.
pub quarantine_lasts :
    {py : PythonOps} {r s : TemplateRegistry} (key : String) {b : EngineBinding}
    → Changes py r s
    → match s key ≡ some b
    → is_quarantined r b.template_id ≡ false
quarantine_lasts {r} {s} key {b} steps h = elim (Bool-cases (is_quarantined r b.template_id)) [
  | inr e ↦ e
  | inl e ↦ absurd (cc (match-unquarantined s key h, Changes-is_quarantined b.template_id steps e))
]
