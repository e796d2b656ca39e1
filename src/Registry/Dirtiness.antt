-- ===== src/Registry/Dirtiness.antt =====
-- router/registry.py: dirty tables. A binding is dirty while any of its tables is marked.
use synno_db.Base.{
  String, ◌≡◌, ◌∙◌, refl, Bool, true, false, ◌||◌, not, ◌&&◌, List, [], ◌∷◌, any, arith, str_eq,
}
use synno_db.Base.Dict.{StrSet, contains, add, discard, contains-add, contains-discard}
use text.Mathlib.TextPositions.{eq_refl}
use synno_db.Python.{PythonOps}
use synno_db.Registry.{
  EngineBinding, TemplateRegistry, add_lower, discard_lower, mark_tables_dirty, is_dirty,
  register_engine,
}

-- t.lower() for some t of the tables is `name`
abbrev pub names : PythonOps → List String → String → Bool
names py tables name = any (λ t. str_eq (py.lower t) name) tables

contains-add_lower :
    (py : PythonOps) (tables : List String) (s : StrSet) (name : String)
    → contains (add_lower py tables s) name ≡ (names py tables name || contains s name)
unfolding add_lower
contains-add_lower py [] s name = refl
contains-add_lower py (t ∷ tables) s name =
    rw (contains-add_lower py tables (add s (py.lower t)) name, contains-add s (py.lower t) name)
      (ground arith)

contains-discard_lower :
    (py : PythonOps) (tables : List String) (s : StrSet) (name : String)
    → contains (discard_lower py tables s) name ≡ (not (names py tables name) && contains s name)
unfolding discard_lower
contains-discard_lower py [] s name = refl
contains-discard_lower py (t ∷ tables) s name = ground (
  arith,
  contains-discard_lower py tables (discard s (py.lower t)) name,
  contains-discard s (py.lower t) name,
)

any_or {ℓ} :
    {A : Type ℓ} (p q : A → Bool) (xs : List A) → any (λ x. p x || q x) xs ≡ (any p xs || any q xs)
any_or p q [] = refl
any_or p q (x ∷ xs) = ground (arith, any_or p q xs)

any_cong {ℓ} :
    {A : Type ℓ} (p q : A → Bool) (xs : List A) → ((x : A) → p x ≡ q x) → any p xs ≡ any q xs
any_cong p q [] h = refl
any_cong p q (x ∷ xs) h = rw (h x, any_cong p q xs h) refl

-- After tables are marked dirty, a binding is dirty exactly when it was dirty before or one of its
-- tables is among the marked ones, up to case.
pub is_dirty-mark_tables_dirty :
    (py : PythonOps) (tables : List String) (r : TemplateRegistry) (b : EngineBinding)
    → is_dirty py (mark_tables_dirty py tables r) b
      ≡ (any (λ t. names py tables (py.lower t)) b.tables || is_dirty py r b)
unfolding is_dirty mark_tables_dirty
is_dirty-mark_tables_dirty py tables r b =
    any_cong _ _ b.tables (λ t. contains-add_lower py tables r.dirty_tables (py.lower t))
    ∙ any_or _ _ b.tables

names_all :
    (py : PythonOps) (tables more : List String) (s : StrSet)
    → ((name : String) → names py tables name ≡ true → names py more name ≡ true)
    → any (λ t. not (names py more (py.lower t)) && contains s (py.lower t)) tables ≡ false
names_all py [] more s h = refl
names_all py (t ∷ tables) more s h =
    let here : names py more (py.lower t) ≡ true =
      h (py.lower t) (rw (eq_refl (py.lower t)) refl) in
    rw here (names_all py tables more s (λ name k. h name (ground arith)))

-- A binding that was just registered with its engine is clean: `register_engine` clears the marks of
-- all its tables.
pub is_dirty-register_engine :
    (py : PythonOps) (b : EngineBinding) (r : TemplateRegistry)
    → is_dirty py (register_engine py b r) b ≡ false
unfolding is_dirty register_engine
is_dirty-register_engine py b r =
    any_cong _ _ b.tables (λ t. contains-discard_lower py b.tables r.dirty_tables (py.lower t))
    ∙ names_all py b.tables b.tables r.dirty_tables (λ name h. h)
