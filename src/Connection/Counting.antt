-- ===== src/Connection/Counting.antt =====
-- duckdb_compat/connection.py: the shared count of live handles, and when the engines are released.
use synno_db.Base.{
  ℕ, zero, suc, ◌+◌, ◌<◌, ◌≡◌, refl, ◌∙◌, ap, ◌⊎◌, inl, inr, Bool, true, false, Option, none, some,
  List, [], ◌∷◌, ◌++◌, get_elem?, set, Option-cases, arith,
}
use synno_db.Base.Int.{pos}
use synno_db.Python.{PythonOps}
use synno_db.Bind.{SqlOps}
use synno_db.Registry.{bindings}
use synno_db.Router.State.{QueryRouter}
use synno_db.Connection.Handles.{Handle, Site, increment, decrement}
use synno_db.Connection.Statements.{After, execute_with, execute, executemany_with, executemany}
use synno_db.Connection.Lifecycle.{
  Fleet, Event, executes, executes_many, opens_cursor, closes, apply, apply_all, connect, cursor,
  close, new_cursor, release, close_engines,
}
use synno_db.Connection.Steadiness.{Steady, execute_with-Steady, executemany_with-Steady}
use synno_db.Connection.Releases.{Released, close_bound-closes}

abbrev bit : Bool → ℕ
bit true = 1
bit false = 0

abbrev pub open_count : List Handle → ℕ
open_count [] = 0
open_count (h ∷ hs) = bit h.is_open + open_count hs

open_count-set :
    (hs : List Handle) (i : ℕ) (h h' : Handle)
    → get_elem? hs i ≡ some h
    → open_count (set hs i h') + bit h.is_open ≡ open_count hs + bit h'.is_open
open_count-set [] i h h' e = absurd (cc)
open_count-set (k ∷ hs) zero h h' e = ground (arith, e)
open_count-set (k ∷ hs) (suc i) h h' e = omega (arith, open_count-set hs i h h' e)

open_count-append : (hs ks : List Handle) → open_count (hs ++ ks) ≡ open_count hs + open_count ks
open_count-append [] ks = omega arith
open_count-append (h ∷ hs) ks = omega (arith, open_count-append hs ks)

-- The count is that of the open handles.
abbrev pub IsCounted : Fleet → Type 0
IsCounted f = f.site.refcount ≡ pos (open_count f.handles)

-- Only open handles are closed.
abbrev pub IsProper : Event → Fleet → Type 0
IsProper (executes i m query params) f = Unit
IsProper (executes_many i m query) f = Unit
IsProper (opens_cursor i) f = Unit
IsProper (closes i) f = (h : Handle) × (get_elem? f.handles i ≡ some h) × (h.is_open ≡ true)

abbrev pub AreProper : PythonOps → SqlOps → List Event → Fleet → Type 0
AreProper py sql [] f = Unit
AreProper py sql (e ∷ es) f = IsProper e f × AreProper py sql es (apply py sql e f)

decrement-pos : (n k : ℕ) → k + 1 ≡ n → decrement (pos n) ≡ pos k
decrement-pos zero k e = absurd (omega arith)
decrement-pos (suc n) k e = ap pos (omega arith)

store-IsCounted :
    (i : ℕ) (f : Fleet) (h : Handle) (out : After)
    → get_elem? f.handles i ≡ some h
    → Steady h f.site out
    → IsCounted f
    → out.2.refcount ≡ pos (open_count (set f.handles i out.1))
store-IsCounted i f h out e steady counted =
    let kept = open_count-set f.handles i h out.1 e in
    let same : open_count (set f.handles i out.1) ≡ open_count f.handles =
      omega (arith, kept, ap bit steady.0) in
    steady.1 ∙ counted ∙ ap pos (rw same refl)

close_engines-refcount : (s : Site) → (close_engines s).refcount ≡ s.refcount
unfolding close_engines
close_engines-refcount s = ground arith

release-refcount : (s : Site) → (release s).refcount ≡ decrement s.refcount
unfolding release
release-refcount s =
    ground (arith, close_engines-refcount (record s { refcount = decrement s.refcount }))

close-IsCounted : (i : ℕ) (f : Fleet) → IsProper (closes i) f → IsCounted f → IsCounted (close i f)
unfolding close
close-IsCounted i f (h, e, opened) counted =
    let closed : Handle = record h { is_open = false } in
    rw (e, close)
      (release-refcount f.site
        ∙ ap decrement counted
        ∙ decrement-pos (open_count f.handles) (open_count (set f.handles i closed))
            (omega (arith, open_count-set f.handles i h closed e, ap bit opened)))

cursor-IsCounted : (i : ℕ) (f : Fleet) → IsCounted f → IsCounted (cursor i f)
unfolding cursor
cursor-IsCounted i f counted = elim (Option-cases (get_elem? f.handles i)) [
  | inl e ↦ rw (e, cursor) counted
  | inr (h, e) ↦
      rw (e, cursor)
        (ap increment counted
          ∙ ap pos (omega (arith, open_count-append f.handles (new_cursor h ∷ []))))
]

module _ (py : PythonOps) (sql : SqlOps) where
  apply-IsCounted :
      (e : Event) (f : Fleet) → IsProper e f → IsCounted f → IsCounted (apply py sql e f)
  unfolding apply execute executemany
  apply-IsCounted (executes i m query params) f proper counted =
      elim (Option-cases (get_elem? f.handles i)) [
        | inl e ↦ rw (e, apply) counted
        | inr (h, e) ↦
            rw (e, apply)
              (store-IsCounted i f h (execute_with py sql m query params f.site.router h f.site) e
                (execute_with-Steady py sql m query params f.site.router h f.site) counted)
      ]
  apply-IsCounted (executes_many i m query) f proper counted =
      elim (Option-cases (get_elem? f.handles i)) [
        | inl e ↦ rw (e, apply) counted
        | inr (h, e) ↦
            rw (e, apply)
              (store-IsCounted i f h (executemany_with py sql m query f.site.router h f.site) e
                (executemany_with-Steady py sql m query f.site.router h f.site) counted)
      ]
  apply-IsCounted (opens_cursor i) f proper counted = cursor-IsCounted i f counted
  apply-IsCounted (closes i) f proper counted = close-IsCounted i f proper counted

  apply_all-IsCounted :
      (es : List Event) (f : Fleet)
      → AreProper py sql es f
      → IsCounted f
      → IsCounted (apply_all py sql es f)
  unfolding apply_all
  apply_all-IsCounted [] f proper counted = counted
  apply_all-IsCounted (e ∷ es) f proper counted =
      apply_all-IsCounted es (apply py sql e f) proper.1 (apply-IsCounted e f proper.0 counted)

-- With another open handle left the workers stay; with the last one every bound engine is closed.
abbrev pub ReleasedLast : ℕ → Fleet → Type 0
ReleasedLast i f =
    ((1 < open_count f.handles) × ((close i f).site.workers ≡ f.site.workers))
    ⊎ ((open_count f.handles ≡ 1) × Released f.site.router (close i f).site.workers)

close_engines-Released :
    (s : Site) (o : Option QueryRouter) → s.router ≡ o → Released o (close_engines s).workers
unfolding close_engines
close_engines-Released s none e = tt
close_engines-Released s (some r) e =
    close_bound-closes (bindings r.registry) s.workers _ (rw (e, close_engines) refl)

close-ReleasedLast :
    (i : ℕ) (f : Fleet) (h : Handle) (k : ℕ)
    → get_elem? f.handles i ≡ some h
    → decrement f.site.refcount ≡ pos k
    → k + 1 ≡ open_count f.handles
    → ReleasedLast i f
unfolding close release
close-ReleasedLast i f h zero e down one = inr (
  omega arith,
  rw (e, close, release, down)
      (close_engines-Released (record (f.site) { refcount = decrement f.site.refcount })
        f.site.router refl),
)
close-ReleasedLast i f h (suc k) e down more = inl (omega arith, rw (e, close, release, down) refl)

-- On a router to which one connection was opened, and on which then any calls were made that close
-- no handle twice, closing an open handle leaves every worker as it is while another handle is open,
-- and closes the worker of every bound engine when it is the last one.
pub close_releases_last :
    (py : PythonOps) (sql : SqlOps) (h : Handle) (s : Site) (es : List Event) (i : ℕ)
    → s.refcount ≡ pos 0
    → h.is_open ≡ true
    → AreProper py sql es (connect h s)
    → IsProper (closes i) (apply_all py sql es (connect h s))
    → ReleasedLast i (apply_all py sql es (connect h s))
unfolding connect
close_releases_last py sql h s es i fresh opened proper (k, e, open_k) =
    let f : Fleet = apply_all py sql es (connect h s) in
    let counted : IsCounted f =
      apply_all-IsCounted py sql es (connect h s) proper
        (ap increment fresh ∙ ap pos (omega (arith, ap bit opened))) in
    let closed : Handle = record k { is_open = false } in
    let left : ℕ = open_count (set f.handles i closed) in
    let fewer : left + 1 ≡ open_count f.handles =
      omega (arith, open_count-set f.handles i k closed e, ap bit open_k) in
    close-ReleasedLast i f k left e
      (ap decrement counted ∙ decrement-pos (open_count f.handles) left fewer) fewer
