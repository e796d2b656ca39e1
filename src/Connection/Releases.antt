-- ===== src/Connection/Releases.antt =====
-- duckdb_compat/connection.py: which workers are closed once the engines are released.
use synno_db.Base.{
  ℕ, zero, suc, ◌≡◌, refl, ◌∙◌, Bool, true, Option, none, some, List, [], ◌∷◌, All, get_elem?, set,
  Option-cases, Bool-cases, ==_iff, inl, inr, arith, ◌==◌, if◌then◌else◌,
}
use synno_db.Registry.{EngineBinding, bindings}
use synno_db.Discovery.Planes.{Worker, close_worker}
use synno_db.Router.State.{QueryRouter}
use synno_db.Connection.Lifecycle.{close_bound}

-- There is no such worker, or it is closed.
abbrev pub closed_at : List Worker → ℕ → Bool
closed_at [] i = true
closed_at (w ∷ ws) zero = w.closed
closed_at (w ∷ ws) (suc i) = closed_at ws i

abbrev pub is_released : List Worker → Option ℕ → Bool
is_released ws none = true
is_released ws (some i) = closed_at ws i

closed_at-set :
    (ws : List Worker) (k i : ℕ) (w : Worker)
    → get_elem? ws k ≡ some w
    → closed_at (set ws k (record w { closed = true })) i
      ≡ (if k == i then true else closed_at ws i)
closed_at-set [] k i w e = ground arith
closed_at-set (v ∷ ws) zero zero w e = ground arith
closed_at-set (v ∷ ws) zero (suc i) w e = ground arith
closed_at-set (v ∷ ws) (suc k) zero w e = ground arith
closed_at-set (v ∷ ws) (suc k) (suc i) w e = ground (arith, closed_at-set ws k i w e)

closed_at_missing : (ws : List Worker) (k : ℕ) → get_elem? ws k ≡ none → closed_at ws k ≡ true
closed_at_missing [] k e = refl
closed_at_missing (w ∷ ws) zero e = absurd (cc)
closed_at_missing (w ∷ ws) (suc k) e = closed_at_missing ws k e

missing_same :
    (ws : List Worker) (k i : ℕ)
    → get_elem? ws k ≡ none
    → closed_at ws i ≡ (if k == i then true else closed_at ws i)
missing_same ws k i e = elim (Bool-cases (k == i)) [
  | inl same ↦ rw same (rw (← (==_iff k i).0 same) (closed_at_missing ws k e))
  | inr other ↦ rw other refl
]

closed_at-close_worker :
    (ws : List Worker) (k i : ℕ)
    → closed_at (close_worker k ws) i ≡ (if k == i then true else closed_at ws i)
unfolding close_worker
closed_at-close_worker ws k i = elim (Option-cases (get_elem? ws k)) [
  | inl e ↦ rw (e, close_worker) (missing_same ws k i e)
  | inr (w, e) ↦ rw (e, close_worker) (closed_at-set ws k i w e)
]

-- Releasing keeps what is closed, and closes the engine of every binding.
close_bound-keeps :
    (bs : List EngineBinding) (ws : List Worker) (i : ℕ)
    → closed_at ws i ≡ true
    → closed_at (close_bound bs ws) i ≡ true
unfolding close_bound
close_bound-keeps [] ws i h = h
close_bound-keeps (b ∷ bs) ws i h = elim (Option-cases b.engine) [
  | inl e ↦ rw (e, close_bound) (close_bound-keeps bs ws i h)
  | inr (k, e) ↦
      rw (e, close_bound)
        (close_bound-keeps bs (close_worker k ws) i (ground (arith, closed_at-close_worker ws k i)))
]

close_bound-step :
    (b : EngineBinding) (bs : List EngineBinding) (ws : List Worker) (k : ℕ)
    → b.engine ≡ some k
    → close_bound (b ∷ bs) ws ≡ close_bound bs (close_worker k ws)
unfolding close_bound
close_bound-step b bs ws k e = rw (e, close_bound) refl

close_bound-skip :
    (b : EngineBinding) (bs : List EngineBinding) (ws : List Worker)
    → b.engine ≡ none
    → close_bound (b ∷ bs) ws ≡ close_bound bs ws
unfolding close_bound
close_bound-skip b bs ws e = rw (e, close_bound) refl

pub close_bound-closes :
    (bs : List EngineBinding) (ws ws' : List Worker)
    → ws' ≡ close_bound bs ws
    → All (λ (b : EngineBinding). is_released ws' b.engine ≡ true) bs
close_bound-closes [] ws ws' same = tt
close_bound-closes (b ∷ bs) ws ws' same = elim (Option-cases b.engine) [
  | inl e ↦ (rw e refl, close_bound-closes bs ws ws' (same ∙ close_bound-skip b bs ws e))
  | inr (k, e) ↦
      let same' = same ∙ close_bound-step b bs ws k e in
      (
        rw (e, same')
            (close_bound-keeps bs (close_worker k ws) k
              (ground (arith, closed_at-close_worker ws k k))),
        close_bound-closes bs (close_worker k ws) ws' same',
      )
]

-- The workers of all engines that are bound in the router are closed.
abbrev pub Released : Option QueryRouter → List Worker → Type 0
Released none ws = Unit
Released (some r) ws =
    All (λ (b : EngineBinding). is_released ws b.engine ≡ true) (bindings r.registry)
