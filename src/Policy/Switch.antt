-- ===== src/Policy/Switch.antt =====
-- The kill switch of router/policy.py: what turns routing off, and what can turn it on again.
use synno_db.Base.{
  String, ◌≡◌, refl, Bool, true, false, ◌&&◌, ◌↔◌, Option, none, some, List, [], ◌∷◌, arith, not,
  inl, inr, Option-cases, str_eq, eq_iff, all,
}
use synno_db.Base.Dict.{contains}
use mathlib.Core.Path.{subst}
use mathlib.Core.Option.{some-injective}
use synno_db.Python.{PythonOps}
use synno_db.Policy.{
  RouterPolicy, Override, Env, default_policy, is_off, false_words, routing_active, override,
  with_overrides, router_switch, env_policy, from_env,
}

-- `SYNNODB_ROUTER` is set to one of the off words, after strip() and lower().
abbrev pub SaysOff : PythonOps → Option String → Type 0
SaysOff py none = ⊥
SaysOff py (some raw) = contains false_words (py.lower (py.strip raw)) ≡ true

off-false_words : (s : String) → str_eq s "off" ≡ true → contains false_words s ≡ true
unfolding contains
off-false_words s h = rw ((eq_iff s "off").0 h) refl

router_switch_lem :
    (py : PythonOps) (value : Option String) (base : RouterPolicy)
    → base.enabled ≡ true
    → is_off base.mode ≡ false
    → let (enabled, mode) = router_switch py value base in
      ((enabled && not (is_off mode)) ≡ false) ↔ SaysOff py value
unfolding router_switch
router_switch_lem py none base e m = ground arith
router_switch_lem py (some raw) base e m = ground (arith, off-false_words (py.lower (py.strip raw)))

-- From the environment alone, routing is inactive exactly when SYNNODB_ROUTER is set to one of
-- the off words ("0", "false", "no", "off"): any other text, and an unset variable, leave it active.
pub from_env-routing_active :
    (py : PythonOps) (env : Env) {p : RouterPolicy}
    → from_env py env [] ≡ some p
    → (routing_active p ≡ false) ↔ SaysOff py (env "SYNNODB_ROUTER")
unfolding from_env env_policy with_overrides routing_active
from_env-routing_active py env h =
    subst (λ q. (routing_active q ≡ false) ↔ SaysOff py (env "SYNNODB_ROUTER"))
      (some-injective _ _ h) (router_switch_lem py (env "SYNNODB_ROUTER") default_policy refl refl)

-- An override that does not name `enabled`.
abbrev pub keeps_enabled : Override → Bool
keeps_enabled (Override.enabled _) = false
keeps_enabled _ = true

override-enabled :
    (o : Override) (p : RouterPolicy) {q : RouterPolicy}
    → keeps_enabled o ≡ true
    → override o p ≡ some q
    → q.enabled ≡ p.enabled
unfolding override
override-enabled o p {q} k h = ground arith

with_overrides-enabled :
    (os : List Override) (p q : RouterPolicy)
    → all keeps_enabled os ≡ true
    → with_overrides os p ≡ some q
    → q.enabled ≡ p.enabled
unfolding with_overrides
with_overrides-enabled [] p q k h = ground arith
with_overrides-enabled (o ∷ os) p q k h = elim (Option-cases (override o p)) [
  | inl e ↦ ground arith
  | inr (r, e) ↦ ground (arith, override-enabled o p {q = r}, with_overrides-enabled os r q)
]

env_policy-disabled :
    (py : PythonOps) (env : Env)
    → SaysOff py (env "SYNNODB_ROUTER")
    → (env_policy py env).enabled ≡ false
unfolding env_policy
env_policy-disabled py env h = switch (env "SYNNODB_ROUTER") h
  where
    switch : (v : Option String) → SaysOff py v → (router_switch py v default_policy).0 ≡ false
    switch none h = absurd h
    switch (some raw) h = ground arith

-- With SYNNODB_ROUTER set to an off word no override but `enabled` itself brings routing back,
-- a `mode` override included.
pub from_env-kill_switch :
    (py : PythonOps) (env : Env) (os : List Override) {p : RouterPolicy}
    → SaysOff py (env "SYNNODB_ROUTER")
    → all keeps_enabled os ≡ true
    → from_env py env os ≡ some p
    → routing_active p ≡ false
unfolding from_env routing_active
from_env-kill_switch py env os {p} off k h =
    rw (with_overrides-enabled os (env_policy py env) p k h, env_policy-disabled py env off) refl
