-- ===== src/Policy.antt =====
-- router/policy.py: the immutable settings that govern routing. Text that Python lowers and strips
-- goes through `PythonOps`; `from_env` reads the environment as a function from names to texts.
pub mod Switch
use synno_db.Base.{
  ℕ, String, Bool, true, false, not, ◌&&◌, ◌||◌, Option, none, some, List, [], ◌∷◌, str_eq,
  if◌then◌else◌,
}
use synno_db.Base.Dict.{StrSet, contains}
use synno_db.Base.Int.{ℤ, pos}
use synno_db.Python.{Float, PythonOps}

pub data RouterMode : Type 0 where
  off sampled bespoke_only : RouterMode

-- m.value, which is also str(m)
abbrev pub mode_value : RouterMode → String
mode_value off = "off"
mode_value sampled = "sampled"
mode_value bespoke_only = "bespoke_only"

-- RouterMode(text), which raises ValueError on any other text
abbrev pub parse_mode : String → Option RouterMode
parse_mode s =
    if str_eq s "off"
    then some off
    else if str_eq s "sampled"
    then some sampled
    else if str_eq s "bespoke_only"
    then some bespoke_only
    else none

abbrev pub is_off : RouterMode → Bool
is_off off = true
is_off _ = false

abbrev pub is_bespoke_only : RouterMode → Bool
is_bespoke_only bespoke_only = true
is_bespoke_only _ = false

abbrev pub true_words : StrSet
true_words = "1" ∷ "true" ∷ "yes" ∷ "on" ∷ []

abbrev pub false_words : StrSet
false_words = "0" ∷ "false" ∷ "no" ∷ "off" ∷ []

pub record RouterPolicy : Type 0 where
  pub mode : RouterMode
  pub enabled : Bool
  pub block_writes : Bool
  pub cross_check_rate : Float
  pub verify_first_n : ℤ
  pub select_only : Bool
  pub require_schema_match : Bool
  pub require_sf_match : Bool
  pub engine_timeout_ms : ℤ
  pub breaker_threshold : ℤ
  pub max_result_bytes : ℤ
  pub allow_templates : Option StrSet
  pub deny_templates : StrSet
  pub verbose : Bool

-- RouterPolicy(); the rate is the double 0.1.
abbrev pub default_policy : RouterPolicy
default_policy = record {
  mode = sampled;
  enabled = true;
  block_writes = true;
  cross_check_rate = record { bits = 0x3FB999999999999A };
  verify_first_n = pos 10;
  select_only = true;
  require_schema_match = true;
  require_sf_match = true;
  engine_timeout_ms = pos 30000;
  breaker_threshold = pos 3;
  max_result_bytes = pos 536870912;
  allow_templates = none;
  deny_templates = [];
  verbose = true;
}

unfoldable pub routing_active : RouterPolicy → Bool
routing_active p = p.enabled && not (is_off p.mode)

-- One keyword argument of `with_` or `from_env`. `mode` may be given as text.
pub data Override : Type 0 where
  mode : RouterMode → Override
  mode_text : String → Override
  enabled block_writes select_only require_schema_match require_sf_match verbose : Bool → Override
  cross_check_rate : Float → Override
  verify_first_n engine_timeout_ms breaker_threshold max_result_bytes : ℤ → Override
  allow_templates : Option StrSet → Override
  deny_templates : StrSet → Override

-- `none` is the ValueError of RouterMode(text).
unfoldable pub override : Override → RouterPolicy → Option RouterPolicy
override (Override.mode m) p = some (record p { mode = m })
override (mode_text s) p = elim (parse_mode s) [
  | none ↦ none
  | some m ↦ some (record p { mode = m })
]
override (Override.enabled b) p = some (record p { enabled = b })
override (Override.block_writes b) p = some (record p { block_writes = b })
override (Override.select_only b) p = some (record p { select_only = b })
override (Override.require_schema_match b) p = some (record p { require_schema_match = b })
override (Override.require_sf_match b) p = some (record p { require_sf_match = b })
override (Override.verbose b) p = some (record p { verbose = b })
override (Override.cross_check_rate x) p = some (record p { cross_check_rate = x })
override (Override.verify_first_n n) p = some (record p { verify_first_n = n })
override (Override.engine_timeout_ms n) p = some (record p { engine_timeout_ms = n })
override (Override.breaker_threshold n) p = some (record p { breaker_threshold = n })
override (Override.max_result_bytes n) p = some (record p { max_result_bytes = n })
override (Override.allow_templates s) p = some (record p { allow_templates = s })
override (Override.deny_templates s) p = some (record p { deny_templates = s })

-- policy.with_(**overrides)
unfoldable pub with_overrides : List Override → RouterPolicy → Option RouterPolicy
with_overrides [] p = some p
with_overrides (o ∷ os) p = elim (override o p) [ none ↦ none | some q ↦ with_overrides os q ]

abbrev pub Env : Type 0
Env = String → Option String

unfoldable pub env_bool : PythonOps → Env → String → Bool → Bool
unfolding contains
env_bool py env name default = elim (env name) [
  | none ↦ default
  | some raw ↦
      let low = py.lower (py.strip raw) in
      if contains true_words low then true else if contains false_words low then false else default
]

unfoldable pub env_float : PythonOps → Env → String → Float → Float
env_float py env name default = elim (env name) [
  | none ↦ default
  | some raw ↦ elim (py.parse_float raw) [ none ↦ default | some x ↦ x ]
]

unfoldable pub env_int : PythonOps → Env → String → ℤ → ℤ
env_int py env name default = elim (env name) [
  | none ↦ default
  | some raw ↦ elim (py.parse_int raw) [ none ↦ default | some n ↦ n ]
]

-- SYNNODB_ROUTER on (enabled, mode)
unfoldable pub router_switch : PythonOps → Option String → RouterPolicy → Bool × RouterMode
router_switch py none base = (base.enabled, base.mode)
router_switch py (some raw) base =
    let low = py.lower (py.strip raw) in
    if contains false_words low || str_eq low "off" then (false, off) else elim (parse_mode low) [
      | some m ↦ (base.enabled, m)
      | none ↦
          if contains true_words low then (base.enabled, sampled) else (base.enabled, base.mode)
    ]

-- the policy before the overrides
unfoldable pub env_policy : PythonOps → Env → RouterPolicy
unfolding router_switch env_bool env_float env_int
env_policy py env =
    let base : RouterPolicy = default_policy in
    let switch = router_switch py (env "SYNNODB_ROUTER") base in
    record base {
      mode = switch.1;
      enabled = switch.0;
      verbose = env_bool py env "SYNNODB_VERBOSE" base.verbose;
      cross_check_rate = env_float py env "SYNNODB_CROSS_CHECK" base.cross_check_rate;
      verify_first_n = env_int py env "SYNNODB_VERIFY_FIRST_N" base.verify_first_n;
      block_writes = env_bool py env "SYNNODB_BLOCK_WRITES" base.block_writes;
    }

-- RouterPolicy.from_env(**overrides)
unfoldable pub from_env : PythonOps → Env → List Override → Option RouterPolicy
from_env py env overrides = with_overrides overrides (env_policy py env)
