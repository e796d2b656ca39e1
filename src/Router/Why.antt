-- ===== src/Router/Why.antt =====
-- router/router.py: `why`, which explains how a statement would be handled and executes nothing.
use synno_db.Base.{
  String, true, false, not, ◌&&◌, Option, none, some, List, [], ◌==◌, if◌then◌else◌,
}
use synno_db.Python.{PythonOps}
use synno_db.Policy.{routing_active}
use synno_db.Registry.{EngineBinding, match, quarantined_binding, size}
use synno_db.Bind.{Args, SqlOps}
use synno_db.Statement.{is_read_only_query}
use synno_db.Router.Trace.{GuardResult}
use synno_db.Router.Guards.{Params, World, default_guards, evaluate}
use synno_db.Router.State.{QueryRouter}
use synno_db.Router.Binding.{bind_placeholders}
use synno_db.Router.Route.{inactive_reason, context, last_detail, binding_failed}

pub data Outlook : Type 0 where
  would_route would_fall_back blocked : Outlook

pub record Explanation : Type 0 where
  pub decision : Outlook
  pub reason : String
  pub template : Option String
  pub guards : List GuardResult
  pub placeholders : Option Args
  pub normalized : Option String

abbrev pub no_explanation : Explanation
no_explanation = record {
  decision = would_fall_back;
  reason = "";
  template = none;
  guards = [];
  placeholders = none;
  normalized = none;
}

abbrev pub quarantined_reason : String
quarantined_reason =
    "engine quarantined after repeated failures or a cross-check mismatch; DuckDB is serving this query until it is re-registered"

-- the end of `why`, for a matched binding
unfoldable pub why_matched :
    PythonOps
    → SqlOps
    → World
    → String
    → Option Params
    → EngineBinding
    → QueryRouter
    → Explanation
    → Explanation
why_matched py sql w query params b s out =
    let (ok, results) = evaluate (context s query params b) (default_guards py sql w) in
    let out' : Explanation = record out { template = some b.template_id; guards = results } in
    elim ok [
      | false ↦ record out' { reason = last_detail results }
      | true ↦ elim (bind_placeholders py sql b query params) [
        | none ↦ record out' { reason = binding_failed }
        | some args ↦ record out' {
          decision = would_route;
          reason = "matches template";
          placeholders = some args;
        }
      ]
    ]

unfoldable pub why_unmatched : QueryRouter → String → Explanation → Explanation
why_unmatched s key out = elim (quarantined_binding s.registry key) [
  | none ↦ record out { reason = "no template match" }
  | some b ↦ record out { template = some b.template_id; reason = quarantined_reason }
]

unfoldable pub why_normalized :
    PythonOps → SqlOps → World → String → Option Params → QueryRouter → Explanation
unfolding why_matched why_unmatched
why_normalized py sql w query params s = elim (sql.normalize query) [
  | none ↦ record no_explanation { reason = "unparseable SQL" }
  | some key ↦
      let out : Explanation = record no_explanation { normalized = some key } in
      elim (match s.registry key) [
        | none ↦ why_unmatched s key out
        | some b ↦ why_matched py sql w query params b s out
      ]
]

-- why
unfoldable pub why : PythonOps → SqlOps → World → String → Option Params → QueryRouter → Explanation
unfolding why_normalized
why py sql w query params s =
    if not (routing_active s.policy)
    then record no_explanation { reason = inactive_reason s }
    else if s.policy.block_writes && not (is_read_only_query py sql query)
    then record no_explanation { decision = blocked; reason = "writes are not supported" }
    else if size s.registry == 0
    then record no_explanation { reason = "no engines registered" }
    else why_normalized py sql w query params s
