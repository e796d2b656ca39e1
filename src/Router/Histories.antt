-- ===== src/Router/Histories.antt =====
-- router/router.py: what holds of a router from its construction on, whatever statements it gets.
use synno_db.Base.{refl, List, arith}
use synno_db.Base.Dict.{get}
use synno_db.Python.{PythonOps}
use synno_db.Policy.{RouterPolicy}
use synno_db.Registry.{TemplateRegistry}
use synno_db.Bind.{SqlOps}
use synno_db.Router.State.{new_router}
use synno_db.Router.Counting.{Balanced, Balanced-Stable, total}
use synno_db.Router.Breaker.{Tripped, Tripped-Stable}
use synno_db.Router.Sessions.{Call, session, session-Stable}

new_router-Balanced :
    (policy : RouterPolicy) (registry : TemplateRegistry) → Balanced (new_router policy registry)
unfolding total
new_router-Balanced policy registry = record { mismatches = omega arith; reasons = refl }

new_router-Tripped :
    (policy : RouterPolicy) (registry : TemplateRegistry) → Tripped (new_router policy registry)
unfolding get
new_router-Tripped policy registry = record {
  trips = λ id n counted high. absurd (ground (arith, counted));
}

-- In every router that was built and then got any statements, no more mismatches than cross-checks
-- are counted, and the counts of the fallback reasons add up to the fallbacks.
pub session-Balanced :
    (py : PythonOps) (sql : SqlOps) (policy : RouterPolicy) (registry : TemplateRegistry)
    (cs : List Call)
    → Balanced (session py sql cs (new_router policy registry))
session-Balanced py sql policy registry cs =
    session-Stable py sql Balanced (Balanced-Stable py) cs (new_router policy registry)
      (new_router-Balanced policy registry)

-- In every router that was built and then got any statements, a template whose failures in a row
-- reach the threshold is quarantined.
pub session-Tripped :
    (py : PythonOps) (sql : SqlOps) (policy : RouterPolicy) (registry : TemplateRegistry)
    (cs : List Call)
    → Tripped (session py sql cs (new_router policy registry))
session-Tripped py sql policy registry cs =
    session-Stable py sql Tripped (Tripped-Stable py) cs (new_router policy registry)
      (new_router-Tripped policy registry)
