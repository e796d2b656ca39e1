-- ===== src/Tests/Registering.antt =====
-- The theorems on the registry and on the policy, applied.
use synno_db.Base.{◌≡◌, refl, ◌↔◌, false, none, some, List, [], ◌∷◌, str_eq, if◌then◌else◌}
use synno_db.Base.Dict.{contains}
use synno_db.Python.Samples.{sample_ops}
use synno_db.Policy.{
  RouterPolicy, Override, RouterMode, Env, from_env, with_overrides, override, env_policy,
  routing_active, default_policy,
}
use synno_db.Policy.Switch.{from_env-routing_active, from_env-kill_switch, SaysOff}
use synno_db.Registry.{
  TemplateRegistry, empty_registry, register, match, mark_tables_dirty, is_quarantined,
}
use synno_db.Registry.Matching.{
  Changes, none_yet, then_one, registers, marks, match-register, quarantine_lasts,
}
use synno_db.Tests.Samples.{orders}
use synno_db.Base.Dict.{get, put}

match-register_example : match (register orders empty_registry) orders.normalized_sql ≡ (
    if str_eq orders.normalized_sql orders.normalized_sql
    then (if is_quarantined empty_registry "t1" then none else some orders)
    else match empty_registry orders.normalized_sql)
match-register_example = match-register orders empty_registry orders.normalized_sql

-- A registry in which another template is quarantined, and its next two changes.
abbrev other_quarantined : TemplateRegistry
other_quarantined = record empty_registry { quarantined = "t2" ∷ [] }

abbrev changed : TemplateRegistry
changed = mark_tables_dirty sample_ops ("orders" ∷ []) (register orders other_quarantined)

two-Changes : Changes sample_ops other_quarantined changed
two-Changes =
    then_one (then_one none_yet (registers orders other_quarantined))
      (marks ("orders" ∷ []) (register orders other_quarantined))

matches_orders : match changed orders.normalized_sql ≡ some orders
unfolding match get mark_tables_dirty register put contains
matches_orders = refl

quarantine_lasts_example : is_quarantined other_quarantined "t1" ≡ false
quarantine_lasts_example = quarantine_lasts orders.normalized_sql two-Changes matches_orders

-- SYNNODB_ROUTER=off, and nothing else is set.
abbrev switched_off : Env
switched_off name = if str_eq name "SYNNODB_ROUTER" then some "off" else none

abbrev off_policy : RouterPolicy
off_policy = record default_policy { enabled = false; mode = RouterMode.off }

off_from_env : from_env sample_ops switched_off [] ≡ some off_policy
unfolding from_env with_overrides env_policy
off_from_env = refl

from_env-routing_active_example :
    (routing_active off_policy ≡ false) ↔ SaysOff sample_ops (switched_off "SYNNODB_ROUTER")
from_env-routing_active_example = from_env-routing_active sample_ops switched_off off_from_env

abbrev back_on : List Override
back_on = Override.mode RouterMode.sampled ∷ []

overridden :
    from_env sample_ops switched_off back_on
    ≡ some (record off_policy { mode = RouterMode.sampled })
unfolding from_env with_overrides override env_policy
overridden = refl

says_off : SaysOff sample_ops (switched_off "SYNNODB_ROUTER")
unfolding contains
says_off = refl

from_env-kill_switch_example :
    routing_active (record off_policy { mode = RouterMode.sampled }) ≡ false
from_env-kill_switch_example =
    from_env-kill_switch sample_ops switched_off back_on says_off refl overridden
