-- ===== src/Discovery/Marathon/Conversion.antt =====
-- When convertToDiscoveredServices returns, and what.
use flexds.Prelude.{
  ℕ, suc, ℤ, pos, ◌≡◌, refl, Bool, true, not, ◌&&◌, ◌||◌, List, [], ◌∷◌, ◌++◌, map, arith, length,
  ltb, get_elem?, if◌then◌else◌,
}
use flexds.Results.Panics.{returns, panics}
use flexds.Strings.{Text, is_empty}
use flexds.Dict.{or_zero}
use flexds.Common.ServiceModel.{ServiceInstance, DiscoveredService}
use flexds.Discovery.Marathon.{
  PortDefinition, Task, App, is_nil, get_task_address, in_range, instances_at, service_name,
  to_service, services_from, healthy_tasks, app_services, convert,
}

abbrev all_tasks : (Task → Bool) → List Task → Bool
all_tasks p [] = true
all_tasks p (t ∷ ts) = p t && all_tasks p ts

-- Each healthy task has a port for each of the port definitions, which stand from `index` on.
abbrev pub covers : ℕ → List Task → List PortDefinition → Bool
covers index healthy [] = true
covers index healthy (d ∷ defs) =
    all_tasks (λ t. ltb index (length t.ports)) healthy && covers (suc index) healthy defs

abbrev pub instances_of : ℕ → List Task → List ServiceInstance
instances_of index =
    map (λ t. record {
      address = get_task_address t;
      port = or_zero (pos 0) (get_elem? t.ports index);
    })

abbrev pub services_of : Text → List Task → ℕ → List PortDefinition → List DiscoveredService
services_of bare healthy index [] = []
services_of bare healthy index (d ∷ defs) =
    to_service (service_name bare d) d (instances_of index healthy)
    ∷ services_of bare healthy (suc index) defs

-- An app whose conversion does not panic: without a healthy task or a port definition it is passed
-- over; otherwise it has an id and a port for each definition in each healthy task.
abbrev pub is_sound : App → List Task → Bool
is_sound app [] = true
is_sound app (t ∷ ts) =
    is_nil app.port_definitions || (not (is_empty app.id) && covers 0 (t ∷ ts) app.port_definitions)

abbrev tail_of : Text → Text
tail_of [] = []
tail_of (c ∷ s) = s

abbrev pub converted : App → List Task → List DiscoveredService
converted app [] = []
converted app (t ∷ ts) = services_of (tail_of app.id) (t ∷ ts) 0 app.port_definitions

get_elem?_in :
    (ports : List ℤ) (index : ℕ)
    → in_range (get_elem? ports index) ≡ (
        if ltb index (length ports)
        then returns (or_zero (pos 0) (get_elem? ports index))
        else panics)
get_elem?_in [] index = ground arith
get_elem?_in (p ∷ ports) (suc index) = ground (arith, get_elem?_in ports index)
get_elem?_in (p ∷ ports) _ = ground arith

instances_at-covered :
    (index : ℕ) (tasks : List Task)
    → instances_at index tasks ≡ (
        if all_tasks (λ t. ltb index (length t.ports)) tasks
        then returns (instances_of index tasks)
        else panics)
unfolding instances_at
instances_at-covered index [] = refl
instances_at-covered index (t ∷ tasks) =
    rw (get_elem?_in t.ports index, instances_at-covered index tasks) (ground arith)

services_from-covered :
    (c : ℕ) (bare : Text) (healthy : List Task) (index : ℕ) (defs : List PortDefinition)
    → services_from (c ∷ bare) healthy index defs ≡ (
        if covers index healthy defs then returns (services_of bare healthy index defs) else panics)
unfolding services_from
services_from-covered c bare healthy index [] = refl
services_from-covered c bare healthy index (d ∷ defs) =
    rw (instances_at-covered index healthy, services_from-covered c bare healthy (suc index) defs)
      (ground arith)

services_from_sound :
    (id : Text) (healthy : List Task) (defs : List PortDefinition)
    → services_from id healthy 0 defs ≡ (
        if is_nil defs || (not (is_empty id) && covers 0 healthy defs)
        then returns (services_of (tail_of id) healthy 0 defs)
        else panics)
services_from_sound id healthy [] = unfold services_from in refl
services_from_sound [] healthy (d ∷ defs) = unfold services_from in refl
services_from_sound (c ∷ bare) healthy (d ∷ defs) =
    services_from-covered c bare healthy 0 (d ∷ defs)

app_services_sound :
    (app : App) (healthy : List Task)
    → app_services app healthy
      ≡ (if is_sound app healthy then returns (converted app healthy) else panics)
app_services_sound app [] = refl
app_services_sound app (t ∷ ts) = services_from_sound app.id (t ∷ ts) app.port_definitions

-- Every app is sound.
abbrev pub all_sound : List App → Bool
all_sound [] = true
all_sound (app ∷ apps) = is_sound app (healthy_tasks app.tasks) && all_sound apps

abbrev pub all_converted : List App → List DiscoveredService
all_converted [] = []
all_converted (app ∷ apps) = converted app (healthy_tasks app.tasks) ++ all_converted apps

-- The conversion returns exactly if every app with a healthy task and a port definition has an id
-- and, in each healthy task, a port for each definition; otherwise it panics. What it returns is
-- one service for each port definition of such an app, in order, with one instance for each
-- healthy task: its address and its port at the definition's position.
pub convert_lem :
    (apps : List App)
    → convert apps ≡ (if all_sound apps then returns (all_converted apps) else panics)
unfolding convert
convert_lem [] = refl
convert_lem (app ∷ apps) =
    rw (app_services_sound app (healthy_tasks app.tasks), convert_lem apps) (ground arith)
