-- ===== src/Discovery/Marathon/Routes.antt =====
-- Health, addresses and routes of Marathon's tasks.
use flexds.Prelude.{
  ℕ, suc, ◌≡◌, ◌≢◌, refl, Bool, true, not, ◌&&◌, List, [], ◌∷◌, arith, any, All, All-append, ◌↔◌,
  ◌⊎◌, Bool-cases, inl, inr,
}
use mathlib.Core.List.{Memᴰ}
use flexds.Strings.{Text, codes, ◌==◌, is_empty}
use flexds.Strings.Equality.{==_iff}
use flexds.Results.Panics.{returns}
use flexds.Common.ServiceModel.{DiscoveredService}
use flexds.Discovery.Marathon.{
  PortDefinition, IpAddress, Task, App, is_nil, is_healthy, address_from, get_task_address,
  build_routes, healthy_tasks, convert,
}
use flexds.Discovery.Marathon.Conversion.{
  services_of, converted, all_sound, all_converted, convert_lem,
}

any_alive_lem :
    (results : List Bool)
    → any (λ alive. alive) results ≡ not (is_nil results) && any (λ alive. alive) results
any_alive_lem [] = refl
any_alive_lem (r ∷ rs) = refl

-- A task is healthy exactly if it is running and some health check result is alive; without
-- results it is not.
is_healthy_iff :
    (t : Task)
    → (is_healthy t ≡ true)
      ↔ ((t.state ≡ codes "TASK_RUNNING") × (any (λ alive. alive) t.health_check_results ≡ true))
unfolding is_healthy
is_healthy_iff t =
    ground (arith, ==_iff t.state (codes "TASK_RUNNING"), any_alive_lem t.health_check_results)

abbrev pub IsUsable : IpAddress → Type 0
IsUsable ip = (ip.protocol ≡ codes "IPv4") × (ip.ip_address ≢ [])

not-empty_iff : (s : Text) → (not (is_empty s) ≡ true) ↔ (s ≢ [])
not-empty_iff [] = (λ e. cc, λ h. absurd (h refl))
not-empty_iff (c ∷ s) = (λ _ e. cc, λ _. refl)

-- Where the address of a task comes from.
abbrev pub IsAddress : List IpAddress → Text → Text → Type 0
IsAddress ips host address =
    (All (λ ip. ¬ IsUsable ip) ips × (address ≡ host))
    ⊎ ((ip : IpAddress) × Memᴰ ip ips × IsUsable ip × (address ≡ ip.ip_address))

IsAddress-tail :
    (ip : IpAddress) (ips : List IpAddress) (host address : Text)
    → ¬ IsUsable ip
    → IsAddress ips host address
    → IsAddress (ip ∷ ips) host address
IsAddress-tail ip ips host address h (inl (none_usable, e)) = inl ((h, none_usable), e)
IsAddress-tail ip ips host address h (inr (found, m, usable, e)) =
    inr (found, Memᴰ.tail m, usable, e)

address_from-IsAddress :
    (ips : List IpAddress) (host : Text) → IsAddress ips host (address_from ips host)
unfolding address_from
address_from-IsAddress [] host = inl (tt, refl)
address_from-IsAddress (ip ∷ ips) host =
    elim (Bool-cases (ip.protocol == codes "IPv4" && not (is_empty ip.ip_address))) [
      | inl e ↦ rw e (
          inr (
            ip,
            Memᴰ.head refl,
            (
              (==_iff ip.protocol (codes "IPv4")).0 (ground arith),
              (not-empty_iff ip.ip_address).0 (ground arith),
            ),
            refl,
          ))
      | inr e ↦ rw e (
          IsAddress-tail ip ips host _
            (λ u. ground (arith, ==_iff ip.protocol (codes "IPv4"), not-empty_iff ip.ip_address, u))
            (address_from-IsAddress ips host))
    ]

-- The address of a task is that of an IPv4 entry with an address, or, if no entry is one, the host.
get_task_address-IsAddress : (t : Task) → IsAddress t.ip_addresses t.host (get_task_address t)
unfolding get_task_address
get_task_address-IsAddress t = address_from-IsAddress t.ip_addresses t.host

-- A service that the snapshot manager does not pass over.
abbrev pub IsServed : DiscoveredService → Type 0
IsServed s = (s.instances ≢ []) × (s.routes ≢ [])

services_of-IsServed :
    (bare : Text) (t : Task) (ts : List Task) (index : ℕ) (defs : List PortDefinition)
    → All IsServed (services_of bare (t ∷ ts) index defs)
services_of-IsServed bare t ts index [] = tt
services_of-IsServed bare t ts index (d ∷ defs) =
    ((λ e. cc, unfold build_routes in λ e. cc), services_of-IsServed bare t ts (suc index) defs)

converted-IsServed : (app : App) (healthy : List Task) → All IsServed (converted app healthy)
converted-IsServed app [] = tt
converted-IsServed app (t ∷ ts) = services_of-IsServed _ t ts 0 app.port_definitions

all_converted-IsServed : (apps : List App) → All IsServed (all_converted apps)
all_converted-IsServed [] = tt
all_converted-IsServed (app ∷ apps) =
    All-append IsServed (converted app (healthy_tasks app.tasks)) (all_converted apps)
      (converted-IsServed app (healthy_tasks app.tasks)) (all_converted-IsServed apps)

-- Every service that the conversion returns has an instance and a route.
convert-IsServed :
    (apps : List App) (services : List DiscoveredService)
    → convert apps ≡ returns services
    → All IsServed services
convert-IsServed apps services h = elim (Bool-cases (all_sound apps)) [
  | inl e ↦ rw (← returned e) (all_converted-IsServed apps)
  | inr e ↦ absurd (cc (convert_lem apps, e, h))
]
  where
    returned : all_sound apps ≡ true → all_converted apps ≡ services
    returned e = ground (arith, convert_lem apps)
