-- ===== src/Discovery/Consul/Timed/Tests.antt =====
-- Turns with their times, in milliseconds.
use flexds.Prelude.{◌<◌, ◌≡◌, refl, true, false, List, [], ◌∷◌, map, length, arith}
use flexds.Strings.{Text, codes}
use flexds.Discovery.Consul.Watcher.{failed, answered, watch, immediate_watcher, debounce, batch}
use flexds.Discovery.Consul.Timed.{Turn, cancelled, query, timed}
use flexds.Discovery.Consul.Timed.Debounced.{timed_debounce}
use flexds.Discovery.Consul.Timed.Batched.{timed_batch}
use flexds.Discovery.Consul.Timed.Rounds.{round_of}
use flexds.Discovery.Consul.Timed.Waits.{timed_batch_hands_on}
use flexds.Discovery.Consul.Timed.Starves.{timed_debounce_starves}

abbrev web_only : List Text
web_only = codes "web" ∷ []

abbrev with_api : List Text
with_api = codes "web" ∷ codes "api" ∷ []

-- Two changes, 1.5 seconds apart.
abbrev two_changes : List Turn
two_changes = query 20 (answered 7 web_only) ∷ query 1500 (answered 9 with_api) ∷ []

abbrev no_change : List Turn
no_change = query 2000 (answered 9 with_api) ∷ []

after_change :
    (timed_debounce 500 (
      query 20 (answered 7 web_only)
      ∷ query 600 (answered 7 web_only)
      ∷ query 10 (failed false)
      ∷ [])).1
    ≡ web_only ∷ []
unfolding timed debounce
after_change = refl

batch_after_change :
    (timed_batch 5 1000 (
      query 20 (answered 7 web_only)
      ∷ query 600 (answered 8 with_api)
      ∷ query 400 (failed false)
      ∷ cancelled true
      ∷ [])).1
    ≡ with_api ∷ []
unfolding timed batch
batch_after_change = refl

timed_debounce_starves_example :
    ((timed_debounce 500 two_changes).1 ≡ [])
    × (length (watch immediate_watcher (map round_of two_changes)) ≡ 2)
timed_debounce_starves_example =
    timed_debounce_starves 500 two_changes (omega arith) (refl, (refl, tt))

one_waits : 0 < (timed_batch 5 1000 (query 20 (answered 7 web_only) ∷ [])).0.batch_count
unfolding timed batch
one_waits = omega arith

timed_batch_hands_on_example :
    length (timed_batch 5 1000 (query 20 (answered 7 web_only) ∷ [])).1
    < length
        (timed_batch 5 1000 (
          query 20 (answered 7 web_only)
          ∷ query 600 (answered 8 with_api)
          ∷ query 900 (answered 9 web_only)
          ∷ query 5 (failed false)
          ∷ [])).1
timed_batch_hands_on_example =
    timed_batch_hands_on 5 1000 (query 20 (answered 7 web_only) ∷ [])
      (query 600 (answered 8 with_api) ∷ query 900 (answered 9 web_only) ∷ []) 5 (failed false)
      (tt, tt) (tt, (tt, tt)) refl one_waits (omega arith)
