-- ===== src/Discovery/Consul/Watcher/Tests.antt =====
-- The watchers on the same rounds.
use mathlib.Core.List.{Sublistᴰ}
use flexds.Prelude.{◌≡◌, refl, false, List, [], ◌∷◌, arith}
use flexds.Strings.{Text, codes, ◌==◌}
use flexds.Discovery.Consul.Watcher.{
  failed, answered, Round, done, fired, fetched, run, immediate, debounce, batch, immediate_watcher,
  debounce_watcher, batch_watcher, new_watcher, watch,
}
use flexds.Discovery.Consul.Watcher.Debounced.{watch-debounce_thins}
use flexds.Discovery.Consul.Watcher.Batches.{Groups}
use flexds.Discovery.Consul.Watcher.Batched.{watch-batch_thins, watch-batch_merges}

abbrev web : List Text
web = codes "web" ∷ []

abbrev web_api : List Text
web_api = codes "web" ∷ codes "api" ∷ []

-- Two changes, an error, the same index again, the timer, a change, and the context's end.
abbrev two_changes : List Round
two_changes =
    fetched (answered 3 web)
    ∷ fetched (failed false)
    ∷ fetched (answered 5 web_api)
    ∷ fetched (answered 5 web_api)
    ∷ fired
    ∷ []

default_strategy : new_watcher (codes "eager") ≡ immediate_watcher
unfolding new_watcher ◌==◌
default_strategy = refl

batch_strategy : new_watcher (codes "batch") ≡ batch_watcher 5 1000
unfolding new_watcher ◌==◌
batch_strategy = refl

immediate_calls : watch immediate_watcher two_changes ≡ web ∷ web_api ∷ []
unfolding watch
immediate_calls = refl

debounce_calls : watch (debounce_watcher 500) two_changes ≡ web_api ∷ []
unfolding watch
debounce_calls = refl

-- A batch of two needs no timer.
batch_calls :
    watch
      (batch_watcher 2 1000)
      (fetched (answered 3 web) ∷ fetched (answered 5 web_api) ∷ done ∷ [])
    ≡ web_api ∷ []
unfolding watch
batch_calls = refl

watch-debounce_thins_example :
    Sublistᴰ (watch (debounce_watcher 500) two_changes) (watch immediate_watcher two_changes)
unfolding debounce
watch-debounce_thins_example = watch-debounce_thins 500 two_changes (tt, (tt, (tt, (tt, (tt, tt)))))

watch-batch_thins_example :
    Sublistᴰ (watch (batch_watcher 5 1000) two_changes) (watch immediate_watcher two_changes)
unfolding batch
watch-batch_thins_example =
    watch-batch_thins 5 1000 (omega arith) two_changes (tt, (tt, (tt, (tt, (tt, tt)))))

watch-batch_merges_example : Groups 5 (web ∷ web_api ∷ []) (web_api ∷ []) 0
unfolding batch run watch immediate
watch-batch_merges_example =
    watch-batch_merges 5 1000 (omega arith) two_changes (tt, (tt, (tt, (tt, (tt, tt)))))
