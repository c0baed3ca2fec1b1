-- ===== src/System/Interleaved/OneLoader.antt =====
-- With one loader, requests of nodes do not disturb the reference snapshot.
use mathlib.Core.List.{Perm}
use mathlib.Core.Path.{subst}
use flexds.Prelude.{
  ℕ, suc, ◌+◌, ◌-◌, ◌≤◌, ◌≡◌, ◌≢◌, inl, inr, refl, sym, ◌∙◌, ap, Bool, true, none, some, List, [],
  ◌∷◌, map, length, All, arith,
}
use flexds.Results.{Result, ok, err}
use flexds.Strings.{Text}
use flexds.Xds.Resources.{Message, Snapshot}
use flexds.Xds.Clusters.Served.{served, cluster_of}
use flexds.Xds.Cache.{Error, SnapshotCache, CacheLaws, IsReliable}
use flexds.Xds.SnapshotManager.{reference_key}
use flexds.Discovery.Aggregator.{ServiceMap, Aggregator, aggregate}
use flexds.Discovery.Aggregator.Pushed.{IsPublished}
use flexds.Discovery.Aggregator.Interleaved.{Call, Pc, Thread, resume, advance}
use flexds.Discovery.Aggregator.Interleaved.Alone.{next_calls}
use flexds.System.Interleaved.{
  State, Turn, first_moves, second_moves, gets, sets, Picked, pick, get_reference, set_own,
  take_turn, take_turns,
}
use flexds.System.Interleaved.Phases.{
  Phase, Phase-same, IsAt, advance_comes, cost, pc_cost, stored_all,
}
use flexds.System.Interleaved.Picks.{AllPicked, pick-AllPicked}

-- A request comes from a node, and not under the reference key.
abbrev pub IsNamed : Turn → Type 0
IsNamed (gets node) = node ≢ reference_key
IsNamed t = Unit

-- How often the loader moves.
abbrev pub firsts : List Turn → ℕ
firsts [] = 0
firsts (first_moves ∷ turns) = suc (firsts turns)
firsts (t ∷ turns) = firsts turns

abbrev OfNode : Text × Snapshot → Type 0
OfNode c = c.0 ≢ reference_key

-- The loader alone, with its calls to make and any callbacks to come.
abbrev pub one_loader : {S : Type 0} → Aggregator S → List Call → State S
one_loader a calls = record {
  aggregator = a;
  first = next_calls calls;
  second = next_calls [];
  callbacks = [];
}

module _ {S : Type 0} (cache : SnapshotCache S) (k : ℕ) (goal : ServiceMap) where
  record Inv (left : ℕ) (s : State S) : Type 0 where
    loader : IsAt cache k goal left s.aggregator s.first
    idle : s.second.pc ≡ Pc.idle
    no_calls : s.second.calls ≡ []
    named : All OfNode s.callbacks

module _ {S : Type 0} (cache : SnapshotCache S) (laws : CacheLaws cache)
    (reliable : IsReliable cache) (marshals : Message → Bool)
    (all_marshal : (m : Message) → marshals m ≡ true) (listener_ports : List ℕ)
    (range : ServiceMap → ServiceMap) (any_order : (m : ServiceMap) → Perm (range m) m) where
  module _ (k : ℕ) (goal : ServiceMap) where
    get_reference-Inv :
        (left : ℕ) (node : Text) (r : Result Error Snapshot) (s : State S)
        → node ≢ reference_key
        → Inv cache k goal left s
        → Inv cache k goal left (get_reference cache marshals listener_ports range node r s)
    unfolding get_reference
    get_reference-Inv left node (err e) s ne h = h
    get_reference-Inv left node (ok snap) s ne h = record {
      loader = h.loader;
      idle = h.idle;
      no_calls = h.no_calls;
      named = (ne, h.named);
    }

    set_own-Inv :
        (left : ℕ) (p : Picked) (s : State S)
        → AllPicked OfNode p
        → Inv cache k goal left s
        → Inv cache k goal left (set_own cache marshals listener_ports range p s)
    unfolding set_own
    set_own-Inv left none s c h = h
    set_own-Inv left (some ((node, snap), rest)) s (ne, named) h = record {
      loader = record {
        phase =
            Phase-same cache s.first.pc s.first.calls s.aggregator _ refl
              (laws.get-set_other node reference_key snap _ ne) h.loader.phase;
        leads = h.loader.leads;
        steps = h.loader.steps;
        known = ap length (laws.keys-set node snap _) ∙ h.loader.known;
      };
      idle = h.idle;
      no_calls = h.no_calls;
      named = named;
    }

    -- The second goroutine has nothing to do.
    stays :
        (a : Aggregator S) (t : Thread)
        → t.pc ≡ Pc.idle
        → t.calls ≡ []
        → advance cache marshals listener_ports range (a, t) ≡ (a, next_calls [])
    unfolding advance resume
    stays a t e f = rw (e, f) refl

    take_turns-Inv :
        (turns : List Turn) (left : ℕ) (s : State S)
        → All IsNamed turns
        → Inv cache k goal left s
        → Inv cache k goal
            (left - firsts turns)
            (take_turns cache marshals listener_ports range s turns)
    unfolding take_turns take_turn
    take_turns-Inv [] left s n h = rw (sub_zero left) h
      where
        sub_zero : (m : ℕ) → m - 0 ≡ m
        sub_zero m = omega arith
    take_turns-Inv (first_moves ∷ turns) left s (n, ns) h = rw (sub_suc left (firsts turns)) (
        take_turns-Inv turns (left - 1) _ ns (record {
          loader =
              advance_comes cache laws reliable marshals all_marshal listener_ports range any_order
                k goal s.aggregator s.first left h.loader;
          idle = h.idle;
          no_calls = h.no_calls;
          named = h.named;
        }))
      where
        sub_suc : (m n : ℕ) → m - suc n ≡ m - 1 - n
        sub_suc m n = omega arith
    take_turns-Inv (second_moves ∷ turns) left s (n, ns) h =
        let e = stays s.aggregator s.second h.idle h.no_calls in
        take_turns-Inv turns left _ ns (record {
          loader = rw e h.loader;
          idle = rw e refl;
          no_calls = rw e refl;
          named = h.named;
        })
    take_turns-Inv (gets node ∷ turns) left s (n, ns) h =
        take_turns-Inv turns left _ ns (get_reference-Inv left node _ s n h)
    take_turns-Inv (sets i ∷ turns) left s (n, ns) h =
        take_turns-Inv turns left _ ns
          (set_own-Inv left (pick i s.callbacks) s (pick-AllPicked OfNode i s.callbacks h.named) h)

  at_end :
      (k : ℕ) (pc : Pc) (calls : List Call) (a : Aggregator S)
      → pc_cost k pc + cost k calls ≡ 0
      → Phase cache pc calls a
      → (pc ≡ Pc.idle) × (calls ≡ []) × IsPublished cache a
  at_end k Pc.idle [] a e (inl h) = absurd (h refl)
  at_end k Pc.idle [] a e (inr p) = (refl, refl, p)
  at_end k Pc.idle (c ∷ calls) a e h = absurd (omega arith)
  at_end k Pc.stored calls a e h = absurd (omega arith)
  at_end k (Pc.collected all) calls a e h = absurd (omega arith)
  at_end k (Pc.created snap counts) calls a e h = absurd (omega arith)
  at_end k (Pc.set_reference snap counts) calls a e h = absurd (omega arith)
  at_end k (Pc.setting snap counts nodes) calls a e h = absurd (omega arith)
  at_end k Pc.panicked calls a e h = absurd h

  -- Where messages can be marshalled and the cache takes snapshots, and only one goroutine reports:
  -- after 6 of its steps for each of its calls of UpdateServices, and as many more for each as the
  -- cache knows nodes, it has made all its calls and is idle, whatever requests of nodes come
  -- between, unless one comes under the reference key. The map then has its reports, and the
  -- reference snapshot has, in some order, the clusters of exactly the services in the map that
  -- have an instance and a route.
  pub one_loader_converges :
      (c : Call) (calls : List Call) (turns : List Turn) (a : Aggregator S)
      → All IsNamed turns
      → cost (length (cache.get_status_keys a.world.cache_state)) (c ∷ calls) ≤ firsts turns
      → let m = stored_all (c ∷ calls) a.discovered_service_map in
        let s = take_turns cache marshals listener_ports range (one_loader a (c ∷ calls)) turns in
        (s.first.pc ≡ Pc.idle)
        × (s.first.calls ≡ [])
        × (s.aggregator.discovered_service_map ≡ m)
        × (snap : Snapshot) × (cache.get_snapshot reference_key s.aggregator.world.cache_state
            ≡ ok snap)
        × Perm snap.resources.clusters (map cluster_of (served (aggregate m)))
  one_loader_converges c calls turns a named enough =
      let k = length (cache.get_status_keys a.world.cache_state) in
      let m = stored_all (c ∷ calls) a.discovered_service_map in
      let s = take_turns cache marshals listener_ports range (one_loader a (c ∷ calls)) turns in
      let inv =
        take_turns-Inv k m turns (cost k (c ∷ calls)) (one_loader a (c ∷ calls)) named (record {
          loader = record {
            phase = inl (λ e. cc);
            leads = refl;
            steps = omega arith;
            known = refl;
          };
          idle = refl;
          no_calls = refl;
          named = tt;
        }) in
      let steps = inv.loader.steps in
      let (idle, none_left, (snap, found, fits)) =
        at_end k s.first.pc s.first.calls s.aggregator (omega arith) inv.loader.phase in
      let written : s.aggregator.discovered_service_map ≡ m =
        ap (λ l. stored_all l s.aggregator.discovered_service_map) (sym none_left)
        ∙ inv.loader.leads in
      (
        idle,
        none_left,
        written,
        snap,
        found,
        subst (λ n. Perm snap.resources.clusters (map cluster_of (served (aggregate n)))) written
            fits,
      )
