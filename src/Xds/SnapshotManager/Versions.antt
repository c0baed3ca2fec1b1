-- ===== src/Xds/SnapshotManager/Versions.antt =====
-- The versions of the snapshots that follow one another.
use flexds.Prelude.{
  ℕ, suc, ◌+◌, ◌%◌, ◌^◌, ◌<◌, ◌≡◌, ◌≢◌, ◌∙◌, refl, Bool, true, List, [], ◌∷◌, length, arith,
}
use flexds.Results.Panics.{Run, returns, ◌>>=◌}
use flexds.Strings.{itoa}
use flexds.Strings.Decimal.{itoa_injective}
use flexds.Common.ServiceModel.{DiscoveredService}
use flexds.Xds.Resources.{Message}
use flexds.Xds.Cache.{SnapshotCache, CacheLaws, IsReliable}
use flexds.Xds.SnapshotManager.{World, next_version, build_and_push}
use flexds.Xds.SnapshotManager.Push.{pushed, build_and_push_lem}

-- Pushes one after the other.
unfoldable pub push_all :
    {S : Type 0}
    → SnapshotCache S
    → (Message → Bool)
    → List ℕ
    → List (List DiscoveredService)
    → World S
    → Run (World S)
push_all cache marshals ports [] w = returns w
push_all cache marshals ports (services ∷ rest) w =
    build_and_push cache marshals ports services w >>= λ w'. push_all cache marshals ports rest w'

advance : (v n : ℕ) → (next_version v + n) % 2 ^ 64 ≡ (v + suc n) % 2 ^ 64
advance v n = omega arith

module _ {S : Type 0} (cache : SnapshotCache S) (laws : CacheLaws cache)
    (reliable : IsReliable cache) (marshals : Message → Bool)
    (all_marshal : (m : Message) → marshals m ≡ true) where
  push_all_version :
      (ports : List ℕ) (batches : List (List DiscoveredService)) (w : World S)
      → w.version < 2 ^ 64
      → (w' : World S) × (push_all cache marshals ports batches w ≡ returns w')
        × (w'.version ≡ (w.version + length batches) % 2 ^ 64)
  unfolding push_all
  push_all_version ports [] w h = (w, refl, omega arith)
  push_all_version ports (services ∷ rest) w h =
      let next = pushed cache laws reliable marshals all_marshal ports services w in
      let (w', run, version) = push_all_version ports rest next (omega arith) in
      (
        w',
        rw (build_and_push_lem cache laws reliable marshals all_marshal ports services w) run,
        version ∙ advance w.version (length rest),
      )

  -- Where messages can be marshalled and the cache takes snapshots: pushes one after the other, at
  -- least one and fewer than 2^64, lead to a version text other than the one before them.
  pub push_all_fresh :
      (ports : List ℕ) (services : List DiscoveredService) (batches : List (List DiscoveredService))
      (w : World S)
      → w.version < 2 ^ 64
      → suc (length batches) < 2 ^ 64
      → (w' : World S) × (push_all cache marshals ports (services ∷ batches) w ≡ returns w')
        × (itoa w'.version ≢ itoa w.version)
  push_all_fresh ports services batches w h few =
      let (w', run, version) = push_all_version ports (services ∷ batches) w h in
      (w', run, λ e. differs (itoa_injective w'.version w.version e) version)
    where
      differs : {v : ℕ} → v ≡ w.version → v ≡ (w.version + suc (length batches)) % 2 ^ 64 → ⊥
      differs p q = omega arith
