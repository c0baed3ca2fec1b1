-- ===== src/System/Interleaved/Picks.antt =====
-- What holds of all callbacks holds of the one that is picked and of the others.
use flexds.Prelude.{ℕ, zero, suc, none, some, [], ◌∷◌, All}
use flexds.Strings.{Text}
use flexds.Xds.Resources.{Snapshot}
use flexds.System.Interleaved.{Callbacks, Picked, behind, pick}

module _ (P : Text × Snapshot → Type 0) where
  abbrev pub AllPicked : Picked → Type 0
  AllPicked none = Unit
  AllPicked (some (c, rest)) = P c × All P rest

  behind-AllPicked : (c : Text × Snapshot) (p : Picked) → P c → AllPicked p → AllPicked (behind c p)
  behind-AllPicked c none w h = tt
  behind-AllPicked c (some (d, rest)) w (v, h) = (v, (w, h))

  pub pick-AllPicked : (n : ℕ) (cs : Callbacks) → All P cs → AllPicked (pick n cs)
  pick-AllPicked n [] h = tt
  pick-AllPicked zero (c ∷ cs) h = h
  pick-AllPicked (suc n) (c ∷ cs) (w, h) = behind-AllPicked c (pick n cs) w (pick-AllPicked n cs h)
