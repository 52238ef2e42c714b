-- ===== src/Repo/Reach.antt =====
-- Sequences of operations of core/dorothy.go on the manifest that the program holds.
use dorothy.Base.{String, refl, Bool, List, [], ◌∷◌}
use dorothy.Version.{Version}
use dorothy.Sorter.{Sorter, IsSorter}
use dorothy.Manifest.{Manifest, Slot}
use dorothy.Host.{Host, HostLaws}
use dorothy.Sdk.{Http}
use dorothy.Repo.{Repo, commit, checkout, recieve}
use dorothy.Repo.Exchange.{fetch, push}
use dorothy.Repo.History.{
  Holds, Holds-same, commit_paths-Monotone, fetch-Monotone, push-Monotone, checkout-Monotone,
  recieve-Monotone,
}

module _ (h : Host) where
  open h use {World}

  module _ (laws : HostLaws h) (sort : Sorter Slot) (order : IsSorter sort)
      (http : Http World) where
    -- One operation of the program, however it ends, or anything that others do to the world.
    pub data Step : Repo World → Repo World → Type 0 where
      commits :
          (paths : List String) (message : String) (nopin : Bool) (parents : List String)
          (r : Repo World)
          → Step r (commit h sort paths message nopin parents r).1
      fetches : (r : Repo World) → Step r (fetch h sort http r).1
      pushes : (r : Repo World) → Step r (push h sort http r).1
      checks_out : (hash dest : String) (r : Repo World) → Step r (checkout h hash dest r).1
      receives :
          (old : Manifest) (hash : String) (r : Repo World) → Step r (recieve h sort old hash r).1
      outside : (w : World) (r : Repo World) → Step r (record r { world = w })

    pub data Reach : Repo World → Repo World → Type 0 where
      here : (r : Repo World) → Reach r r
      after : {r s t : Repo World} → Reach r s → Step s t → Reach r t

    Step-Holds : (v : Version) {r s : Repo World} → Step r s → Holds h v r → Holds h v s
    unfolding commit
    Step-Holds v (commits [] message nopin parents r) hv = hv
    Step-Holds v (commits (p ∷ ps) message nopin parents r) hv =
        commit_paths-Monotone h laws sort order http (p ∷ ps) message nopin parents v r hv
    Step-Holds v (fetches r) hv = fetch-Monotone h laws sort order http v r hv
    Step-Holds v (pushes r) hv = push-Monotone h laws sort order http v r hv
    Step-Holds v (checks_out hash dest r) hv =
        checkout-Monotone h laws sort order http hash dest v r hv
    Step-Holds v (receives old hash r) hv = recieve-Monotone h laws sort order http old hash v r hv
    Step-Holds v (outside w r) hv = Holds-same h v r _ refl hv

    -- No version of the manifest that the program holds is ever lost: along any sequence of commits,
    -- fetches, pushes, checkouts and receipts, each of which may succeed, conflict or fail at any
    -- point, with anything that others do to the world in between, a version that was held is held.
    pub Reach-Holds : (v : Version) {r s : Repo World} → Reach r s → Holds h v r → Holds h v s
    Reach-Holds v (here r) hv = hv
    Reach-Holds v (after run step) hv = Step-Holds v step (Reach-Holds v run hv)
