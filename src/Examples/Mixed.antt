-- ===== src/Examples/Mixed.antt =====
-- A mixed supervisor with one child, which is started.
use mm.Shared.{ℕ, ◌≡◌, refl, [], ◌∷◌, true, false, ℕ_discrete}
use mm.Shared.Map.{get, insert}
use mm.Sup.Intensity.{RestartIntensity, new_stats}
use mm.Sup.Child.{permanent, ok}
use mm.Sup.OneForOne.{
  Status, Target, SupStatus, Decider, decider, add, find, holds, child_address, next_action, prune,
  is_gone, consider, scan, verdict, effective, started, modify,
}
use mm.Sup.Uniform.{no_ack}
use mm.Sup.Mixed.{
  ChildSpec, run_child, link, goes_on, panicked, child_started, peer_exited, add_all, collect, act,
  perform, performed, receive,
}
use mm.Sup.Mixed.Loop.{Reach, here, turn, Reach-carries_on}

abbrev intensity : RestartIntensity
intensity = record { max_restarts = 1; within = 10 }

abbrev spec : ChildSpec
spec = record {
  child_type = permanent;
  init_type = no_ack;
  stop_timeout = 5;
  announce_parent = false;
}

abbrev at_status : Status → Decider ℕ
at_status s = record {
  restart_intensity = intensity;
  restart_stats = [];
  states = (1, record { child_type = permanent; status = s; target = Target.running }) ∷ [];
  orphans = [];
  status = SupStatus.starting;
}

adds : add_all ℕ_discrete (decider intensity) ((1, spec) ∷ []) ≡ ok (at_status Status.stopped)
unfolding add_all add decider find new_stats ℕ_discrete
adds = refl

collects : collect ℕ_discrete [] ((1, spec) ∷ []) ≡ (1, spec) ∷ []
unfolding collect insert
collects = refl

acts :
    act {H = ℕ} ℕ_discrete
      (collect ℕ_discrete [] ((1, spec) ∷ []))
      true
      0
      (at_status Status.stopped)
    ≡ goes_on (at_status Status.starting, run_child 1 spec ∷ [])
unfolding act next_action prune is_gone consider scan verdict effective perform performed get
    collect insert ℕ_discrete
acts = refl

receives :
    receive {H = ℕ} ℕ_discrete (at_status Status.starting) (child_started 1 100) 3
    ≡ goes_on (at_status (Status.running 100), link 100 ∷ [])
unfolding receive started holds child_address find modify ℕ_discrete
receives = refl

reach :
    Reach ℕ ℕ_discrete
      (collect ℕ_discrete [] ((1, spec) ∷ []))
      (at_status Status.stopped)
      (at_status (Status.running 100))
unfolding holds child_address
reach =
    turn true 0 3 (child_started 1 100) (run_child 1 spec ∷ []) (link 100 ∷ []) here acts refl
      receives

Reach-carries_on_example :
    ¬ (
      act {H = ℕ} ℕ_discrete
        (collect ℕ_discrete [] ((1, spec) ∷ []))
        true
        9
        (at_status (Status.running 100))
      ≡ panicked)
    × ¬ (
        receive {H = ℕ} ℕ_discrete (at_status (Status.running 100)) (peer_exited 100 false) 9
        ≡ panicked)
Reach-carries_on_example =
    Reach-carries_on ℕ ℕ_discrete intensity ((1, spec) ∷ []) (at_status Status.stopped)
      (at_status (Status.running 100)) true 9 (peer_exited 100 false) adds reach tt
