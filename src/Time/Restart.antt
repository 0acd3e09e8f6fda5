-- ===== src/Time/Restart.antt =====
-- time::TimeService: a service that is built, stopped and initialized again.
use coffee.Base.{
  ℕ, zero, suc, ◌+◌, ◌*◌, ◌<◌, ◌≤◌, ◌≡◌, refl, true, [], map, ok, arith, length, All, sym, ap, ◌∙◌,
  subst, number_key,
}
use coffee.Time.Service.{
  TimeService, tick, slot, quanta, init, calcule_max_quantum, do_stop, do_initialize,
}
use coffee.Time.Agenda.{agenda, Fits, agenda-tick, finished, wrap}
use coffee.Time.Quanta.{calcule_max_quantum_least}
use coffee.Time.Invariant.{IsValid, Fits-same}

restarted :
    (s t : TimeService)
    → do_initialize (do_stop s) ≡ ok t
    → ((k : ℕ) → agenda t k ≡ agenda s k) × (t.events ≡ [])
unfolding do_initialize do_stop agenda
restarted s t h = (λ k. ground arith, ground arith)

restarted-IsValid : (s t : TimeService) → IsValid s → do_initialize (do_stop s) ≡ ok t → IsValid t
unfolding do_initialize do_stop
restarted-IsValid s t v h =
    let kept = (restarted s t h).0 in
    let n : t.max_quantum ≡ s.max_quantum = ground arith in
    let r : t.resolution ≡ s.resolution = ground arith in
    let m : t.max_time ≡ s.max_time = ground arith in
    record {
      wheel = record {
        inside = ground (arith, v.wheel.inside);
        size = ground (arith, v.wheel.size);
      };
      resolves = omega (arith, r, v.resolves);
      reaches = simp (n, r, m) v.reaches;
      fits = λ k.
          Fits-same _ _ r n _
            (subst (All (Fits s.resolution s.max_quantum)) (sym (kept k)) (v.fits k));
    }

-- Stopping forgets which events are active, but leaves them all in the wheel: a service that is
-- initialized again notifies at its first tick what was due before, though no event is active.
pub stop_keeps_agenda :
    (now : ℕ) (s t : TimeService)
    → IsValid s
    → do_initialize (do_stop s) ≡ ok t
    → ((tick now t).1 ≡ map (finished now) (agenda s 0))
      × ((k : ℕ) → agenda t k ≡ agenda s k)
      × (t.events ≡ [])
stop_keeps_agenda now s t v h =
    let (same, none_left) = restarted s t h in
    let w : IsValid t = restarted-IsValid s t v h in
    ((agenda-tick now 0 t w.wheel (w.fits 0)).0 ∙ ap (map (finished now)) (same 0), same, none_left)

length-quanta : (n : ℕ) → length (quanta n) ≡ n
unfolding quanta
length-quanta zero = refl
length-quanta (suc n) = ap suc (length-quanta n)

slot-quanta : (n i : ℕ) → slot (quanta n) i ≡ []
unfolding quanta
slot-quanta zero i = refl
slot-quanta (suc n) zero = refl
slot-quanta (suc n) (suc i) = slot-quanta n i

agenda-init : (max_time resolution k : ℕ) → agenda (init max_time resolution) k ≡ []
unfolding agenda init
agenda-init max_time resolution k =
    let n = calcule_max_quantum max_time resolution in
    ground (arith, slot-quanta n (wrap n (0 + k)))

-- A service that is built with a resolution that is positive and below the longest timeout
-- initializes, and then it is valid, runs, and has nothing to notify.
pub init-IsValid :
    (max_time resolution : ℕ)
    → 0 < resolution
    → resolution < max_time
    → (s : TimeService) × (do_initialize (init max_time resolution) ≡ ok s)
      × IsValid s
      × (s.running ≡ true)
      × ((k : ℕ) → agenda s k ≡ [])
unfolding do_initialize init agenda
init-IsValid max_time resolution p h =
    let n = calcule_max_quantum max_time resolution in
    let cover = (calcule_max_quantum_least max_time resolution p (omega arith)).0 in
    let empty = agenda-init max_time resolution in
    let s : TimeService = record (init max_time resolution) { running = true } in
    (
      s,
      ground arith,
      record {
        wheel = record {
          inside = positive n resolution max_time cover (omega arith);
          size = length-quanta n;
        };
        resolves = p;
        reaches = cover;
        fits = λ k. subst (All (Fits resolution n)) (sym (empty k)) tt;
      },
      refl,
      empty,
    )
  where
    positive : (n r m : ℕ) → m ≤ n * r → 0 < m → 0 < n
    positive zero r m c q = absurd (omega arith)
    positive (suc n) r m c q = omega arith
