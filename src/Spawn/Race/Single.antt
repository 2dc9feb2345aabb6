-- ===== src/Spawn/Race/Single.antt =====
-- At most one launch for each daemon that is needed.
use runed.Prelude.{
  ℕ, ◌+◌, ◌≤◌, ◌≡◌, refl, ◌≢◌, ◌↔◌, ==_iff, ◌⊎◌, inl, inr, arith, true, false, Option, none, some,
  ◌==◌, Bool-cases, if◌then◌else◌,
}
use runed.Prelude.Threads.{update, Owned, Turn, same, taken, released, Turn-Owned}
use runed.Spawn.Race.{
  Pc, idle, probing, locking, rechecking, launching, waiting, leaving, World, Move, call,
  probe_reachable, probe_hostile, probe_absent, lock_failed, flock, recheck_reachable,
  recheck_hostile, recheck_absent, launch_failed, launch, wait_reachable, wait_given_up, release,
  DaemonMove, listen, start_fails, closes, exits, System, Step, client, daemon, Reach, start, later,
  holds_lock,
}

lock-Turn :
    {i : ℕ} {w w' : World} {p p' : Pc} → Move i w p w' p' → Turn holds_lock i w.lock w'.lock p p'
lock-Turn call = same refl refl
lock-Turn (probe_reachable e) = same refl refl
lock-Turn probe_hostile = same refl refl
lock-Turn (probe_absent e) = same refl refl
lock-Turn lock_failed = same refl refl
lock-Turn (flock e) = taken e refl refl
lock-Turn (recheck_reachable e) = same refl refl
lock-Turn recheck_hostile = same refl refl
lock-Turn (recheck_absent e) = same refl refl
lock-Turn launch_failed = same refl refl
lock-Turn launch = same refl refl
lock-Turn (wait_reachable e) = same refl refl
lock-Turn wait_given_up = same refl refl
lock-Turn release = released refl refl refl

-- The daemons that have closed the socket, and the launches that a client has stopped waiting for.
abbrev gone : World → ℕ
gone w = w.closed + w.given_up

-- The daemons that start or listen.
abbrev pub alive : World → ℕ
alive w = w.starting + (if w.listening then 1 else 0)

abbrev Settled : World → Type 0
Settled w = (w.launches ≤ gone w) ⊎ ((w.launches ≤ gone w + 1) × (w.listening ≡ true))

-- What is known at a place of the lock's holder: no launch is outstanding at `launching`, one may be at
-- `waiting`, and elsewhere only one whose daemon listens.
abbrev Allows : World → Pc → Type 0
Allows w launching = w.launches ≤ gone w
Allows w waiting = w.launches ≤ gone w + 1
Allows w rechecking = Settled w
Allows w leaving = Settled w
Allows w idle = Settled w
Allows w probing = Settled w
Allows w locking = Settled w

record Inv (w : World) (pc : ℕ → Pc) : Type 0 where
  pub owned : Owned holds_lock w.lock pc
  pub free : w.lock ≡ none → Settled w
  pub held : (i : ℕ) → w.lock ≡ some i → Allows w (pc i)
  pub launched : alive w + w.closed ≤ w.launches

move-Allows : {i : ℕ} {w w' : World} {p p' : Pc} → Move i w p w' p' → Allows w p → Allows w' p'
move-Allows call a = a
move-Allows (probe_reachable e) a = a
move-Allows probe_hostile a = a
move-Allows (probe_absent e) a = a
move-Allows lock_failed a = a
move-Allows (flock e) a = a
move-Allows (recheck_reachable e) a = a
move-Allows recheck_hostile a = a
move-Allows (recheck_absent e) a = ground arith
move-Allows launch_failed a = inl a
move-Allows launch a = omega arith
move-Allows (wait_reachable e) a = inr (a, e)
move-Allows wait_given_up a = inl (omega arith)
move-Allows release a = a

-- A client that does not hold the lock takes it, or changes nothing.
outside_move :
    {i : ℕ} {w w' : World} {p p' : Pc}
    → Move i w p w' p'
    → holds_lock p ≡ false
    → (w' ≡ w) ⊎ ((w.lock ≡ none) × (w'.lock ≡ some i))
outside_move call h = inl refl
outside_move (probe_reachable e) h = inl refl
outside_move probe_hostile h = inl refl
outside_move (probe_absent e) h = inl refl
outside_move lock_failed h = inl refl
outside_move (flock e) h = inr (e, refl)
outside_move (recheck_reachable e) h = inl refl
outside_move recheck_hostile h = inl refl
outside_move (recheck_absent e) h = inl refl
outside_move launch_failed h = inl refl
outside_move launch h = absurd (ground arith)
outside_move (wait_reachable e) h = inl refl
outside_move wait_given_up h = absurd (ground arith)
outside_move release h = absurd (ground arith)

Allows-outside : (w : World) (p : Pc) → holds_lock p ≡ false → Allows w p ↔ Settled w
Allows-outside w idle h = (λ a. a, λ a. a)
Allows-outside w probing h = (λ a. a, λ a. a)
Allows-outside w locking h = (λ a. a, λ a. a)
Allows-outside w rechecking h = (λ a. a, λ a. a)
Allows-outside w launching h = absurd (ground arith)
Allows-outside w waiting h = absurd (ground arith)
Allows-outside w leaving h = (λ a. a, λ a. a)

launched_move :
    {i : ℕ} {w w' : World} {p p' : Pc}
    → Move i w p w' p'
    → alive w + w.closed ≤ w.launches
    → alive w' + w'.closed ≤ w'.launches
launched_move call h = h
launched_move (probe_reachable e) h = h
launched_move probe_hostile h = h
launched_move (probe_absent e) h = h
launched_move lock_failed h = h
launched_move (flock e) h = h
launched_move (recheck_reachable e) h = h
launched_move recheck_hostile h = h
launched_move (recheck_absent e) h = h
launched_move launch_failed h = h
launched_move launch h = omega arith
launched_move (wait_reachable e) h = h
launched_move wait_given_up h = h
launched_move release h = h

module _ (i : ℕ) (w : World) (pc : ℕ → Pc) (inv : Inv w pc) {w' : World} {p' : Pc}
    (mv : Move i w (pc i) w' p') where
  allows : (w.lock ≡ none) ⊎ (w.lock ≡ some i) → Allows w (pc i)
  allows (inl e) = (Allows-outside w (pc i) (ground (arith, inv.owned i))).1 (inv.free e)
  allows (inr e) = inv.held i e

  free_moved : Turn holds_lock i w.lock w'.lock (pc i) p' → w'.lock ≡ none → Settled w'
  free_moved (taken e g h) f = absurd (ground arith)
  free_moved (released g e h) f =
      (Allows-outside w' p' h).0 (move-Allows mv (allows (inr ((inv.owned i).0 g))))
  free_moved (same e h) f = elim (outside_move mv (ground (arith, inv.owned i))) [
    | inl q ↦ rw q (inv.free (ground arith))
    | inr q ↦ absurd (ground arith)
  ]

  held_moved :
      Turn holds_lock i w.lock w'.lock (pc i) p'
      → (j : ℕ) → w'.lock ≡ some j
      → Allows w' (update pc i p' j)
  held_moved t j e = elim (Bool-cases (j == i)) [
    | inl q ↦ rw q (move-Allows mv (allows (before t (ground (arith, ==_iff j i)))))
    | inr q ↦ rw q (elim (outside_move mv (elsewhere t (ground (arith, ==_iff j i)))) [
      | inl r ↦ rw r (inv.held j (ground arith))
      | inr r ↦ absurd (ground (arith, ==_iff j i))
    ])
  ]
    where
      before :
          Turn holds_lock i w.lock w'.lock (pc i) p' → j ≡ i → (w.lock ≡ none) ⊎ (w.lock ≡ some i)
      before (same f h) q = inr (ground arith)
      before (taken f g h) q = inl f
      before (released g f h) q = absurd (ground arith)

      elsewhere : Turn holds_lock i w.lock w'.lock (pc i) p' → j ≢ i → holds_lock (pc i) ≡ false
      elsewhere (same f h) q = ground (arith, inv.owned i)
      elsewhere (taken f g h) q = ground (arith, inv.owned i)
      elsewhere (released g f h) q = absurd (ground arith)

  move-Inv : Inv w' (update pc i p')
  move-Inv = record {
    owned = Turn-Owned holds_lock i _ _ pc p' (lock-Turn mv) inv.owned;
    free = free_moved (lock-Turn mv);
    held = held_moved (lock-Turn mv);
    launched = launched_move mv inv.launched;
  }

module _ (w : World) (pc : ℕ → Pc) (inv : Inv w pc) where
  daemon_same : {w' : World} → DaemonMove w w' → w'.lock ≡ w.lock
  daemon_same (listen n e f) = refl
  daemon_same (start_fails n e) = refl
  daemon_same (closes e) = refl
  daemon_same (exits n e) = refl

  daemon-Settled : {w' : World} → DaemonMove w w' → Settled w → Settled w'
  daemon-Settled (listen n e f) a = ground arith
  daemon-Settled (start_fails n e) a = a
  daemon-Settled (closes e) a = inl (ground arith)
  daemon-Settled (exits n e) a = a

  daemon_gone : {w' : World} → DaemonMove w w' → (w'.launches ≡ w.launches) × (gone w ≤ gone w')
  daemon_gone (listen n e f) = (refl, omega arith)
  daemon_gone (start_fails n e) = (refl, omega arith)
  daemon_gone (closes e) = (refl, omega arith)
  daemon_gone (exits n e) = (refl, omega arith)

  daemon_launched : {w' : World} → DaemonMove w w' → alive w' + w'.closed ≤ w'.launches
  daemon_launched (listen n e f) = ground (arith, inv.launched)
  daemon_launched (start_fails n e) = ground (arith, inv.launched)
  daemon_launched (closes e) = ground (arith, inv.launched)
  daemon_launched (exits n e) = inv.launched

  daemon-Allows : {w' : World} (p : Pc) → DaemonMove w w' → Allows w p → Allows w' p
  daemon-Allows idle mv a = daemon-Settled mv a
  daemon-Allows probing mv a = daemon-Settled mv a
  daemon-Allows locking mv a = daemon-Settled mv a
  daemon-Allows rechecking mv a = daemon-Settled mv a
  daemon-Allows launching mv a = omega (arith, daemon_gone mv)
  daemon-Allows waiting mv a = omega (arith, daemon_gone mv)
  daemon-Allows leaving mv a = daemon-Settled mv a

  daemon-Inv : {w' : World} → DaemonMove w w' → Inv w' pc
  daemon-Inv mv = record {
    owned = rw (daemon_same mv) inv.owned;
    free = λ e. daemon-Settled mv (inv.free (ground (arith, daemon_same mv)));
    held = λ i e. daemon-Allows (pc i) mv (inv.held i (ground (arith, daemon_same mv)));
    launched = daemon_launched mv;
  }

step-Inv : {s t : System} → Step s t → Inv s.world s.pc → Inv t.world t.pc
step-Inv {s} (client i mv) inv = move-Inv i s.world s.pc inv mv
step-Inv {s} (daemon mv) inv = daemon-Inv s.world s.pc inv mv

reach-Inv : {s : System} → Reach s → Inv s.world s.pc
reach-Inv start = record {
  owned = λ i. ground arith;
  free = λ e. inl (omega arith);
  held = λ i e. absurd (ground arith);
  launched = omega arith;
}
reach-Inv (later r st) = step-Inv st (reach-Inv r)

known-bound : {w : World} {pc : ℕ → Pc} → Inv w pc → w.launches ≤ gone w + 1
known-bound {w} {pc} inv = split w.lock refl
  where
    at : (p : Pc) → Allows w p → w.launches ≤ gone w + 1
    at idle a = ground arith
    at probing a = ground arith
    at locking a = ground arith
    at rechecking a = ground arith
    at launching a = omega arith
    at waiting a = omega arith
    at leaving a = ground arith

    split : (l : Option ℕ) → w.lock ≡ l → w.launches ≤ gone w + 1
    split none e = ground (arith, inv.free e)
    split (some i) e = at (pc i) (inv.held i e)

-- Only a daemon that has closed the socket drains.
move-closed :
    {i : ℕ} {w w' : World} {p p' : Pc}
    → Move i w p w' p'
    → (w'.draining ≡ w.draining) × (w'.closed ≡ w.closed)
move-closed call = (refl, refl)
move-closed (probe_reachable e) = (refl, refl)
move-closed probe_hostile = (refl, refl)
move-closed (probe_absent e) = (refl, refl)
move-closed lock_failed = (refl, refl)
move-closed (flock e) = (refl, refl)
move-closed (recheck_reachable e) = (refl, refl)
move-closed recheck_hostile = (refl, refl)
move-closed (recheck_absent e) = (refl, refl)
move-closed launch_failed = (refl, refl)
move-closed launch = (refl, refl)
move-closed (wait_reachable e) = (refl, refl)
move-closed wait_given_up = (refl, refl)
move-closed release = (refl, refl)

daemon_draining : {w w' : World} → DaemonMove w w' → w.draining ≤ w.closed → w'.draining ≤ w'.closed
daemon_draining (listen n e f) h = h
daemon_draining (start_fails n e) h = h
daemon_draining (closes e) h = omega arith
daemon_draining (exits n e) h = omega arith

reach-draining : {s : System} → Reach s → s.world.draining ≤ s.world.closed
reach-draining start = omega arith
reach-draining (later r (client i mv)) = omega (arith, move-closed mv, reach-draining r)
reach-draining (later r (daemon mv)) = daemon_draining mv (reach-draining r)

-- However calls of EnsureDaemon interleave with each other and with the daemons: two clients are never
-- both between the lock and its Release; there are at most as many launches as daemons that have closed
-- their socket, waits that were given up, and one; at most as many daemons start or listen as waits were
-- given up, and one; and the daemons that have closed their socket and still run, which drain their
-- requests, come on top of these.
pub launches_bounded :
    {s : System}
    → Reach s
    → ((i j : ℕ) → holds_lock (s.pc i) ≡ true → holds_lock (s.pc j) ≡ true → i ≡ j)
      × (s.world.launches ≤ s.world.closed + s.world.given_up + 1)
      × (alive s.world ≤ s.world.given_up + 1)
      × (s.world.draining ≤ s.world.closed)
launches_bounded {s} r =
    let inv = reach-Inv r in
    (
      λ i j a b. ground (arith, inv.owned i, inv.owned j),
      omega (arith, known-bound inv),
      omega (arith, known-bound inv, inv.launched),
      reach-draining r,
    )
