-- ===== src/Meter/Published/Progress.antt =====
-- `snapshot` of rust/core/src/loudness_meter.rs waits for nobody.
use usbradio_plus.Prelude.{
  ℕ, zero, suc, ◌+◌, ◌*◌, ◌≤◌, ◌≡◌, refl, List, [], ◌∷◌, length, ◌==◌, ◌%◌, if_cases, arith,
}
use usbradio_plus.Meter.Published.{
  Words, Published, SnapshotPoint, snapshot_idle, load_sequence, load_epoch, load_samples,
  load_integrated, load_peak, load_again, fall_back, Answer, working, coherent, unmeasured_epoch,
  retry, snapshot_step, Threads, Turn, writes, reads, note, turn, run, idle_threads,
}

abbrev pub reads_in : List Turn → ℕ
reads_in [] = 0
reads_in (writes v ∷ xs) = reads_in xs
reads_in (reads ∷ xs) = suc (reads_in xs)

-- How many operations a snapshot has before it at most.
abbrev to_go : SnapshotPoint → ℕ
to_go snapshot_idle = 0
to_go (load_sequence n) = 6 * n + 7
to_go (load_epoch n s) = 6 * n + 6
to_go (load_samples n s a) = 6 * n + 5
to_go (load_integrated n s a b) = 6 * n + 4
to_go (load_peak n s a b c) = 6 * n + 3
to_go (load_again n s w) = 6 * n + 2
to_go fall_back = 1

abbrev answered : Answer → ℕ
answered working = 0
answered _ = 1

-- A call has twenty operations, and an answer ends it.
abbrev budget : SnapshotPoint → ℕ
budget snapshot_idle = 0
budget r = 20

abbrev Spends : SnapshotPoint → SnapshotPoint × Answer → Type 0
Spends r x = suc (to_go x.0 + budget r) ≤ to_go r + 20 * answered x.1 + budget x.0

retry-to_go : (n : ℕ) → (to_go (retry n) ≡ 6 * n + 1) × (budget (retry n) ≡ 20)
retry-to_go zero = (omega arith, refl)
retry-to_go (suc n) = (omega arith, refl)

snapshot_step-Spends : (p : Published) (r : SnapshotPoint) → Spends r (snapshot_step p r)
unfolding snapshot_step
snapshot_step-Spends p snapshot_idle = omega arith
snapshot_step-Spends p (load_sequence n) =
    if_cases (Spends (load_sequence n)) (p.sequence % 2 == 0) (load_epoch n p.sequence, working)
      (retry n, working) (λ _. omega arith)
      (λ _. omega (arith, (retry-to_go n).0, (retry-to_go n).1))
snapshot_step-Spends p (load_epoch n s) = omega arith
snapshot_step-Spends p (load_samples n s a) = omega arith
snapshot_step-Spends p (load_integrated n s a b) = omega arith
snapshot_step-Spends p (load_peak n s a b c) = omega arith
snapshot_step-Spends p (load_again n s w) =
    if_cases (Spends (load_again n s w)) (p.sequence == s) (snapshot_idle, coherent w)
      (retry n, working) (λ _. omega arith)
      (λ _. omega (arith, (retry-to_go n).0, (retry-to_go n).1))
snapshot_step-Spends p fall_back = omega arith

length-note :
    (a : Answer) (latest : Words) (log : List (Answer × Words))
    → length (note a latest log) ≡ length log + answered a
length-note working latest log = omega arith
length-note (coherent w) latest log = omega arith
length-note (unmeasured_epoch e) latest log = omega arith

to_go-budget : (r : SnapshotPoint) → budget r ≤ to_go r + 19
to_go-budget snapshot_idle = omega arith
to_go-budget (load_sequence n) = omega arith
to_go-budget (load_epoch n s) = omega arith
to_go-budget (load_samples n s a) = omega arith
to_go-budget (load_integrated n s a b) = omega arith
to_go-budget (load_peak n s a b c) = omega arith
to_go-budget (load_again n s w) = omega arith
to_go-budget fall_back = omega arith

run_spends :
    (xs : List Turn) (t : Threads) (done : ℕ)
    → done + to_go t.reader ≤ 20 * length t.answers + budget t.reader
    → done + reads_in xs + to_go (run t xs).reader
      ≤ 20 * length (run t xs).answers + budget (run t xs).reader
unfolding run turn
run_spends [] t done h = omega (arith, h)
run_spends (writes v ∷ xs) t done h = run_spends xs (turn t (writes v)) done h
run_spends (reads ∷ xs) t done h =
    let r = snapshot_step t.shared t.reader in
    let rest = run_spends xs (turn t reads) (suc done) (
      omega
        (arith, h, snapshot_step-Spends t.shared t.reader, length-note r.1 t.latest t.answers)) in
    omega (arith, rest)

-- At every interleaving, whatever the publisher does, a snapshot has given its answer after at
-- most twenty operations of its own: an observer that did n of them has at least (n - 19) / 20
-- answers.
pub snapshot_wait_free :
    (epoch nan : ℕ) (xs : List Turn)
    → reads_in xs ≤ 20 * length (run (idle_threads epoch nan) xs).answers + 19
unfolding idle_threads
snapshot_wait_free epoch nan xs =
    let t = run (idle_threads epoch nan) xs in
    omega (arith, run_spends xs (idle_threads epoch nan) 0 (omega arith), to_go-budget t.reader)
