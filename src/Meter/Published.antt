-- ===== src/Meter/Published.antt =====
-- `Published` of rust/core/src/loudness_meter.rs: four words behind a sequence number, written by the
-- meter's thread and read by an observer's. `publish` and `snapshot` are cut into their atomic
-- operations, which take effect in any order of the two threads' turns.
pub mod Laws
pub mod Progress
use usbradio_plus.Prelude.{
  ℕ, zero, suc, ◌+◌, ◌%◌, Bool, true, false, Option, none, some, List, [], ◌∷◌, ◌==◌, if◌then◌else◌,
}
use usbradio_plus.Meter.{OutputLoudnessSnapshot, word}

-- The words: the epoch, the number of samples, and the bits of the two measurements.
pub record Words : Type 0 where
  pub epoch : ℕ
  pub samples : ℕ
  pub integrated : ℕ
  pub peak : ℕ

pub record Published : Type 0 where
  pub sequence : ℕ
  pub words : Words

unfoldable pub new_published : ℕ → ℕ → Published
new_published epoch nan = record {
  sequence = 0;
  words = record { epoch = epoch; samples = 0; integrated = nan; peak = nan };
}

-- Where `publish` stands with its values: what it does next.
pub data PublishPoint : Type 0 where
  publish_idle : PublishPoint
  store_epoch store_samples store_integrated store_peak finish_publish : Words → PublishPoint

abbrev pub bump : Published → Published
bump p = record p { sequence = (p.sequence + 1) % word }

-- One operation of `publish`; an idle writer is called with these values.
unfoldable pub publish_step : Published → PublishPoint → Words → Published × PublishPoint
publish_step p publish_idle values = (bump p, store_epoch values)
publish_step p (store_epoch v) values =
    (record p { words = record p.words { epoch = v.epoch } }, store_samples v)
publish_step p (store_samples v) values =
    (record p { words = record p.words { samples = v.samples } }, store_integrated v)
publish_step p (store_integrated v) values =
    (record p { words = record p.words { integrated = v.integrated } }, store_peak v)
publish_step p (store_peak v) values =
    (record p { words = record p.words { peak = v.peak } }, finish_publish v)
publish_step p (finish_publish v) values = (bump p, publish_idle)

-- Where `snapshot` stands: with the tries that are left after this one, the sequence number that it
-- read, and the words that it has.
pub data SnapshotPoint : Type 0 where
  snapshot_idle : SnapshotPoint
  load_sequence : ℕ → SnapshotPoint
  load_epoch : ℕ → ℕ → SnapshotPoint
  load_samples : ℕ → ℕ → ℕ → SnapshotPoint
  load_integrated : ℕ → ℕ → ℕ → ℕ → SnapshotPoint
  load_peak : ℕ → ℕ → ℕ → ℕ → ℕ → SnapshotPoint
  load_again : ℕ → ℕ → Words → SnapshotPoint
  fall_back : SnapshotPoint

-- What an operation returns: nothing yet, the words of a try that succeeded, or the epoch alone.
pub data Answer : Type 0 where
  working : Answer
  coherent : Words → Answer
  unmeasured_epoch : ℕ → Answer

abbrev pub retry : ℕ → SnapshotPoint
retry zero = fall_back
retry (suc tries) = load_sequence tries

unfoldable pub snapshot_step : Published → SnapshotPoint → SnapshotPoint × Answer
snapshot_step p snapshot_idle = (load_sequence 2, working)
snapshot_step p (load_sequence tries) =
    if p.sequence % 2 == 0 then (load_epoch tries p.sequence, working) else (retry tries, working)
snapshot_step p (load_epoch tries s) = (load_samples tries s p.words.epoch, working)
snapshot_step p (load_samples tries s a) = (load_integrated tries s a p.words.samples, working)
snapshot_step p (load_integrated tries s a b) = (load_peak tries s a b p.words.integrated, working)
snapshot_step p (load_peak tries s a b c) = (
  load_again tries s (record { epoch = a; samples = b; integrated = c; peak = p.words.peak }),
  working,
)
snapshot_step p (load_again tries s words) =
    if p.sequence == s then (snapshot_idle, coherent words) else (retry tries, working)
snapshot_step p fall_back = (snapshot_idle, unmeasured_epoch p.words.epoch)

-- The two threads, the values of the last `publish` that is over, and the answers with what was the
-- last such value when they were given, the latest first.
pub record Threads : Type 0 where
  pub shared : Published
  pub writer : PublishPoint
  pub reader : SnapshotPoint
  pub latest : Words
  pub answers : List (Answer × Words)

pub data Turn : Type 0 where
  writes : Words → Turn
  reads : Turn

abbrev pub over : PublishPoint → Words → Words
over (finish_publish v) latest = v
over _ latest = latest

abbrev pub note : Answer → Words → List (Answer × Words) → List (Answer × Words)
note working latest log = log
note a latest log = (a, latest) ∷ log

unfoldable pub turn : Threads → Turn → Threads
turn t (writes v) =
    let r = publish_step t.shared t.writer v in
    record t { shared = r.0; writer = r.1; latest = over t.writer t.latest }
turn t reads =
    let r = snapshot_step t.shared t.reader in
    record t { reader = r.0; answers = note r.1 t.latest t.answers }

unfoldable pub run : Threads → List Turn → Threads
run t [] = t
run t (x ∷ xs) = run (turn t x) xs

abbrev pub idle_threads : ℕ → ℕ → Threads
unfolding new_published
idle_threads epoch nan = record {
  shared = new_published epoch nan;
  writer = publish_idle;
  reader = snapshot_idle;
  latest = (new_published epoch nan).words;
  answers = [];
}
