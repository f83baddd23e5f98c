-- ===== src/Meter/Tests.antt =====
-- The meter of rust/core/src/loudness_meter.rs over an analyser that adds its samples up.
use usbradio_plus.Prelude.{ℕ, ◌+◌, ◌*◌, ◌≤◌, ◌≡◌, true, List, [], ◌∷◌, length, ok, arith}
use usbradio_plus.Meter.{Analyser, OutputLoudnessMeter, new_meter}
use usbradio_plus.Meter.Laws.{process_all, process_all-new, Counts, total}
use usbradio_plus.Meter.Published.{Words, Turn, writes, reads, run, idle_threads}
use usbradio_plus.Meter.Published.Laws.{answers_latest, AllLatest}
use usbradio_plus.Meter.Published.Progress.{snapshot_wait_free, reads_in}

abbrev added : ℕ → List ℕ → ℕ
added e [] = e
added e (x ∷ xs) = added (e + x) xs

abbrev pub adding : Analyser ℕ ℕ ℕ
adding = record {
  start = λ rate. 0;
  restart = λ e. 0;
  add_frames = added;
  loudness_global = λ e. e;
  true_peak = λ e. e;
  silence = 0;
  is_finite_sample = λ x. true;
  is_finite = λ v. true;
  is_positive = λ v. true;
  decibels = λ v. v;
}

abbrev blocks : List (List ℕ)
blocks = (1 ∷ 2 ∷ []) ∷ [] ∷ (3 ∷ []) ∷ []

process_all-new_example :
    (m n : OutputLoudnessMeter ℕ ℕ) × ((new_meter adding 8000 160 7).0 ≡ ok m)
    × (process_all adding m blocks ≡ ok n)
    × Counts adding 8000 160 7 (total blocks) n
process_all-new_example =
    process_all-new adding 8000 160 7 blocks (omega arith) (omega arith) (omega arith) (omega arith)
      (omega arith, (omega arith, (omega arith, tt)))

abbrev values : Words
values = record { epoch = 7; samples = 160; integrated = 1; peak = 2 }

abbrev schedule : List Turn
schedule =
    reads
    ∷ writes values
    ∷ reads
    ∷ writes values
    ∷ writes values
    ∷ reads
    ∷ writes values
    ∷ writes values
    ∷ writes values
    ∷ reads
    ∷ reads
    ∷ reads
    ∷ reads
    ∷ reads
    ∷ reads
    ∷ []

answers_latest_example : AllLatest (run (idle_threads 7 9) schedule).answers
answers_latest_example = answers_latest 7 9 schedule (omega arith)

snapshot_wait_free_example :
    reads_in schedule ≤ 20 * length (run (idle_threads 7 9) schedule).answers + 19
snapshot_wait_free_example = snapshot_wait_free 7 9 schedule
