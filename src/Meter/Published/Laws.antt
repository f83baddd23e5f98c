-- ===== src/Meter/Published/Laws.antt =====
-- No torn snapshot in rust/core/src/loudness_meter.rs.
use usbradio_plus.Prelude.{
  ℕ, zero, suc, ◌+◌, ◌%◌, ◌≤◌, ◌<◌, ◌≡◌, refl, ◌∙◌, inl, inr, ◌⊎◌, List, [], ◌∷◌, length, ◌==◌,
  if_cases, arith,
}
use usbradio_plus.Meter.{word}
use usbradio_plus.Meter.Published.{
  Words, Published, new_published, PublishPoint, publish_idle, store_epoch, store_samples,
  store_integrated, store_peak, finish_publish, publish_step, SnapshotPoint, snapshot_idle,
  load_sequence, load_epoch, load_samples, load_integrated, load_peak, load_again, fall_back,
  Answer, working, coherent, unmeasured_epoch, retry, snapshot_step, Threads, Turn, writes, reads,
  over, note, turn, run, idle_threads, bump,
}

-- An answer that was coherent is the last value published before it.
abbrev pub IsLatest : Answer × Words → Type 0
IsLatest (coherent w, latest) = w ≡ latest
IsLatest (working, latest) = Unit
IsLatest (unmeasured_epoch e, latest) = Unit

abbrev pub AllLatest : List (Answer × Words) → Type 0
AllLatest [] = Unit
AllLatest (a ∷ log) = IsLatest a × AllLatest log

-- The writer's values so far: the sequence is odd exactly inside `publish`.
abbrev WriterOk : Published → PublishPoint → Words → Type 0
WriterOk p publish_idle latest = (p.sequence % 2 ≡ 0) × (p.words ≡ latest)
WriterOk p (store_epoch v) latest = p.sequence % 2 ≡ 1
WriterOk p (store_samples v) latest = (p.sequence % 2 ≡ 1) × (p.words.epoch ≡ v.epoch)
WriterOk p (store_integrated v) latest =
    (p.sequence % 2 ≡ 1) × (p.words.epoch ≡ v.epoch) × (p.words.samples ≡ v.samples)
WriterOk p (store_peak v) latest =
    (p.sequence % 2 ≡ 1)
    × (p.words.epoch ≡ v.epoch)
    × (p.words.samples ≡ v.samples)
    × (p.words.integrated ≡ v.integrated)
WriterOk p (finish_publish v) latest = (p.sequence % 2 ≡ 1) × (p.words ≡ v)

-- What the reader holds is current as long as the sequence number is the one that it read.
abbrev Current : Published → ℕ → Type 0 → Type 0
Current p s A = (s % 2 ≡ 0) × (s ≤ p.sequence) × ((s < p.sequence) ⊎ A)

abbrev ReaderOk : Published → SnapshotPoint → Type 0
ReaderOk p (load_epoch tries s) = Current p s (Unit {0})
ReaderOk p (load_samples tries s a) = Current p s (a ≡ p.words.epoch)
ReaderOk p (load_integrated tries s a b) = Current p s ((a ≡ p.words.epoch) × (b ≡ p.words.samples))
ReaderOk p (load_peak tries s a b c) =
    Current p s ((a ≡ p.words.epoch) × (b ≡ p.words.samples) × (c ≡ p.words.integrated))
ReaderOk p (load_again tries s w) = Current p s (w ≡ p.words)
ReaderOk p _ = Unit

-- With `left` turns to go the sequence number does not wrap.
record Inv (left : ℕ) (t : Threads) : Type 0 where
  room : t.shared.sequence + left < word
  writer_ok : WriterOk t.shared t.writer t.latest
  reader_ok : ReaderOk t.shared t.reader
  answers_ok : AllLatest t.answers

words-ext :
    (v w : Words)
    → v.epoch ≡ w.epoch
    → v.samples ≡ w.samples
    → v.integrated ≡ w.integrated
    → v.peak ≡ w.peak
    → v ≡ w
words-ext v w a b c d = λ i. record { epoch = a i; samples = b i; integrated = c i; peak = d i }

-- A later sequence number makes what the reader holds stale, never wrong.
later-ReaderOk :
    (p q : Published) (r : SnapshotPoint) → p.sequence < q.sequence → ReaderOk p r → ReaderOk q r
later-ReaderOk p q snapshot_idle h o = tt
later-ReaderOk p q (load_sequence tries) h o = tt
later-ReaderOk p q (load_epoch tries s) h (a, b, c) = (a, omega arith, inl (omega arith))
later-ReaderOk p q (load_samples tries s _) h (a, b, c) = (a, omega arith, inl (omega arith))
later-ReaderOk p q (load_integrated tries s _ _) h (a, b, c) = (a, omega arith, inl (omega arith))
later-ReaderOk p q (load_peak tries s _ _ _) h (a, b, c) = (a, omega arith, inl (omega arith))
later-ReaderOk p q (load_again tries s _) h (a, b, c) = (a, omega arith, inl (omega arith))
later-ReaderOk p q fall_back h o = tt

-- Inside `publish` the sequence number is odd, so that it is not the reader's.
odd-ReaderOk :
    (p q : Published) (r : SnapshotPoint)
    → p.sequence % 2 ≡ 1
    → q.sequence ≡ p.sequence
    → ReaderOk p r
    → ReaderOk q r
odd-ReaderOk p q snapshot_idle odd h o = tt
odd-ReaderOk p q (load_sequence tries) odd h o = tt
odd-ReaderOk p q (load_epoch tries s) odd h (a, b, c) = (a, omega arith, inl (omega arith))
odd-ReaderOk p q (load_samples tries s _) odd h (a, b, c) = (a, omega arith, inl (omega arith))
odd-ReaderOk p q (load_integrated tries s _ _) odd h (a, b, c) = (a, omega arith, inl (omega arith))
odd-ReaderOk p q (load_peak tries s _ _ _) odd h (a, b, c) = (a, omega arith, inl (omega arith))
odd-ReaderOk p q (load_again tries s _) odd h (a, b, c) = (a, omega arith, inl (omega arith))
odd-ReaderOk p q fall_back odd h o = tt

bumped :
    (p : Published) (left : ℕ) → p.sequence + suc left < word → (bump p).sequence ≡ suc p.sequence
bumped p left h = omega arith

store-Inv :
    (left : ℕ) (t : Threads) (p : Published) (w : PublishPoint)
    → p.sequence ≡ t.shared.sequence
    → t.shared.sequence % 2 ≡ 1
    → WriterOk p w t.latest
    → Inv (suc left) t
    → Inv left (record t { shared = p; writer = w })
store-Inv left t p w same odd ok_w v = record {
  room = omega (arith, same, v.room);
  writer_ok = ok_w;
  reader_ok = odd-ReaderOk t.shared p t.reader odd same v.reader_ok;
  answers_ok = v.answers_ok;
}

bump-Inv :
    (left : ℕ) (t : Threads) (w : PublishPoint) (latest : Words)
    → WriterOk (bump t.shared) w latest
    → AllLatest t.answers
    → Inv (suc left) t
    → Inv left (record t { shared = bump t.shared; writer = w; latest = latest })
bump-Inv left t w latest ok_w a v = record {
  room = omega (arith, bumped t.shared left v.room, v.room);
  writer_ok = ok_w;
  reader_ok =
      later-ReaderOk t.shared (bump t.shared) t.reader (omega (arith, bumped t.shared left v.room))
        v.reader_ok;
  answers_ok = a;
}

write-Inv :
    (left : ℕ) (t : Threads) (w : PublishPoint) (v : Words)
    → t.writer ≡ w
    → WriterOk t.shared w t.latest
    → Inv (suc left) t
    → Inv left (record t {
      shared = (publish_step t.shared w v).0;
      writer = (publish_step t.shared w v).1;
      latest = over w t.latest;
    })
unfolding publish_step
write-Inv left t publish_idle v e (even, same) i =
    bump-Inv left t (store_epoch v) t.latest (omega (arith, bumped t.shared left i.room, even))
      i.answers_ok i
write-Inv left t (store_epoch u) v e odd i = store-Inv left t _ _ refl odd (odd, refl) i
write-Inv left t (store_samples u) v e (odd, a) i = store-Inv left t _ _ refl odd (odd, a, refl) i
write-Inv left t (store_integrated u) v e (odd, a, b) i =
    store-Inv left t _ _ refl odd (odd, a, b, refl) i
write-Inv left t (store_peak u) v e (odd, a, b, c) i =
    store-Inv left t _ _ refl odd (odd, words-ext _ u a b c refl) i
write-Inv left t (finish_publish u) v e (odd, same) i =
    bump-Inv left t publish_idle u (omega (arith, bumped t.shared left i.room, odd), same)
      i.answers_ok i

abbrev AfterRead : Threads → SnapshotPoint × Answer → Type 0
AfterRead t r = ReaderOk t.shared r.0 × IsLatest (r.1, t.latest)

retry-ReaderOk : (p : Published) (tries : ℕ) → ReaderOk p (retry tries)
retry-ReaderOk p zero = tt
retry-ReaderOk p (suc tries) = tt

-- What was read while the sequence number stood still is the value of the last publish.
still_latest :
    (p : Published) (w : PublishPoint) (latest words : Words)
    → p.sequence % 2 ≡ 0
    → words ≡ p.words
    → WriterOk p w latest
    → words ≡ latest
still_latest p publish_idle latest words even e (_, same) = e ∙ same
still_latest p (store_epoch v) latest words even e odd = absurd (omega arith)
still_latest p (store_samples v) latest words even e (odd, _) = absurd (omega arith)
still_latest p (store_integrated v) latest words even e (odd, _, _) = absurd (omega arith)
still_latest p (store_peak v) latest words even e (odd, _, _, _) = absurd (omega arith)
still_latest p (finish_publish v) latest words even e (odd, _) = absurd (omega arith)

abbrev both : {s : ℕ} (p : Published) {A B : Type 0} → (A → B) → Current p s A → Current p s B
both p f (a, b, inl c) = (a, b, inl c)
both p f (a, b, inr x) = (a, b, inr (f x))

snapshot-AfterRead :
    (t : Threads) (r : SnapshotPoint)
    → ReaderOk t.shared r
    → WriterOk t.shared t.writer t.latest
    → AfterRead t (snapshot_step t.shared r)
unfolding snapshot_step
snapshot-AfterRead t snapshot_idle o w = (tt, tt)
snapshot-AfterRead t (load_sequence tries) o w =
    if_cases (AfterRead t) (t.shared.sequence % 2 == 0)
      (load_epoch tries t.shared.sequence, working) (retry tries, working)
      (λ e. ((ground (arith, e), omega arith, inr tt), tt))
      (λ _. (retry-ReaderOk t.shared tries, tt))
snapshot-AfterRead t (load_epoch tries s) o w = (both t.shared (λ _. refl) o, tt)
snapshot-AfterRead t (load_samples tries s a) o w = (both t.shared (λ e. (e, refl)) o, tt)
snapshot-AfterRead t (load_integrated tries s a b) o w =
    (both t.shared (λ (e, f). (e, f, refl)) o, tt)
snapshot-AfterRead t (load_peak tries s a b c) o w =
    (both t.shared (λ (e, f, g). words-ext _ t.shared.words e f g refl) o, tt)
snapshot-AfterRead t (load_again tries s words) (even, le, now) w =
    if_cases (AfterRead t) (t.shared.sequence == s) (snapshot_idle, coherent words)
      (retry tries, working)
      (λ e. elim now [
        | inl past ↦ absurd (ground (arith, e, past))
        | inr same ↦
            (tt, still_latest t.shared t.writer t.latest words (ground (arith, e, even)) same w)
      ])
      (λ _. (retry-ReaderOk t.shared tries, tt))
snapshot-AfterRead t fall_back o w = (tt, tt)

note-AllLatest :
    (a : Answer) (latest : Words) (log : List (Answer × Words))
    → IsLatest (a, latest)
    → AllLatest log
    → AllLatest (note a latest log)
note-AllLatest working latest log h v = v
note-AllLatest (coherent w) latest log h v = (h, v)
note-AllLatest (unmeasured_epoch e) latest log h v = (h, v)

turn-Inv : (left : ℕ) (t : Threads) (x : Turn) → Inv (suc left) t → Inv left (turn t x)
unfolding turn
turn-Inv left t (writes v) i = write-Inv left t t.writer v refl i.writer_ok i
turn-Inv left t reads i =
    let (r, a) = snapshot-AfterRead t t.reader i.reader_ok i.writer_ok in
    record {
      room = omega (arith, i.room);
      writer_ok = i.writer_ok;
      reader_ok = r;
      answers_ok = note-AllLatest _ t.latest t.answers a i.answers_ok;
    }

run-Inv : (xs : List Turn) (t : Threads) → Inv (length xs) t → Inv 0 (run t xs)
unfolding run
run-Inv [] t i = i
run-Inv (x ∷ xs) t i = run-Inv xs (turn t x) (turn-Inv (length xs) t x i)

-- At every interleaving of fewer than 2^64 operations of one publishing and one observing
-- thread, a snapshot that reports a measurement has exactly the four words of the last publish
-- that was over when it was given: no snapshot mixes two publishes.
pub answers_latest :
    (epoch nan : ℕ) (xs : List Turn)
    → length xs < word
    → AllLatest (run (idle_threads epoch nan) xs).answers
unfolding new_published
answers_latest epoch nan xs h =
    let i =
      run-Inv xs (idle_threads epoch nan) (record {
        room = omega arith;
        writer_ok = (refl, refl);
        reader_ok = tt;
        answers_ok = tt;
      }) in
    i.answers_ok
