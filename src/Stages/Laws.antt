-- ===== src/Stages/Laws.antt =====
-- What a parsed stage order of rust/core/src/stage_order.rs holds, and that it reads its own names.
use usbradio_plus.Prelude.{
  ℕ, ◌<◌, ◌≡◌, refl, sym, ◌∙◌, ap, subst, inl, inr, Bool, true, false, ◌&&◌, ◌||◌, not, some, List,
  [], ◌∷◌, ◌++◌, map, append_assoc, append-nil, leb, Result, ok, err, ◌>>=◌, ◌>>◌, Bool-cases,
  Option-cases, if_cases, arith,
}
use usbradio_plus.Stages.{
  ProcessingStage, expander, agc, compressor, limiter, equalizer, deesser, StageOrderError,
  too_long, byte_length, name, parse_stage, split_commas, same_stage, contains, collect,
  require_enabled, parse,
}

unfoldable pub distinct : List ProcessingStage → Bool
unfolding contains
distinct [] = true
distinct (x ∷ stages) = not (contains stages x) && distinct stages

unfoldable pub contains_all : List ProcessingStage → List ProcessingStage → Bool
unfolding contains
contains_all stages [] = true
contains_all stages (x ∷ enabled) = contains stages x && contains_all stages enabled

same_stage_comm : (x y : ProcessingStage) → same_stage x y ≡ same_stage y x
same_stage_comm x y = ground arith

contains-append :
    (xs ys : List ProcessingStage) (z : ProcessingStage)
    → contains (xs ++ ys) z ≡ (contains xs z || contains ys z)
unfolding contains
contains-append [] ys z = refl
contains-append (x ∷ xs) ys z = ground (arith, contains-append xs ys z)

distinct-snoc :
    (stages : List ProcessingStage) (y : ProcessingStage)
    → distinct stages ≡ true
    → contains stages y ≡ false
    → distinct (stages ++ (y ∷ [])) ≡ true
unfolding distinct contains
distinct-snoc [] y h k = refl
distinct-snoc (x ∷ stages) y h k =
    ground (arith, contains-append stages (y ∷ []) x, same_stage_comm x y, distinct-snoc stages y)

collect-distinct :
    (stages : List ProcessingStage) (tokens : List (List ℕ)) (result : List ProcessingStage)
    → distinct stages ≡ true
    → collect stages tokens ≡ ok result
    → distinct result ≡ true
unfolding collect
collect-distinct stages [] result d h = ground arith
collect-distinct stages (token ∷ tokens) result d h = elim (Option-cases (parse_stage token)) [
  | inl unknown ↦ absurd (ground (arith, rw (collect, unknown) at h))
  | inr (stage, known) ↦ elim (Bool-cases (contains stages stage)) [
    | inl again ↦ absurd (ground (arith, rw (collect, known, again) at h))
    | inr new ↦
        collect-distinct (stages ++ (stage ∷ [])) tokens result (distinct-snoc stages stage d new)
          (rw (collect, known, new) at h)
  ]
]

require_enabled-all :
    (stages enabled : List ProcessingStage)
    → require_enabled stages enabled ≡ ok tt
    → contains_all stages enabled ≡ true
unfolding require_enabled contains_all
require_enabled-all stages [] h = refl
require_enabled-all stages (x ∷ enabled) h = ground (arith, require_enabled-all stages enabled)

all-require_enabled :
    (stages enabled : List ProcessingStage)
    → contains_all stages enabled ≡ true
    → require_enabled stages enabled ≡ ok tt
unfolding require_enabled contains_all
all-require_enabled stages [] h = refl
all-require_enabled stages (x ∷ enabled) h = ground (arith, all-require_enabled stages enabled)

ok_inj :
    {a b : List ProcessingStage}
    → ◌≡◌ {A = Result StageOrderError (List ProcessingStage)} (ok a) (ok b)
    → a ≡ b
ok_inj h = ground arith

required :
    (kept enabled stages : List ProcessingStage) (r : Result StageOrderError (Unit {0}))
    → require_enabled kept enabled ≡ r
    → (r >> ok kept) ≡ ok stages
    → (kept ≡ stages) × (contains_all kept enabled ≡ true)
required kept enabled stages (err e) q h = ground arith
required kept enabled stages (ok tt) q h = (ok_inj h, require_enabled-all kept enabled q)

collected :
    (tokens : List (List ℕ)) (enabled stages : List ProcessingStage)
    (r : Result StageOrderError (List ProcessingStage))
    → collect [] tokens ≡ r
    → (r >>= λ kept. require_enabled kept enabled >> ok kept) ≡ ok stages
    → (distinct stages ≡ true) × (contains_all stages enabled ≡ true)
unfolding distinct
collected tokens enabled stages (err e) q h = ground arith
collected tokens enabled stages (ok kept) q h =
    let (same, all) = required kept enabled stages _ refl h in
    (
      subst (λ l. distinct l ≡ true) same (collect-distinct [] tokens kept refl q),
      subst (λ l. contains_all l enabled ≡ true) same all,
    )

-- An order that parse returns repeats no stage and contains every enabled stage, and its text
-- is shorter than 128 bytes.
pub parse-distinct :
    (text : List ℕ) (enabled stages : List ProcessingStage)
    → parse text enabled ≡ ok stages
    → (distinct stages ≡ true) × (contains_all stages enabled ≡ true) × (byte_length text < 128)
unfolding parse
parse-distinct text enabled stages h =
    let Q : Result StageOrderError (List ProcessingStage) → Type 0 = λ r.
      r ≡ ok stages
      → (distinct stages ≡ true)
        × (contains_all stages enabled ≡ true)
        × (byte_length text < 128) in
    if_cases Q (leb 128 (byte_length text)) (err too_long) _ (λ long e. ground (arith, e))
      (λ short e.
        let (d, c) = collected (split_commas text) enabled stages _ refl e in
        (d, c, ground (arith, short)))
      h

-- A text of the names of an order.
unfoldable pub joined : ProcessingStage → List ProcessingStage → List ℕ
unfolding name
joined x [] = name x
joined x (y ∷ stages) = name x ++ (b',' ∷ joined y stages)

split_commas-name :
    (x : ProcessingStage) (text : List ℕ)
    → (split_commas (name x) ≡ name x ∷ [])
      × (split_commas (name x ++ (b',' ∷ text)) ≡ name x ∷ split_commas text)
unfolding split_commas name
split_commas-name expander text = (refl, refl)
split_commas-name agc text = (refl, refl)
split_commas-name compressor text = (refl, refl)
split_commas-name limiter text = (refl, refl)
split_commas-name equalizer text = (refl, refl)
split_commas-name deesser text = (refl, refl)

parse_stage-name : (x : ProcessingStage) → parse_stage (name x) ≡ some x
unfolding parse_stage name
parse_stage-name expander = refl
parse_stage-name agc = refl
parse_stage-name compressor = refl
parse_stage-name limiter = refl
parse_stage-name equalizer = refl
parse_stage-name deesser = refl

split_commas-joined :
    (x : ProcessingStage) (stages : List ProcessingStage)
    → split_commas (joined x stages) ≡ map name (x ∷ stages)
unfolding joined
split_commas-joined x [] = (split_commas-name x []).0
split_commas-joined x (y ∷ stages) =
    (split_commas-name x (joined y stages)).1 ∙ ap (◌∷◌ (name x)) (split_commas-joined y stages)

distinct-front :
    (xs ys : List ProcessingStage) (y : ProcessingStage)
    → distinct (xs ++ (y ∷ ys)) ≡ true
    → contains xs y ≡ false
unfolding distinct contains
distinct-front [] ys y h = refl
distinct-front (x ∷ xs) ys y h =
    ground (arith, contains-append xs (y ∷ ys) x, same_stage_comm x y, distinct-front xs ys y)

collect-names :
    (xs ys : List ProcessingStage)
    → distinct (xs ++ ys) ≡ true
    → collect xs (map name ys) ≡ ok (xs ++ ys)
unfolding collect
collect-names xs [] h = ap ok (sym (append-nil xs))
collect-names xs (y ∷ ys) h =
    rw (collect, parse_stage-name y, distinct-front xs ys y h)
      (collect-names (xs ++ (y ∷ [])) ys
          (subst (λ l. distinct l ≡ true) (sym (append_assoc xs (y ∷ []) ys)) h)
        ∙ ap ok (append_assoc xs (y ∷ []) ys))

-- The comma-separated names of an order without repetition that contains every enabled stage,
-- if they are shorter than 128 bytes, parse to that order.
pub parse-joined :
    (x : ProcessingStage) (stages enabled : List ProcessingStage)
    → distinct (x ∷ stages) ≡ true
    → contains_all (x ∷ stages) enabled ≡ true
    → byte_length (joined x stages) < 128
    → parse (joined x stages) enabled ≡ ok (x ∷ stages)
unfolding parse
parse-joined x stages enabled d c small =
    let short : leb 128 (byte_length (joined x stages)) ≡ false = ground (arith, small) in
    rw
      (
        short,
        split_commas-joined x stages,
        collect-names [] (x ∷ stages) d,
        all-require_enabled (x ∷ stages) enabled c,
      )
      refl
