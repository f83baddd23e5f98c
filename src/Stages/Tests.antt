-- ===== src/Stages/Tests.antt =====
-- Stage orders of rust/core/src/stage_order.rs as texts.
use usbradio_plus.Prelude.{ℕ, ◌<◌, ◌≡◌, refl, true, List, [], ◌∷◌, ok, err, arith}
use usbradio_plus.Stages.{
  ProcessingStage, agc, limiter, equalizer, duplicate_stage, unknown_stage, missing_enabled_stage,
  codes, byte_length, name, parse, parse_stage, trim_start, trim_end, split_commas, collect,
  contains, require_enabled,
}
use usbradio_plus.Stages.Laws.{distinct, contains_all, joined, parse-distinct, parse-joined}

abbrev text : List ℕ
text = codes " Limiter,AGC"

abbrev enabled : List ProcessingStage
enabled = agc ∷ []

parse-text : parse text enabled ≡ ok (limiter ∷ agc ∷ [])
unfolding parse split_commas collect contains require_enabled parse_stage trim_start trim_end
parse-text = refl

parse-errors :
    (parse (codes "agc,agc") [] ≡ err (duplicate_stage agc))
    × (parse (codes "agc,, limiter") [] ≡ err (unknown_stage []))
    × (parse (codes "agc") (equalizer ∷ []) ≡ err (missing_enabled_stage equalizer))
unfolding parse split_commas collect contains require_enabled parse_stage trim_start trim_end
parse-errors = (refl, refl, refl)

parse-distinct_example :
    (distinct (limiter ∷ agc ∷ []) ≡ true)
    × (contains_all (limiter ∷ agc ∷ []) enabled ≡ true)
    × (byte_length text < 128)
parse-distinct_example = parse-distinct text enabled (limiter ∷ agc ∷ []) parse-text

parse-joined_example : parse (joined limiter (agc ∷ [])) enabled ≡ ok (limiter ∷ agc ∷ [])
unfolding distinct contains_all contains joined name
parse-joined_example = parse-joined limiter (agc ∷ []) enabled refl refl (omega arith)
