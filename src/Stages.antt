-- ===== src/Stages.antt =====
-- rust/core/src/stage_order.rs: the order of the optional processing stages. A text is the list of
-- its code points.
pub mod Laws
mod Tests
use Prim.Native.Char.{code}
use Prim.Native.String.{String}
use usbradio_plus.Prelude.{
  ℕ, zero, suc, ◌+◌, ◌-◌, Bool, true, false, ◌&&◌, ◌||◌, not, Option, none, some, List, [], ◌∷◌,
  ◌++◌, ltb, leb, ◌==◌, if◌then◌else◌, Result, ok, err, ◌>>=◌, ◌>>◌, ok_or, require,
}

abbrev pub codes : String → List ℕ
codes String.[] = []
codes (String.◌∷◌ c s) = code c ∷ codes s

pub data ProcessingStage : Type 0 where
  expander agc compressor limiter equalizer deesser : ProcessingStage

pub data StageOrderError : Type 0 where
  too_long : StageOrderError
  unknown_stage : List ℕ → StageOrderError
  duplicate_stage missing_enabled_stage : ProcessingStage → StageOrderError

-- The bytes of a code point in UTF-8.
abbrev pub utf8_length : ℕ → ℕ
utf8_length c = if ltb c 128 then 1 else if ltb c 2048 then 2 else if ltb c 65536 then 3 else 4

abbrev pub byte_length : List ℕ → ℕ
byte_length [] = 0
byte_length (c ∷ text) = utf8_length c + byte_length text

-- `char::is_whitespace`
abbrev pub is_whitespace : ℕ → Bool
is_whitespace c =
    (leb 9 c && leb c 13)
    || c == 32
    || c == 133
    || c == 160
    || c == 5760
    || (leb 8192 c && leb c 8202)
    || c == 8232
    || c == 8233
    || c == 8239
    || c == 8287
    || c == 12288

unfoldable pub trim_start : List ℕ → List ℕ
trim_start [] = []
trim_start (c ∷ text) = let rest = trim_start text in if is_whitespace c then rest else c ∷ text

abbrev pub before : ℕ → List ℕ → List ℕ
before c [] = if is_whitespace c then [] else c ∷ []
before c (d ∷ rest) = c ∷ d ∷ rest

unfoldable pub trim_end : List ℕ → List ℕ
trim_end [] = []
trim_end (c ∷ text) = before c (trim_end text)

abbrev pub to_ascii_lowercase : ℕ → ℕ
to_ascii_lowercase c = if leb b'A' c && leb c b'Z' then c + 32 else c

abbrev pub lowercase : List ℕ → List ℕ
lowercase [] = []
lowercase (c ∷ text) = to_ascii_lowercase c ∷ lowercase text

abbrev pub same_text : List ℕ → List ℕ → Bool
same_text [] [] = true
same_text (c ∷ s) (d ∷ t) = c == d && same_text s t
same_text _ _ = false

unfoldable pub name : ProcessingStage → List ℕ
name expander = codes "expander"
name agc = codes "agc"
name compressor = codes "compressor"
name limiter = codes "limiter"
name equalizer = codes "equalizer"
name deesser = codes "deesser"

abbrev pub stage_named : List ℕ → Option ProcessingStage
stage_named token =
    if same_text token (codes "expander")
    then some expander
    else if same_text token (codes "agc")
    then some agc
    else if same_text token (codes "compressor")
    then some compressor
    else if same_text token (codes "limiter")
    then some limiter
    else if same_text token (codes "equalizer")
    then some equalizer
    else if same_text token (codes "deesser")
    then some deesser
    else none

unfoldable pub parse_stage : List ℕ → Option ProcessingStage
unfolding trim_start trim_end
parse_stage text = stage_named (lowercase (trim_end (trim_start text)))

-- `text.split(',')`
abbrev pub in_first : ℕ → List (List ℕ) → List (List ℕ)
in_first c [] = (c ∷ []) ∷ []
in_first c (token ∷ tokens) = (c ∷ token) ∷ tokens

unfoldable pub split_commas : List ℕ → List (List ℕ)
split_commas [] = [] ∷ []
split_commas (c ∷ text) =
    let tokens = split_commas text in if c == b',' then [] ∷ tokens else in_first c tokens

abbrev pub same_stage : ProcessingStage → ProcessingStage → Bool
same_stage expander expander = true
same_stage agc agc = true
same_stage compressor compressor = true
same_stage limiter limiter = true
same_stage equalizer equalizer = true
same_stage deesser deesser = true
same_stage _ _ = false

unfoldable pub contains : List ProcessingStage → ProcessingStage → Bool
contains [] stage = false
contains (x ∷ stages) stage = same_stage x stage || contains stages stage

-- The loop over the tokens, with the stages so far.
unfoldable pub collect :
    List ProcessingStage → List (List ℕ) → Result StageOrderError (List ProcessingStage)
collect stages [] = ok stages
collect stages (token ∷ tokens) = elim (parse_stage token) [
  | none ↦ err (unknown_stage (trim_end (trim_start token)))
  | some stage ↦
      if contains stages stage
      then err (duplicate_stage stage)
      else collect (stages ++ (stage ∷ [])) tokens
]

unfoldable pub require_enabled :
    List ProcessingStage → List ProcessingStage → Result StageOrderError (Unit {0})
require_enabled stages [] = ok tt
require_enabled stages (stage ∷ enabled) =
    let rest = require_enabled stages enabled in
    if contains stages stage then rest else err (missing_enabled_stage stage)

-- `StageOrder::parse`; an order is its stages.
unfoldable pub parse : List ℕ → List ProcessingStage → Result StageOrderError (List ProcessingStage)
parse text enabled =
    if leb 128 (byte_length text)
    then err too_long
    else collect [] (split_commas text) >>= λ stages. require_enabled stages enabled >> ok stages

abbrev pub standard : List ProcessingStage
standard = equalizer ∷ expander ∷ agc ∷ deesser ∷ compressor ∷ limiter ∷ []
