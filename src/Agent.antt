-- ===== src/Agent.antt =====
-- The node agent, node-agent/src: texts, fallible calls, and the system that its calls act on.
pub mod Tuning
pub mod Drivers
pub mod Shard
pub mod Rpc
pub mod Inference
pub mod Overclocking
pub mod Service
pub mod Hardware
pub mod Node
pub mod Client
mod Tests
mod GreedyTests
mod ServiceTests
mod MachineTests
use arcflame.Base.{
  zero, ℕ, suc, ◌+◌, ◌/◌, ◌%◌, Bool, true, false, ◌&&◌, ◌||◌, List, [], ◌∷◌, ◌++◌, Option, none,
  some, ltb, leb, ◌==◌, if◌then◌else◌,
}
use arcflame.Base.Text.{codes}

-- A `String` is the list of its characters' code points.
abbrev pub Text : Type 0
Text = List ℕ

-- `Result<A, String>`
pub data Try {ℓ} (A : Type ℓ) : Type ℓ where
  done : A → Try A
  failed : Text → Try A

-- `r.map_err(|e| format!(…))`
abbrev pub map_err {ℓ} : {A : Type ℓ} → Text → Try A → Try A
map_err prefix (done a) = done a
map_err prefix (failed e) = failed (prefix ++ e)

-- What a finished command leaves: whether its status is a success, and its standard output.
pub record Output : Type 0 where
  pub success : Bool
  pub stdout : Text

-- The machine: its files, directories and commands. Each call may change it, and may fail with a
-- message.
pub record System : Type 1 where
  pub State : Type 0
  pub exists : Text → State → Bool
  pub read_to_string : Text → State → Try Text × State
  pub read_dir : Text → State → Try (List Text) × State
  pub write : Text → Text → State → Try (Unit {0}) × State
  pub output : Text → List Text → State → Try Output × State

module _ {S : Type 0} where
  -- A call that runs on the machine.
  infixl 5 ◌>>=◌ ◌>>◌
  abbrev pub ◌>>=◌ : {A B : Type 0} → (S → A × S) → (A → S → B × S) → S → B × S
  ◌>>=◌ m f s = let (a, s') = m s in f a s'

  abbrev pub ◌>>◌ : {B : Type 0} → (S → Unit {0} × S) → (S → B × S) → S → B × S
  ◌>>◌ m k s = let (a, s') = m s in k s'

  abbrev pub pure : {A : Type 0} → A → S → A × S
  pure a s = (a, s)

-- `format!("{}", n)` of a number of at most twenty digits, such as a `u64`.
unfoldable pub decimal_fuel : ℕ → ℕ → Text
decimal_fuel zero n = []
decimal_fuel (suc fuel) n =
    let rest = decimal_fuel fuel (n / 10) in
    if ltb n 10 then (n + b'0') ∷ [] else rest ++ ((n % 10 + b'0') ∷ [])

unfoldable pub decimal : ℕ → Text
unfolding decimal_fuel
decimal n = decimal_fuel 20 n

-- `char::is_whitespace`
abbrev pub is_whitespace : ℕ → Bool
is_whitespace c =
    (leb 9 c && leb c 13)
    || c == 32
    || c == 0x85
    || c == 0xa0
    || c == 0x1680
    || (leb 0x2000 c && leb c 0x200a)
    || c == 0x2028
    || c == 0x2029
    || c == 0x202f
    || c == 0x205f
    || c == 0x3000

unfoldable pub trim_start : Text → Text
trim_start [] = []
trim_start (c ∷ cs) = if is_whitespace c then trim_start cs else c ∷ cs

unfoldable pub trim_end : Text → Text
trim_end [] = []
trim_end (c ∷ cs) = elim (trim_end cs) [
  | [] ↦ if is_whitespace c then [] else c ∷ []
  | d ∷ ds ↦ c ∷ d ∷ ds
]

-- `str::trim`
abbrev pub trim : Text → Text
trim s = trim_start (trim_end s)

-- `str::lines`: split at line feeds, without a carriage return before one. Text behind the last
-- line feed is a line if it is not empty.
abbrev strip_cr : Text → Text
strip_cr [] = []
strip_cr (c ∷ []) = if c == 13 then [] else c ∷ []
strip_cr (c ∷ d ∷ cs) = c ∷ strip_cr (d ∷ cs)

lines_from : Text → Text → List Text
lines_from line [] = elim line [ [] ↦ [] | c ∷ cs ↦ (c ∷ cs) ∷ [] ]
lines_from line (c ∷ cs) = elim (c == 10) [
  | true ↦ strip_cr line ∷ lines_from [] cs
  | false ↦ lines_from (line ++ (c ∷ [])) cs
]

unfoldable pub lines : Text → List Text
unfolding lines_from
lines s = lines_from [] s

words_from : Text → Text → List Text
words_from word [] = elim word [ [] ↦ [] | c ∷ cs ↦ (c ∷ cs) ∷ [] ]
words_from word (c ∷ cs) = elim (is_whitespace c) [
  | true ↦ elim word [ [] ↦ words_from [] cs | d ∷ ds ↦ (d ∷ ds) ∷ words_from [] cs ]
  | false ↦ words_from (word ++ (c ∷ [])) cs
]

-- `str::split_whitespace`
unfoldable pub split_whitespace : Text → List Text
unfolding words_from
split_whitespace s = words_from [] s

-- `str::split` at one character: a piece more than the character occurs.
split_from : ℕ → Text → Text → List Text
split_from c piece [] = piece ∷ []
split_from c piece (d ∷ ds) = elim (d == c) [
  | true ↦ piece ∷ split_from c [] ds
  | false ↦ split_from c (piece ++ (d ∷ [])) ds
]

unfoldable pub split : ℕ → Text → List Text
unfolding split_from
split c s = split_from c [] s

-- `Iterator::nth`
abbrev pub nth : ℕ → List Text → Option Text
nth n [] = none
nth zero (s ∷ ss) = some s
nth (suc n) (s ∷ ss) = nth n ss

-- `[&str]::join`
abbrev pub join : Text → List Text → Text
join between [] = []
join between (s ∷ []) = s
join between (s ∷ t ∷ rest) = s ++ (between ++ join between (t ∷ rest))

abbrev pub text_eq : Text → Text → Bool
text_eq [] [] = true
text_eq [] (d ∷ ds) = false
text_eq (c ∷ cs) [] = false
text_eq (c ∷ cs) (d ∷ ds) = (c == d) && text_eq cs ds

-- `str::trim_end_matches` of a text that does not overlap itself: from the end on, each such suffix is
-- dropped.
unfoldable pub trim_end_matches : Text → Text → Text
trim_end_matches suffix [] = []
trim_end_matches suffix (c ∷ cs) =
    let rest = c ∷ trim_end_matches suffix cs in if text_eq rest suffix then [] else rest

-- `f64` and the operations on it that the node agent uses, which round.
pub record Floats : Type 1 where
  pub F : Type 0
  pub parse_f64 : Text → Option F
  pub of_nat : ℕ → F
  pub mul : F → F → F
  pub div : F → F → F
  -- `as u64`
  pub to_u64 : F → ℕ
