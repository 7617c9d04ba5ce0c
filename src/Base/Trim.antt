-- ===== src/Base/Trim.antt =====
-- JavaScript's `trim`: white space and line ends are cut off on both sides.
use Prim.Native.Nat.{ℕ, zero, suc, ◌-◌}
use Prim.Native.String.{String, len, slice}
use text.Mathlib.Text.{◌==◌ as text_eq, starts_with}
use mathlib.Core.Path.{◌≡◌, refl}
use mathlib.Core.Option.{none, some}
use mathlib.Core.List.{List, [], ◌∷◌}
use audio_block_backend.Base.Table.{find_row}

white_space : List String
white_space =
    " " ∷ "\t" ∷ "\n" ∷ "\u{b}" ∷ "\u{c}" ∷ "\r" ∷ "\u{a0}" ∷ "\u{1680}" ∷ "\u{2000}" ∷ "\u{2001}"
    ∷ "\u{2002}" ∷ "\u{2003}" ∷ "\u{2004}" ∷ "\u{2005}" ∷ "\u{2006}" ∷ "\u{2007}" ∷ "\u{2008}"
    ∷ "\u{2009}" ∷ "\u{200a}" ∷ "\u{2028}" ∷ "\u{2029}" ∷ "\u{202f}" ∷ "\u{205f}" ∷ "\u{3000}"
    ∷ "\u{feff}" ∷ []

trim_start : ℕ → String → String
unfolding find_row white_space
trim_start zero s = s
trim_start (suc n) s = elim (find_row (λ (w : String). starts_with s w) white_space) [
  | none ↦ s
  | some w ↦ trim_start n (slice s (len w) (len s))
]

trim_end : ℕ → String → String
unfolding find_row white_space
trim_end zero s = s
trim_end (suc n) s =
    elim (find_row (λ (w : String). text_eq (slice s (len s - len w) (len s)) w) white_space) [
      | none ↦ s
      | some w ↦ trim_end n (slice s 0 (len s - len w))
    ]

unfoldable pub trim : String → String
unfolding trim_start trim_end
trim s = trim_end (len s) (trim_start (len s) s)

trim_test : trim " \t two words \n" ≡ "two words"
unfolding trim
trim_test = refl

trim_nothing : trim "  " ≡ ""
unfolding trim
trim_nothing = refl
